-- ===== src/Provider/Vercel/Types.antt =====
-- The shapes of packages/provider-vercel/src/provider.ts: variables, calls and answers, and options.
use secret_rotation_kit.Prelude.{ℕ, Bool, Option, List, String}

pub data EnvTarget : Type 0 where
  no_target : EnvTarget
  one_target : String → EnvTarget
  targets : List String → EnvTarget

pub record VercelEnv : Type 0 where
  pub id : String
  pub key : String
  pub value : Option String
  pub type : String
  pub target : EnvTarget
  pub comment : Option String
  pub created_at : Option ℕ

pub data CreatedEnv : Type 0 where
  one_created : VercelEnv → CreatedEnv
  all_created : List VercelEnv → CreatedEnv

-- `failed` lists the messages.
pub data Json : Type 0 where
  env_list : List VercelEnv → Json
  env_object : List VercelEnv → Json
  created_response : CreatedEnv → (failed : List String) → Json
  other_json : Json

pub record EnvBody : Type 0 where
  pub key : Option String
  pub value : Option String
  pub type : Option String
  pub target : Option (List String)
  pub comment : String

pub record ApiCall : Type 0 where
  pub method : String
  pub path : String
  pub query : List (String × String)
  pub body : Option EnvBody

-- `text` and `json` are none where they reject.
pub record ApiResponse : Type 0 where
  pub ok : Bool
  pub status : ℕ
  pub text : Option String
  pub json : Option Json

pub record VercelOptions : Type 0 where
  pub token : String
  pub project_id : String
  pub team_id : Option String
  pub target : List String
  pub env_type : Option String

pub record Vercel : Type 0 where
  pub project_id : String
  pub team_id : Option String
  pub target : List String
  pub env_type : String

abbrev pub comment_active : String
comment_active = "Managed by secret-rotation-kit"

abbrev pub comment_pending : String
comment_pending = "Managed by secret-rotation-kit (rotating)"
