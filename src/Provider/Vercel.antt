-- ===== src/Provider/Vercel.antt =====
-- packages/provider-vercel/src/provider.ts. `fetch` is arbitrary, on a state of its own; what it is given
-- is the method, the path, the query and the body, without the address of the service and the token. A body
-- in JSON is one of the shapes that the code looks for. An empty text as a default is left out where it means
-- the same as a missing one.
pub mod Types
pub mod Secrets
pub mod Rotation
pub mod Service
pub mod Steps
pub mod Restore
use secret_rotation_kit.Prelude.{
  ℕ, ◌-◌, ◌<>◌, Bool, true, false, not, ◌&&◌, ◌⊎◌, inl, inr, Option, none, some, List, [], ◌∷◌,
  ◌++◌, String, ◌==◌, string_eq, if◌then◌else◌, nat_beq, filter, find, head?, map,
}
use secret_rotation_kit.Map
use secret_rotation_kit.Effect.{
  Error, plain_error, Eff, Outcome, returned, thrown, ◌>>=◌, ◌>>◌, pure, throw, try_catch,
}
use secret_rotation_kit.Types.{RotationSession, ProviderState, Metadata, Value, text, flag, spread}
use secret_rotation_kit.World.{SecretValue, PropagationStage, current, pending}
use secret_rotation_kit.Validation.{joined}
use secret_rotation_kit.Provider.{
  SecretVersion, ProviderHealth, ProviderCapabilities, unhealthy, Host, non_empty, or_text, or_now,
  new_session, probed,
}
pub use secret_rotation_kit.Provider.Vercel.Types.{
  EnvTarget, no_target, one_target, targets, VercelEnv, CreatedEnv, one_created, all_created, Json,
  env_list, env_object, created_response, other_json, EnvBody, ApiCall, ApiResponse, VercelOptions,
  Vercel, comment_active, comment_pending,
}

abbrev or_production : List String → List String
or_production [] = "production" ∷ []
or_production ts = ts

-- The constructor, where a `fetch` is given.
unfoldable pub new_vercel : VercelOptions → Vercel ⊎ Error
new_vercel o =
    if o.token == ""
    then inr (plain_error "VercelProvider requires a \"token\".")
    else if o.project_id == ""
    then inr (plain_error "VercelProvider requires a \"projectId\".")
    else inl (record {
      project_id = o.project_id;
      team_id = o.team_id;
      target = or_production o.target;
      env_type = or_text o.env_type "encrypted";
    })

abbrev pub normalized : EnvTarget → List String
normalized no_target = []
normalized (one_target t) = t ∷ []
normalized (targets ts) = ts

abbrev includes : List String → String → Bool
includes [] x = false
includes (y ∷ ys) x = let rest = includes ys x in if y == x then true else rest

abbrev some_of : List String → List String → Bool
some_of [] ts = false
some_of (x ∷ xs) ts = let rest = some_of xs ts in if includes ts x then true else rest

abbrev matches_any : List String → List String → Bool
matches_any mine [] = true
matches_any mine ts = some_of mine ts

abbrev pub team_query : Option String → List (String × String)
team_query none = []
team_query (some t) = ("teamId", t) ∷ []

abbrev pub comment_for : PropagationStage → String
comment_for current = comment_active
comment_for pending = comment_pending

abbrev pub supports_rotation : Bool
supports_rotation = true

abbrev pub capabilities : ProviderCapabilities
capabilities = record {
  supports_rotation = true;
  supports_versioning = false;
  supports_labels = false;
  max_versions = some 1;
}

-- The metadata of a session.
abbrev pub value_at : Option Value → Option String
value_at (some (text t)) = some t
value_at _ = none

abbrev pub is_true : Option Value → Bool
is_true (some (flag b)) = b
is_true _ = false

abbrev version_entry : String → Metadata
version_entry v = if v == "" then [] else ("previousVersionId", text v) ∷ []

-- What is captured of the secret, or that there is none.
abbrev pub captured : Option SecretValue → Metadata
captured none = ("existed", flag false) ∷ []
captured (some v) =
    ("existed", flag true) ∷ ("previousValue", text v.value) ∷ version_entry v.version_id

abbrev pub or_option : Option String → Option String → Option String
or_option none o = o
or_option (some v) o = some v

module _ {O : Type 0} (host : Host O) (fetch : ApiCall → Eff O ApiResponse)
    (encode : String → String) (p : Vercel) where
  abbrev pub matches_target : VercelEnv → Bool
  matches_target e = matches_any p.target (normalized e.target)

  abbrev pub env_path : Option String → String
  env_path none = "/v10/projects/" <> encode p.project_id <> "/env"
  env_path (some id) = "/v9/projects/" <> encode p.project_id <> "/env/" <> encode id

  abbrev pub json_of : Option Json → Eff O (Option Json)
  json_of none = throw (plain_error "Unexpected token in JSON")
  json_of (some j) = pure (some j)

  abbrev pub answered : ApiCall → ApiResponse → Eff O (Option Json)
  answered c r =
      if not r.ok
      then throw (
          plain_error (
            "Vercel API "
            <> c.method
            <> " "
            <> c.path
            <> " failed ("
            <> host.print r.status
            <> "): "
            <> or_text r.text ""))
      else if nat_beq r.status 204
      then pure none
      else json_of r.json

  unfoldable pub api :
      String → String → List (String × String) → Option EnvBody → Eff O (Option Json)
  api method path query body =
      let c : ApiCall = record {
        method = method;
        path = path;
        query = team_query (non_empty p.team_id) ++ query;
        body = body;
      } in
      fetch c >>= answered c

  abbrev pub decrypt_query : Bool → List (String × String)
  decrypt_query decrypt = if decrypt then ("decrypt", "true") ∷ [] else []

  abbrev pub as_envs : Option Json → Eff O (List VercelEnv)
  as_envs none = throw (plain_error "Cannot read properties of undefined (reading 'envs')")
  as_envs (some (env_list es)) = pure es
  as_envs (some (env_object es)) = pure es
  as_envs (some j) = pure []

  unfoldable pub list_envs : Bool → Eff O (List VercelEnv)
  list_envs decrypt = api "GET" (env_path none) (decrypt_query decrypt) none >>= as_envs

  abbrev pub is_env : String → Option String → VercelEnv → Bool
  is_env name none e = e.key == name && matches_target e
  is_env name (some version) e = e.id == version

  unfoldable pub find_env : String → Option String → Eff O (Option VercelEnv)
  find_env name version =
      list_envs true >>= (λ es. pure (find (is_env name (non_empty version)) es))

  abbrev pub to_secret_value : VercelEnv → String → O → SecretValue
  to_secret_value e fallback s = record {
    value = or_text e.value fallback;
    version_id = e.id;
    version_stages = some (normalized e.target);
    created_at = or_now e.created_at (host.clock s);
    metadata = none;
  }

  abbrev pub found_or : String → Option VercelEnv → Eff O SecretValue
  found_or name none s =
      thrown
        (plain_error ("Secret \"" <> name <> "\" not found in Vercel project " <> p.project_id)) s
  found_or name (some e) s = returned (to_secret_value e "" s) s

  unfoldable pub get_secret : String → Option String → Eff O SecretValue
  get_secret name version = find_env name version >>= found_or name

  abbrev pub env_body : String → String → String → EnvBody
  env_body name value comment = record {
    key = some name;
    value = some value;
    type = some p.env_type;
    target = some p.target;
    comment = comment;
  }
