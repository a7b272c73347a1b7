-- ===== src/Provider/Gcp.antt =====
-- packages/provider-gcp/src/provider.ts. The client of the SDK is arbitrary, on a state of its own, with a
-- function for each of its methods. The constructor, which loads the SDK, is left out. A project, a secret
-- and a version are named by paths.
pub mod Verifying
use Prim.Native.Char.{code}
use Prim.Native.String
use secret_rotation_kit.Prelude.{
  ℕ, ◌+◌, ◌*◌, ◌<>◌, Bool, true, false, not, Option, none, some, List, [], ◌∷◌, String, ◌==◌,
  string_eq, if◌then◌else◌, nat_beq, filter, map,
}
use secret_rotation_kit.Map.{Map}
use secret_rotation_kit.Effect.{Error, Eff, Outcome, returned, thrown, ◌>>=◌, ◌>>◌, pure, try_catch}
use secret_rotation_kit.Types.{RotationSession, ProviderState, text}
use secret_rotation_kit.World.{SecretValue, PropagationStage}
use secret_rotation_kit.Provider.{
  SecretVersion, ProviderHealth, unhealthy, ProviderCapabilities, Host, non_empty, or_text,
  new_session, probed,
}

pub data Seconds : Type 0 where
  no_seconds : Seconds
  number_of : ℕ → Seconds
  text_of : String → Seconds

pub record Timestamp : Type 0 where
  pub seconds : Seconds
  pub nanos : Option ℕ

pub record VersionOutput : Type 0 where
  pub name : Option String
  pub create_time : Option Timestamp
  pub state : Option String

pub record AccessOutput : Type 0 where
  pub name : Option String
  pub payload : Option (List ℕ)

abbrev pub Labels : Type 0
Labels = Map String String

-- `parse_int`, and division by a million rounded down, are those of the language; so are the buffers.
pub record SecretManagerClient (O : Type 0) : Type 0 where
  pub create_secret : (parent id : String) → Eff O (Option String)
  pub add_secret_version : (parent : String) → List ℕ → Eff O VersionOutput
  pub access_secret_version : String → Eff O AccessOutput
  pub delete_secret : String → (etag : Option String) → Eff O (Unit {0})
  pub list_secret_versions : String → Eff O (List VersionOutput)
  pub destroy_secret_version : String → Eff O (Unit {0})
  pub get_secret : String → Eff O (Option Labels)
  pub update_labels : String → Labels → Eff O (Unit {0})
  pub list_secrets : String → Eff O (Unit {0})
  pub to_bytes : String → List ℕ
  pub to_utf8 : List ℕ → String
  pub parse_int : String → ℕ
  pub millionth : ℕ → ℕ

-- `includes('/')`.
abbrev pub has_slash : String → Bool
has_slash String.[] = false
has_slash (String.◌∷◌ c s) = let rest = has_slash s in if nat_beq (code c) b'/' then true else rest

abbrev pub or_zero : Option ℕ → ℕ
or_zero none = 0
or_zero (some n) = n

abbrev pub or_labels : Option Labels → Labels
or_labels none = []
or_labels (some ls) = ls

-- `stages: [String(v.state)]`.
abbrev pub state_stages : Option String → Option (List String)
state_stages none = none
state_stages (some x) = some (x ∷ [])

abbrev pub etag_for : Bool → Option String
etag_for permanent = if permanent then some "" else none

abbrev pub capabilities : ProviderCapabilities
capabilities = record {
  supports_rotation = true;
  supports_versioning = true;
  supports_labels = true;
  max_versions = some 1000;
}

module _ {O : Type 0} (host : Host O) (client : SecretManagerClient O) (project_id : String) where
  abbrev pub secret_path : String → String
  secret_path name = "projects/" <> project_id <> "/secrets/" <> name

  abbrev pub version_path : String → String → String
  version_path name version = secret_path name <> "/versions/" <> version

  abbrev seconds_of : Seconds → ℕ
  seconds_of no_seconds = 0
  seconds_of (number_of n) = n
  seconds_of (text_of s) = client.parse_int s

  abbrev timestamp_to_date : Timestamp → ℕ
  timestamp_to_date t = seconds_of t.seconds * 1000 + client.millionth (or_zero t.nanos)

  abbrev date_or_now : Option Timestamp → O → ℕ
  date_or_now none s = host.clock s
  date_or_now (some t) s = timestamp_to_date t

  abbrev add_first : String → Option String → Eff O (Unit {0})
  add_first value none = pure tt
  add_first value (some parent) =
      client.add_secret_version parent (client.to_bytes value) >> pure tt

  unfoldable pub create_secret : String → String → Eff O (Unit {0})
  create_secret name value =
      client.create_secret ("projects/" <> project_id) name
      >>= (λ parent. add_first value (non_empty parent))

  abbrev payload_text : Option (List ℕ) → String
  payload_text none = ""
  payload_text (some bytes) = client.to_utf8 bytes

  abbrev pub accessed : AccessOutput → Eff O SecretValue
  accessed r s =
      returned
        (record {
          value = payload_text r.payload;
          version_id = or_text r.name "";
          version_stages = none;
          created_at = host.clock s;
          metadata = none;
        })
        s

  abbrev pub wanted_path : String → Option String → String
  wanted_path name none = version_path name "latest"
  wanted_path name (some version) = version_path name version

  unfoldable pub get_secret : String → Option String → Eff O SecretValue
  get_secret name version =
      client.access_secret_version (wanted_path name (non_empty version)) >>= accessed

  unfoldable pub store_secret_value : String → String → PropagationStage → Eff O SecretValue
  store_secret_value name value stage =
      client.add_secret_version (secret_path name) (client.to_bytes value) >>= (λ r s.
        returned
          (record {
            value = value;
            version_id = or_text r.name "";
            version_stages = none;
            created_at = date_or_now r.create_time s;
            metadata = none;
          })
          s)

  unfoldable pub delete_secret : String → Bool → Eff O (Unit {0})
  delete_secret name permanent = client.delete_secret (secret_path name) (etag_for permanent)

  abbrev version_of : O → VersionOutput → SecretVersion
  version_of s v = record {
    version_id = or_text v.name "";
    created_at = date_or_now v.create_time s;
    stages = state_stages v.state;
  }

  unfoldable pub list_versions : String → Eff O (List SecretVersion)
  list_versions name =
      client.list_secret_versions (secret_path name)
      >>= (λ vs s. returned (map (version_of s) vs) s)

  abbrev pub full_path : String → String → String
  full_path name version = if has_slash version then version else version_path name version

  unfoldable pub get_version : String → String → Eff O SecretValue
  get_version name version = client.access_secret_version (full_path name version) >>= accessed

  unfoldable pub delete_version : String → String → Eff O (Unit {0})
  delete_version name version = client.destroy_secret_version (full_path name version)

  unfoldable pub begin_rotation : String → Eff O RotationSession
  begin_rotation name =
      client.update_labels (secret_path name) (("rotation-status", "pending") ∷ [])
      >> new_session host "gcp-rot-" "gcp-secret-manager" name (record {
        version_id = none;
        version_stages = none;
        metadata = some (("status", text "pending") ∷ []);
      })

  abbrev pub is_other : String × String → Bool
  is_other (k, v) = not (k == "rotation-status")

  unfoldable pub complete_rotation : RotationSession → Eff O (Unit {0})
  complete_rotation session = client.get_secret (secret_path session.secret_name) >>= (λ labels.
      client.update_labels (secret_path session.secret_name) (filter is_other (or_labels labels)))

  abbrev delete_written : String → Option String → Eff O (Unit {0})
  delete_written name none = pure tt
  delete_written name (some version) = try_catch (delete_version name version) (λ e. pure tt)

  unfoldable pub cancel_rotation : RotationSession → Eff O (Unit {0})
  cancel_rotation session =
      delete_written session.secret_name (non_empty session.state.version_id)
      >> complete_rotation session

  unfoldable pub health : Eff O ProviderHealth
  health s =
      probed host (λ e elapsed. (unhealthy, 0, some e.message)) (host.clock s)
        (client.list_secrets ("projects/" <> project_id) s)
