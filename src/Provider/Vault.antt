-- ===== src/Provider/Vault.antt =====
-- packages/provider-vault/src/provider.ts. The client is arbitrary, on a state of its own. The constructor,
-- which loads the client and normalises the mount path by regular expressions, and logging are left out.
pub mod Cancelling
use secret_rotation_kit.Prelude.{
  ℕ, ◌<>◌, Bool, true, false, ◌||◌, Option, none, some, List, [], ◌∷◌, ◌++◌, String, if◌then◌else◌,
  nat_beq, map,
}
use secret_rotation_kit.Js.{codes}
use secret_rotation_kit.Effect.{
  Error, plain_error, Eff, returned, ◌>>=◌, ◌>>◌, pure, throw, try_catch,
}
use secret_rotation_kit.Types.{RotationSession, Value, text, flag}
use secret_rotation_kit.World.{SecretValue, PropagationStage}
use secret_rotation_kit.Provider.{
  contains, SecretVersion, ProviderHealth, HealthStatus, degraded, unhealthy, ProviderCapabilities,
  Host, non_empty, or_text, or_now, new_session, probed,
}

-- `value` is none where it is no text; times are the instants of their texts.
pub record ReadOutput : Type 0 where
  pub value : Option String
  pub version : Option ℕ
  pub created_time : Option ℕ
  pub deletion_time : Option String
  pub destroyed : Option Bool

pub record WriteOutput : Type 0 where
  pub version : Option ℕ
  pub created_time : Option ℕ

pub record VersionMetadata : Type 0 where
  pub version : String
  pub created_time : Option ℕ
  pub destroyed : Bool

-- `read_versions` is `read` of a metadata path; `status_code` is that of the response of an error.
pub record VaultClient (O : Type 0) : Type 0 where
  pub read : String → Eff O ReadOutput
  pub read_versions : String → Eff O (Option (List VersionMetadata))
  pub write : (path value : String) → Eff O WriteOutput
  pub delete : String → Eff O (Unit {0})
  pub status_code : Error → Option ℕ

abbrev pub has_separator : String → Bool
has_separator name =
    contains (codes "..") (codes name)
    || contains (codes "/") (codes name)
    || contains (codes "\\") (codes name)

-- The code gives a missing field as undefined; here the entry is left out.
abbrev deletion_entry : Option String → List (String × Value)
deletion_entry none = []
deletion_entry (some t) = ("deletionTime", text t) ∷ []

abbrev destroyed_entry : Option Bool → List (String × Value)
destroyed_entry none = []
destroyed_entry (some b) = ("destroyed", flag b) ∷ []

abbrev destroyed_stage : Bool → Option (List String)
destroyed_stage true = some ("destroyed" ∷ [])
destroyed_stage false = none

abbrev pub capabilities : ProviderCapabilities
capabilities = record {
  supports_rotation = true;
  supports_versioning = true;
  supports_labels = false;
  max_versions = none;
}

module _ {O : Type 0} (host : Host O) (client : VaultClient O) (mount_path : String) where
  abbrev pub data_path : String → String
  data_path name = mount_path <> "/data/" <> name

  abbrev pub metadata_path : String → String
  metadata_path name = mount_path <> "/metadata/" <> name

  abbrev pub validate_name : String → Eff O (Unit {0})
  validate_name name =
      if has_separator name
      then throw (
          plain_error
            ("Invalid secret name: \"" <> name <> "\". Names must not contain path separators."))
      else pure tt

  abbrev printed : Option ℕ → String
  printed none = ""
  printed (some n) = host.print n

  unfoldable pub create_secret : String → String → Eff O (Unit {0})
  create_secret name value = validate_name name >> client.write (data_path name) value >> pure tt

  abbrev read_path : String → Option String → String
  read_path name none = data_path name
  read_path name (some version) = data_path name <> "?version=" <> version

  unfoldable pub get_secret : String → Option String → Eff O SecretValue
  get_secret name version =
      validate_name name >> client.read (read_path name (non_empty version)) >>= (λ r s.
        returned
          (record {
            value = or_text r.value "";
            version_id = printed r.version;
            version_stages = none;
            created_at = or_now r.created_time (host.clock s);
            metadata = some (destroyed_entry r.destroyed ++ deletion_entry r.deletion_time);
          })
          s)

  unfoldable pub store_secret_value : String → String → PropagationStage → Eff O SecretValue
  store_secret_value name value stage =
      validate_name name >> client.write (data_path name) value >>= (λ r s.
        returned
          (record {
            value = value;
            version_id = printed r.version;
            version_stages = none;
            created_at = or_now r.created_time (host.clock s);
            metadata = none;
          })
          s)

  unfoldable pub delete_secret : String → Bool → Eff O (Unit {0})
  delete_secret name permanent =
      validate_name name >> client.delete (if permanent then metadata_path name else data_path name)

  abbrev version_of : O → VersionMetadata → SecretVersion
  version_of s v = record {
    version_id = v.version;
    created_at = or_now v.created_time (host.clock s);
    stages = destroyed_stage v.destroyed;
  }

  abbrev versions_in : O → Option (List VersionMetadata) → List SecretVersion
  versions_in s none = []
  versions_in s (some vs) = map (version_of s) vs

  -- Every error of the read is taken for a secret without versions.
  unfoldable pub list_versions : String → Eff O (List SecretVersion)
  list_versions name =
      validate_name name
      >> try_catch
          (client.read_versions (metadata_path name) >>= (λ vs s. returned (versions_in s vs) s))
          (λ e. pure [])

  unfoldable pub get_version : String → String → Eff O SecretValue
  get_version name version = validate_name name >> get_secret name (some version)

  unfoldable pub delete_version : String → String → Eff O (Unit {0})
  delete_version name version =
      validate_name name >> client.delete (data_path name <> "?version=" <> version)

  unfoldable pub begin_rotation : String → Eff O RotationSession
  begin_rotation name = new_session host "vault-rot-" "vault" name (record {
    version_id = none;
    version_stages = none;
    metadata = some (("status", text "pending") ∷ []);
  })

  unfoldable pub complete_rotation : RotationSession → Eff O (Unit {0})
  complete_rotation session = pure tt

  abbrev delete_written : String → Option String → Eff O (Unit {0})
  delete_written name none = pure tt
  delete_written name (some version) = delete_version name version

  unfoldable pub cancel_rotation : RotationSession → Eff O (Unit {0})
  cancel_rotation session =
      try_catch (delete_written session.secret_name (non_empty session.state.version_id))
        (λ e. pure tt)

  abbrev is_sealed_code : ℕ → Bool
  is_sealed_code n = nat_beq n 429 || nat_beq n 500 || nat_beq n 503

  abbrev status_for : Option ℕ → HealthStatus
  status_for none = degraded
  status_for (some n) = if is_sealed_code n then degraded else unhealthy

  unfoldable pub health : Eff O ProviderHealth
  health s =
      probed host (λ e elapsed. (status_for (client.status_code e), 0, some e.message))
        (host.clock s) (client.read "sys/health" s)
