-- ===== src/Provider/Aws.antt =====
-- packages/provider-aws/src/provider.ts. The client of the SDK is arbitrary, on a state of its own, with a
-- function for each command. The constructor, which loads the SDK, is left out.
mod Paging
pub mod Promotion
use secret_rotation_kit.Prelude.{
  ℕ, zero, suc, ◌-◌, ◌<>◌, Bool, true, false, ◌||◌, Option, none, some, List, [], ◌∷◌, ◌++◌, String,
  ◌==◌, string_eq, if◌then◌else◌, nat_beq, find, map,
}
use secret_rotation_kit.Effect.{
  Error, plain_error, Eff, Outcome, returned, thrown, ◌>>=◌, ◌>>◌, pure, throw,
}
use secret_rotation_kit.Types.{RotationSession, ProviderState}
use secret_rotation_kit.World.{SecretValue, PropagationStage, current, pending}
use secret_rotation_kit.Js.{codes}
use secret_rotation_kit.Provider.{
  contains, SecretVersion, ProviderHealth, HealthStatus, healthy, unhealthy, ProviderCapabilities,
  Host, non_empty, or_text, or_now, new_session, probed,
}

pub record GetSecretValueOutput : Type 0 where
  pub secret_string : Option String
  pub version_id : Option String
  pub created_date : Option ℕ
  pub version_stages : Option (List String)

pub record PutSecretValueOutput : Type 0 where
  pub version_id : Option String
  pub version_stages : Option (List String)

pub record SecretVersionsEntry : Type 0 where
  pub version_id : Option String
  pub created_date : Option ℕ
  pub version_stages : Option (List String)

pub record ListSecretVersionIdsOutput : Type 0 where
  pub versions : Option (List SecretVersionsEntry)
  pub next_token : Option String

-- The version that a command names, by its id or by a stage.
pub data Selector : Type 0 where
  by_id by_stage : String → Selector

pub record SecretsManagerClient (O : Type 0) : Type 0 where
  pub create_secret : (name value description : String) → Eff O (Unit {0})
  pub get_secret_value : String → Selector → Eff O GetSecretValueOutput
  pub put_secret_value : (name value : String) → Option (List String) → Eff O PutSecretValueOutput
  pub delete_secret : String → (force : Bool) → Eff O (Unit {0})
  pub list_secret_version_ids : String → (token : Option String) → Eff O ListSecretVersionIdsOutput
  pub update_secret_version_stage :
      (name stage : String) → (remove_from move_to : Option String) → Eff O (Unit {0})
  pub probe : Eff O (Unit {0})
  pub error_name : Error → String

abbrev pub pending_label : String
pending_label = "AWSPENDING"

abbrev pub current_label : String
current_label = "AWSCURRENT"

abbrev pub selector_for : Option String → Selector
selector_for none = by_stage current_label
selector_for (some v) = by_id v

abbrev pub stages_for : PropagationStage → Option (List String)
stages_for current = none
stages_for pending = some (pending_label ∷ [])

abbrev pub or_nothing : {A : Type 0} → Option (List A) → List A
or_nothing none = []
or_nothing (some xs) = xs

abbrev pub is_version : String → SecretVersion → Bool
is_version v x = x.version_id == v

abbrev pub capabilities : ProviderCapabilities
capabilities = record {
  supports_rotation = true;
  supports_versioning = true;
  supports_labels = false;
  max_versions = some 100;
}

module _ {O : Type 0} (host : Host O) (client : SecretsManagerClient O) where
  unfoldable pub create_secret : String → String → Eff O (Unit {0})
  create_secret name value = client.create_secret name value "Managed by secret-rotation-kit"

  unfoldable pub get_secret : String → Option String → Eff O SecretValue
  get_secret name version =
      client.get_secret_value name (selector_for (non_empty version)) >>= (λ r s.
        returned
          (record {
            value = or_text r.secret_string "";
            version_id = or_text r.version_id "";
            version_stages = r.version_stages;
            created_at = or_now r.created_date (host.clock s);
            metadata = none;
          })
          s)

  unfoldable pub store_secret_value : String → String → PropagationStage → Eff O SecretValue
  store_secret_value name value stage =
      client.put_secret_value name value (stages_for stage) >>= (λ r s.
        returned
          (record {
            value = value;
            version_id = or_text r.version_id "";
            version_stages = r.version_stages;
            created_at = host.clock s;
            metadata = none;
          })
          s)

  unfoldable pub delete_secret : String → Bool → Eff O (Unit {0})
  delete_secret name permanent = client.delete_secret name permanent

  abbrev pub version_of : O → SecretVersionsEntry → SecretVersion
  version_of s v = record {
    version_id = or_text v.version_id "";
    created_at = or_now v.created_date (host.clock s);
    stages = v.version_stages;
  }

  -- The pages, at most so many; none where there are more.
  unfoldable pub list_pages :
      ℕ → String → Option String → List SecretVersion → Eff O (Option (List SecretVersion))
  list_pages zero name token versions s = returned none s
  list_pages (suc pages) name token versions s =
      elim (client.list_secret_version_ids name token s) [
        | thrown e t ↦ thrown e t
        | returned r t ↦ elim (non_empty r.next_token) [
          | none ↦ returned (some (versions ++ map (version_of t) (or_nothing r.versions))) t
          | some next ↦
              list_pages pages name (some next)
                (versions ++ map (version_of t) (or_nothing r.versions)) t
        ]
      ]

  unfoldable pub list_versions : ℕ → String → Eff O (Option (List SecretVersion))
  list_versions pages name = list_pages pages name none []

  unfoldable pub get_version : String → String → Eff O SecretValue
  get_version name version = get_secret name (some version)

  abbrev remove_stages : String → String → List String → Eff O (Unit {0})
  remove_stages name version [] = pure tt
  remove_stages name version (l ∷ ls) =
      client.update_secret_version_stage name l (some version) none >> remove_stages name version ls

  abbrev delete_found : String → String → Option SecretVersion → Eff O (Option (Unit {0}))
  delete_found name version none =
      throw (plain_error ("Version " <> version <> " not found for secret " <> name))
  delete_found name version (some v) =
      remove_stages name version (or_nothing v.stages) >> pure (some tt)

  abbrev delete_in : String → String → Option (List SecretVersion) → Eff O (Option (Unit {0}))
  delete_in name version none = pure none
  delete_in name version (some vs) = delete_found name version (find (is_version version) vs)

  unfoldable pub delete_version : ℕ → String → String → Eff O (Option (Unit {0}))
  delete_version pages name version = list_versions pages name >>= delete_in name version

  unfoldable pub begin_rotation : String → Eff O RotationSession
  begin_rotation name =
      new_session host "aws-rot-" "aws-secrets-manager" name
        (record { version_id = none; version_stages = some (pending_label ∷ []); metadata = none })

  abbrev promote : String → Option String → Eff O (Unit {0})
  promote name none = throw (plain_error "Cannot complete rotation: session has no versionId")
  promote name (some v) = client.update_secret_version_stage name current_label none (some v)

  unfoldable pub complete_rotation : RotationSession → Eff O (Unit {0})
  complete_rotation session = promote session.secret_name (non_empty session.state.version_id)

  abbrev unstage : String → Option String → Eff O (Unit {0})
  unstage name none = pure tt
  unstage name (some v) = client.update_secret_version_stage name pending_label (some v) none

  unfoldable pub cancel_rotation : RotationSession → Eff O (Unit {0})
  cancel_rotation session = unstage session.secret_name (non_empty session.state.version_id)

  -- An answer that the secret of the probe is not there is a healthy one.
  abbrev judged : Error → ℕ → HealthStatus × ℕ × Option String
  judged e elapsed =
      if client.error_name e == "ResourceNotFoundException"
        || contains (codes "not found") (codes e.message)
      then (healthy, elapsed, none)
      else (unhealthy, elapsed, some e.message)

  unfoldable pub health : Eff O ProviderHealth
  health s = probed host judged (host.clock s) (client.probe s)
