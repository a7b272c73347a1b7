-- ===== src/Workflow.antt =====
-- packages/core/src/rotation-workflow.ts: one rotation, from the new key to the hand-over, with the
-- cleanup of a rotation that failed. Logging is left out. No other call writes to the store between
-- the steps.
use secret_rotation_kit.Prelude.{
  ℕ, ◌<>◌, Bool, true, false, not, ◌||◌, Option, none, some, List, [], ◌∷◌, ◌++◌, String, string_eq,
  if◌then◌else◌,
}
pub mod Execute
pub mod Triples
pub mod Recovery
pub mod Failure
pub mod Steps
pub mod Attempt
pub mod Correct
pub mod Stores
use mathlib.Core.Option
use secret_rotation_kit.Prelude.Int.{ℤ, sub_ℕ}
use secret_rotation_kit.Effect.{
  Error, staged_error, can_retry_of, Eff, returned, thrown, ◌>>=◌, ◌>>◌, pure, throw, try_catch,
  RotationStage, generation, propagation, verification, activation,
}
use secret_rotation_kit.Types.{
  KeyFormat, Metadata, SecretKey, ProviderState, RotationSession, RotationEvent, text, number,
  spread, with_entry, is_revoked, is_failed, key_generated, key_propagated, key_verified,
  key_activated, rotation_failed,
}
use secret_rotation_kit.KeyStore.{KeyStore}
use secret_rotation_kit.Lifecycle.{activate, mark_failed}
use secret_rotation_kit.World.{
  Env, World, Frame, RollbackEntry, SecretValue, KeyGenerationOptions, PropagationStage, in_store,
  in_outside, now, random_suffix,
}
use secret_rotation_kit.Verification.{VerificationOptions, VerificationResult}
use secret_rotation_kit.Rollback.{
  truthy, reactivated_key, start_rotation, mark_complete, rollback, get_entry,
}

pub record RotationRequest (Ratio : Type 0) : Type 0 where
  pub secret_name : String
  pub key_format : Option KeyFormat
  pub overlap_period_ms : Option ℕ
  pub verification_timeout : Option ℕ
  pub min_consumer_coverage : Option Ratio
  pub metadata : Option Metadata

pub record RotationResult : Type 0 where
  pub success : Bool
  pub rotation_id : String
  pub new_key_id : String
  pub duration : ℤ
  pub timestamp : ℕ

-- The constructor's arguments: with an event emitter or without, and the rollback manager by its
-- `maxEntries`, or none.
pub record Setup : Type 0 where
  pub has_emitter : Bool
  pub rollback : Option ℕ

-- `a ?? b`.
abbrev pub or_else {ℓ} : {A : Type ℓ} → Option A → A → A
or_else none d = d
or_else (some a) d = a

abbrev pub rotation_metadata : String → Option Metadata
rotation_metadata id = some (with_entry [] "rotationId" (text id))

abbrev pub no_rotation_support : String → Error
no_rotation_support name =
    staged_error ("Provider " <> name <> " does not support rotation workflows") propagation false

abbrev pub coverage_failed : {O Ratio : Type 0} → Env O Ratio → VerificationResult Ratio → Error
coverage_failed env r =
    staged_error ("Propagation verification failed: coverage " <> env.percent r.coverage <> "%")
      verification r.can_retry

-- `session.state.versionId = …`, and `versionStages` if there are any, on the session object itself.
abbrev pub stages_or : Option (List String) → Option (List String) → Option (List String)
stages_or none old = old
stages_or (some s) old = some s

abbrev pub propagated_session : RotationSession → SecretValue → RotationSession
propagated_session s p = record {
  session_id = s.session_id;
  secret_name = s.secret_name;
  provider = s.provider;
  state = record {
    version_id = some p.version_id;
    version_stages = stages_or p.version_stages s.state.version_stages;
    metadata = s.state.metadata;
  };
  started_at = s.started_at;
}

abbrev pub empty_frame : Frame
empty_frame = record {
  session = none;
  new_key = none;
  previous_active_key_id = none;
  stage = generation;
  rollback_entry_id = none;
}

module _ {S O : Type 0} where
  -- Assignments to the local variables.
  abbrev pub set_frame : (Frame → Frame) → Eff (World S O) (Unit {0})
  set_frame f w = returned tt (record w { frame = f w.frame })

  abbrev pub set_stage : RotationStage → Eff (World S O) (Unit {0})
  set_stage g = set_frame (λ f. record f { stage = g })

  -- An emission that throws is logged and forgotten, so the event counts as handed over.
  abbrev pub emit : Setup → RotationEvent → Eff (World S O) (Unit {0})
  emit u e w =
      if u.has_emitter
      then returned tt (record w { emitted = w.emitted ++ e ∷ [] })
      else returned tt w

abbrev pub key_id_of : SecretKey → String
key_id_of k = k.key_id

module _ {S O Ratio : Type 0} (ks : KeyStore S) (env : Env O Ratio) (u : Setup) where
  unfoldable pub generate_key : RotationRequest Ratio → String → Eff (World S O) SecretKey
  generate_key request id = do
    key ← in_outside (
        env.generate (record {
          secret_name = request.secret_name;
          format = request.key_format;
          metadata = some (with_entry (spread request.metadata) "rotationId" (text id));
        }))
    in_store (λ s. returned (tt {0}) (ks.save key s))
    t ← now env
    emit u (
        key_generated (record {
          secret_name = request.secret_name;
          key_id = key.key_id;
          timestamp = t;
          metadata = rotation_metadata id;
        }))
    pure key

  unfoldable pub begin_provider_rotation : String → Eff (World S O) RotationSession
  begin_provider_rotation name =
      if not env.supports_rotation
      then throw (no_rotation_support env.provider_name)
      else in_outside (env.begin_rotation name)

  unfoldable pub propagate_to_provider :
      String → SecretKey → RotationSession → String → Eff (World S O) RotationSession
  propagate_to_provider name key session id = do
    propagated ←
        in_outside (env.store_secret_value name key.encrypted_material PropagationStage.pending)
    set_frame (λ f. record f { session = some (propagated_session session propagated) })
    t ← now env
    t' ← now env
    emit u (
        key_propagated (record {
          secret_name = name;
          key_id = key.key_id;
          provider = env.provider_name;
          timestamp = t;
          propagation_time = sub_ℕ t' key.created_at;
          metadata = some (
              with_entry (with_entry [] "rotationId" (text id)) "versionId"
                (text propagated.version_id));
        }))
    pure (propagated_session session propagated)

  unfoldable pub verify_propagation :
      RotationSession → SecretKey → RotationRequest Ratio → String → Eff (World S O) (Unit {0})
  verify_propagation session key request id = do
    result ← in_outside (
        env.verify session (record {
          timeout = some (or_else request.verification_timeout 30000);
          per_consumer_timeout = none;
          min_consumer_coverage = some (or_else request.min_consumer_coverage env.full_coverage);
          min_new_key_usage = none;
          error_threshold = none;
          retry_policy = none;
          metadata = rotation_metadata id;
        }))
    if not result.success then throw (coverage_failed env result) else (do
      t ← now env
      emit u (
          key_verified (record {
            secret_name = session.secret_name;
            key_id = key.key_id;
            consumer_count = result.consumer_count;
            verification_time = result.duration;
            timestamp = t;
            metadata = rotation_metadata id;
          })))

  unfoldable pub activate_new_key : String → String → Option ℕ → Eff (World S O) (Unit {0})
  activate_new_key name key_id overlap = do
    t ← now env
    t' ← now env
    in_store (activate ks name key_id overlap t t')
    pure tt

  -- "if (this.rollbackManager)".
  unfoldable pub record_attempt :
      Option ℕ → String → String → Option String → Eff (World S O) (Unit {0})
  record_attempt none name key_id previous = pure tt
  record_attempt (some max_entries) name key_id previous = do
    entry ← start_rotation ks env max_entries name key_id previous none
    set_frame (λ f. record f { rollback_entry_id = some entry.id })

  -- "if (this.rollbackManager && rollbackEntryId)".
  unfoldable pub record_success : Option ℕ → Option String → Eff (World S O) (Unit {0})
  record_success none id = pure tt
  record_success (some max_entries) none = pure tt
  record_success (some max_entries) (some id) = mark_complete ks env id

  -- The `try` block of `execute`.
  unfoldable pub attempt : RotationRequest Ratio → String → ℕ → Eff (World S O) RotationResult
  attempt request id start = do
    previous ← λ w. returned (Option.map key_id_of (ks.get_active w.store request.secret_name)) w
    set_frame (λ f. record f { previous_active_key_id = previous })
    key ← generate_key request id
    set_frame (λ f. record f { new_key = some key })
    record_attempt u.rollback request.secret_name key.key_id previous
    set_stage propagation
    begun ← begin_provider_rotation request.secret_name
    set_frame (λ f. record f { session = some begun })
    session ← propagate_to_provider request.secret_name key begun id
    set_stage verification
    verify_propagation session key request id
    set_stage activation
    activate_new_key request.secret_name key.key_id request.overlap_period_ms
    in_outside (env.complete_rotation session)
    finish ← now env
    let duration = sub_ℕ finish start
    (λ w. record_success u.rollback w.frame.rollback_entry_id w)
    t ← now env
    emit u (
        key_activated (record {
          secret_name = request.secret_name;
          key_id = key.key_id;
          previous_key_id = previous;
          timestamp = t;
          metadata =
              some (with_entry (with_entry [] "rotationId" (text id)) "duration" (number duration));
        }))
    t' ← now env
    pure (record {
      success = true;
      rotation_id = id;
      new_key_id = key.key_id;
      duration = duration;
      timestamp = t';
    })
