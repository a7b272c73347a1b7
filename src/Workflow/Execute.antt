-- ===== src/Workflow/Execute.antt =====
-- packages/core/src/rotation-workflow.ts: `execute`, and the cleanup in its `catch` block.
use mathlib.Core.Option
use secret_rotation_kit.Prelude.{
  ℕ, ◌<>◌, ◌||◌, Option, none, some, String, string_eq, if◌then◌else◌,
}
use secret_rotation_kit.Effect.{
  Error, can_retry_of, Eff, returned, thrown, ◌>>=◌, ◌>>◌, pure, try_catch,
}
use secret_rotation_kit.Types.{SecretKey, RotationSession, is_revoked, is_failed, rotation_failed}
use secret_rotation_kit.KeyStore.{KeyStore}
use secret_rotation_kit.Lifecycle.{mark_failed}
use secret_rotation_kit.World.{
  Env, World, Frame, RollbackEntry, in_store, in_outside, now, random_suffix,
}
use secret_rotation_kit.Rollback.{truthy, reactivated_key, rollback, get_entry}
use secret_rotation_kit.Workflow.{
  RotationRequest, RotationResult, Setup, rotation_metadata, key_id_of, empty_frame, emit, attempt,
}

module _ {S O Ratio : Type 0} (ks : KeyStore S) (env : Env O Ratio) (u : Setup) where
  reactivate_previous_found : Option SecretKey → Eff (World S O) (Unit {0})
  reactivate_previous_found none w = returned tt w
  reactivate_previous_found (some key) w =
      if is_revoked key.status || is_failed key.status
      then returned tt w
      else (do t ← now env; in_store (ks.update (reactivated_key key t))) w

  unfoldable pub reactivate_previous_key : String → String → Eff (World S O) (Unit {0})
  unfolding reactivate_previous_found
  reactivate_previous_key name id w = reactivate_previous_found (ks.get w.store name id) w

  -- "if (entry)": `rollback` catches all that its steps throw.
  unfoldable pub roll_back_entry : Option RollbackEntry → String → Eff (World S O) (Unit {0})
  roll_back_entry none message = pure tt
  roll_back_entry (some entry) message =
      try_catch (do rollback ks env entry message; pure tt) (λ e. pure tt)

  unfoldable pub cancel_begun : Option RotationSession → Eff (World S O) (Unit {0})
  cancel_begun none = pure tt
  cancel_begun (some session) = try_catch (in_outside (env.cancel_rotation session)) (λ e. pure tt)

  unfoldable pub fail_new_key : Option SecretKey → String → String → Eff (World S O) (Unit {0})
  fail_new_key none name message = pure tt
  fail_new_key (some key) name message =
      try_catch (do t ← now env; in_store (mark_failed ks name key.key_id message t); pure tt)
        (λ e. pure tt)

  unfoldable pub restore_previous : Option String → String → Eff (World S O) (Unit {0})
  unfolding reactivate_previous_key
  restore_previous none name = pure tt
  restore_previous (some id) name = try_catch (reactivate_previous_key name id) (λ e. pure tt)

  -- The branch without a recorded attempt.
  unfoldable pub clean_up : Frame → String → String → Eff (World S O) (Unit {0})
  unfolding cancel_begun fail_new_key restore_previous
  clean_up f name message = do
    cancel_begun f.session
    fail_new_key f.new_key name message
    restore_previous (truthy f.previous_active_key_id) name

  -- "if (this.rollbackManager && rollbackEntryId)"; a generated id is not empty.
  unfoldable pub recover :
      Option ℕ → Option String → Frame → String → String → Eff (World S O) (Unit {0})
  unfolding roll_back_entry
  recover (some max_entries) (some id) f name message w =
      roll_back_entry (get_entry w.entries id) message w
  recover _ _ f name message w = clean_up f name message w

  unfoldable pub handle_failure : Frame → String → Error → String → Eff (World S O) (Unit {0})
  unfolding recover
  handle_failure f name error id = do
    recover u.rollback f.rollback_entry_id f name error.message
    t ← now env
    emit u (
        rotation_failed (record {
          secret_name = name;
          key_id = Option.map key_id_of f.new_key;
          error = error.message;
          stage = f.stage;
          timestamp = t;
          can_retry = can_retry_of error.class;
          metadata = rotation_metadata id;
        }))

  -- The clock reading inside `generateRotationId` is part of the generated suffix.
  unfoldable pub execute : RotationRequest Ratio → Eff (World S O) RotationResult
  execute request = do
    suffix ← random_suffix env
    let id = "rot-" <> suffix
    start ← now env
    (λ w. returned (tt {0}) (record w { frame = empty_frame }))
    try_catch (attempt ks env u request id start) (λ error w.
        (do handle_failure w.frame request.secret_name error id; (λ v. thrown error v)) w)
