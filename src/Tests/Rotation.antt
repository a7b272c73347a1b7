-- ===== src/Tests/Rotation.antt =====
-- Whole rotations on sample data.
use secret_rotation_kit.Prelude.{
  ◌≡◌, refl, Bool, true, false, none, some, List, [], ◌∷◌, String, map, inl, inr, ◌==◌, string_eq,
  Bool-cases,
}
use secret_rotation_kit.Effect.{Holds, after, on_return}
use secret_rotation_kit.Types.{KeyStatus, active, failed, expired}
use secret_rotation_kit.KeyStore.InMemory.{Store, save, get, get_active, values, keys_of}
use secret_rotation_kit.KeyStore.InMemory.Laws.{in_memory, in_memory-KeyStoreLaws, Valid}
use secret_rotation_kit.Map
use secret_rotation_kit.Sort
use secret_rotation_kit.KeyStore.InMemory
use secret_rotation_kit.Lifecycle.{activate, expire_current, mark_failed}
use secret_rotation_kit.Rollback.{
  new_entry, start_rotation, cancel_session, get_entry, mark_complete, push_entry, reactivate_key,
  rollback, try_mark_failed, try_reactivate,
}
use secret_rotation_kit.Workflow.{
  attempt, generate_key, record_attempt, begin_provider_rotation, propagate_to_provider,
  verify_propagation, activate_new_key, record_success,
}
use secret_rotation_kit.Workflow.Execute.{
  execute, cancel_begun, clean_up, fail_new_key, handle_failure, reactivate_previous_key, recover,
  restore_previous, roll_back_entry,
}
use secret_rotation_kit.Workflow.Stores.{Starts, IsNew, saved-Contested}
use secret_rotation_kit.Workflow.Failure.{rollback-Restored}
use secret_rotation_kit.Workflow.Recovery.{Restored}
use secret_rotation_kit.Workflow.Steps.{GeneratesNew, Succeeded}
use secret_rotation_kit.Workflow.Correct.{execute-Rotated-or-Restored}
use secret_rotation_kit.Tests.Keys.{single_of-Inv}
use secret_rotation_kit.Tests.Samples.{
  old_key, new_key, one_active, env_with, request, with_rollback, world,
}

-- The keys of the secret after a run, with their statuses.
abbrev statuses : Store → List (String × KeyStatus)
statuses s = map (λ e. (e.0, e.1.status)) (keys_of (Map.get s "db"))

rotates :
    statuses (after (execute in_memory (env_with true) with_rollback request world)).store
    ≡ ("k1", expired) ∷ ("k2", active) ∷ []
unfolding execute Map.get Map.set Map.has attempt generate_key record_attempt start_rotation
    begin_provider_rotation propagate_to_provider verify_propagation activate_new_key record_success
    activate expire_current mark_failed cancel_session get_entry mark_complete push_entry
    reactivate_key rollback try_mark_failed try_reactivate Sort.sort Sort.insert InMemory.save
    InMemory.get InMemory.get_active InMemory.update cancel_begun clean_up fail_new_key
    handle_failure reactivate_previous_key recover restore_previous roll_back_entry
rotates = refl

restores :
    statuses (after (execute in_memory (env_with false) with_rollback request world)).store
    ≡ ("k1", active) ∷ ("k2", failed) ∷ []
unfolding execute Map.get Map.set Map.has attempt generate_key record_attempt start_rotation
    begin_provider_rotation propagate_to_provider verify_propagation activate_new_key record_success
    activate expire_current mark_failed cancel_session get_entry mark_complete push_entry
    reactivate_key rollback try_mark_failed try_reactivate Sort.sort Sort.insert InMemory.save
    InMemory.get InMemory.get_active InMemory.update cancel_begun clean_up fail_new_key
    handle_failure reactivate_previous_key recover restore_previous roll_back_entry
restores = refl

pub starts : Starts in_memory Valid one_active "db" old_key
unfolding get_active save Map.get Map.set Sort.sort
starts = record {
  valid = (single_of-Inv old_key).valid;
  single = (single_of-Inv old_key).single "db";
  current = refl;
}

pub generates : (b : Bool) → GeneratesNew in_memory (env_with b) one_active
unfolding InMemory.get Map.get
generates b o options =
    on_return (record { named = refl; waiting = refl; unused = not_there options.secret_name })
  where
    not_there : (n : String) → get one_active n "k2" ≡ none
    not_there n = elim (Bool-cases ("db" == n)) [ inl e ↦ rw e refl | inr e ↦ rw e refl ]

-- A rotation whose verification fails.
execute-Rotated-or-Restored_example :
    Holds
      (Succeeded in_memory (env_with false).clock request one_active old_key)
      (λ e v. Restored in_memory Valid "db" "k1" v.store)
      (execute in_memory (env_with false) with_rollback request world)
unfolding get_entry
execute-Rotated-or-Restored_example =
    execute-Rotated-or-Restored in_memory in_memory-KeyStoreLaws (env_with false) with_rollback
      request world old_key starts (generates false) (λ m. refl) (λ e. cc)

new_key-IsNew : IsNew in_memory one_active "db" new_key
unfolding InMemory.get Map.get
new_key-IsNew = record { named = refl; waiting = refl; unused = refl }

rollback-Restored_example :
    Holds
      (λ result v.
        (result.success ≡ true) × Restored in_memory Valid "db" "k1" v.store × (v.outside ≡ 0))
      (λ _ _. ⊥)
      (rollback in_memory
        (env_with true)
        (new_entry "rb-1" "db" (some "k1") "k2" none 100)
        "lost"
        (record world { store = save new_key one_active }))
rollback-Restored_example =
    rollback-Restored in_memory in_memory-KeyStoreLaws (env_with true) with_rollback "db" "k1"
      "rb-1" "k2" "lost" 100 (record world { store = save new_key one_active }) (λ e. cc)
      (saved-Contested in_memory in_memory-KeyStoreLaws one_active "db" old_key starts new_key
        new_key-IsNew)
