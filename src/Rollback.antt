-- ===== src/Rollback.antt =====
-- packages/core/src/rollback-manager.ts. The entries stand in the world, and an entry is changed in
-- place by its id. Logging is left out.
pub mod Entries
use secret_rotation_kit.Prelude.{
  ℕ, ◌<>◌, Bool, true, false, ◌||◌, Option, none, some, List, [], ◌∷◌, ◌++◌, String, ◌==◌,
  string_eq, if◌then◌else◌, length, ltb, slice_last, find,
}
use secret_rotation_kit.Prelude.Int.{ℤ, sub_ℕ}
use secret_rotation_kit.Effect.{
  Error, staged_error, Eff, returned, thrown, ◌>>=◌, ◌>>◌, pure, try_catch, activation,
}
use secret_rotation_kit.Types.{
  KeyStatus, SecretKey, RotationSession, active, is_revoked, is_failed, status_text,
}
use secret_rotation_kit.KeyStore.{KeyStore}
use secret_rotation_kit.Lifecycle.{mark_failed}
use secret_rotation_kit.World.{Env, World, RollbackEntry, in_store, in_outside, now, random_suffix}

pub record RollbackResult : Type 0 where
  pub success : Bool
  pub entry : RollbackEntry
  pub duration : ℤ

-- An id that the `if` takes: an absent one and the empty text are falsy.
abbrev pub truthy : Option String → Option String
truthy none = none
truthy (some i) = if i == "" then none else some i

-- `const { validUntil, ...rest } = key; { ...rest, status: 'active', rotatedAt: new Date() }`.
abbrev pub reactivated_key : SecretKey → ℕ → SecretKey
reactivated_key k t = record k { status = active; valid_until = none; rotated_at = some t }

abbrev pub cannot_reactivate_missing : String → String → Error
cannot_reactivate_missing n i =
    staged_error ("Cannot reactivate: key not found: " <> n <> "/" <> i) activation false

abbrev pub cannot_reactivate : KeyStatus → String → String → Error
cannot_reactivate t n i =
    staged_error ("Cannot reactivate key in '" <> status_text t <> "' state: " <> n <> "/" <> i)
      activation false

abbrev pub new_entry :
    String → String → Option String → String → Option RotationSession → ℕ → RollbackEntry
new_entry id name previous new_key_id session started = record {
  id = id;
  secret_name = name;
  previous_active_key_id = previous;
  new_key_id = new_key_id;
  session = session;
  started_at = started;
  completed = false;
  error = none;
}

-- `this.entries.push(entry)`, and the trim to `maxEntries`.
unfoldable pub push_entry : ℕ → List RollbackEntry → RollbackEntry → List RollbackEntry
push_entry max_entries entries entry =
    let all = entries ++ entry ∷ [] in
    if ltb max_entries (length all) then slice_last max_entries all else all

abbrev pub complete_entry : String → List RollbackEntry → List RollbackEntry
complete_entry id [] = []
complete_entry id (e ∷ es) =
    let rest = complete_entry id es in
    if e.id == id then record e { completed = true } ∷ es else e ∷ rest

unfoldable pub get_entry : List RollbackEntry → String → Option RollbackEntry
get_entry entries id = find (λ e. e.id == id) entries

module _ {S O Ratio : Type 0} (ks : KeyStore S) (env : Env O Ratio) where
  unfoldable pub start_rotation :
      ℕ → String → String → Option String → Option RotationSession → Eff (World S O) RollbackEntry
  start_rotation max_entries name new_key_id previous session w =
      (do
        suffix ← random_suffix env
        started ← now env
        let entry = new_entry ("rb-" <> suffix) name previous new_key_id session started
        λ u. returned entry (record u { entries = push_entry max_entries u.entries entry }))
        w

  unfoldable pub mark_complete : String → Eff (World S O) (Unit {0})
  mark_complete id w = returned tt (record w { entries = complete_entry id w.entries })

  reactivate_found : Option SecretKey → String → String → Eff (World S O) (Unit {0})
  reactivate_found none n i w = thrown (cannot_reactivate_missing n i) w
  reactivate_found (some key) n i w =
      if is_revoked key.status || is_failed key.status
      then thrown (cannot_reactivate key.status n i) w
      else (do t ← now env; in_store (ks.update (reactivated_key key t))) w

  unfoldable pub reactivate_key : String → String → Eff (World S O) (Unit {0})
  unfolding reactivate_found
  reactivate_key n i w = reactivate_found (ks.get w.store n i) n i w

  -- "cancel rotation failed (non-fatal)".
  unfoldable pub cancel_session : Option RotationSession → Eff (World S O) (Unit {0})
  cancel_session none = pure tt
  cancel_session (some session) =
      try_catch (in_outside (env.cancel_rotation session)) (λ e. pure tt)

  -- "mark failed skipped (non-fatal)".
  unfoldable pub try_mark_failed : String → String → String → Eff (World S O) (Unit {0})
  try_mark_failed n i error =
      try_catch (do t ← now env; in_store (mark_failed ks n i error t); pure tt) (λ e. pure tt)

  -- Whether reactivating the previous key failed.
  unfoldable pub try_reactivate : String → Option String → Eff (World S O) Bool
  unfolding reactivate_key
  try_reactivate n none = pure false
  try_reactivate n (some i) = try_catch (do reactivate_key n i; pure false) (λ e. pure true)

  -- The outer `catch` of the method has nothing to catch: each step handles its own errors.
  unfoldable pub rollback : RollbackEntry → String → Eff (World S O) RollbackResult
  unfolding cancel_session try_mark_failed try_reactivate
  rollback entry error = do
    start ← now env
    cancel_session entry.session
    try_mark_failed entry.secret_name entry.new_key_id error
    reactivation_failed ← try_reactivate entry.secret_name (truthy entry.previous_active_key_id)
    finish ← now env
    pure (
        if reactivation_failed
        then record {
          success = false;
          entry = record entry { error = some "Reactivation of previous key failed" };
          duration = sub_ℕ finish start;
        }
        else record { success = true; entry = entry; duration = sub_ℕ finish start })

  unfoldable pub rollback_simple :
      ℕ
      → String
      → String
      → Option String
      → Option RotationSession
      → String
      → Eff (World S O) RollbackResult
  unfolding start_rotation rollback
  rollback_simple max_entries name new_key_id previous session error = do
    entry ← start_rotation max_entries name new_key_id previous session
    rollback entry error
