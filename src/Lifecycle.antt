-- ===== src/Lifecycle.antt =====
-- packages/core/src/key-lifecycle-manager.ts, over any key store. Each reading of the clock is an
-- argument of its own, in the order of the readings, and so is a generated id. Logging is left out.
pub mod Writes
pub mod Handover
pub mod Machine
use secret_rotation_kit.Prelude.{
  ℕ, ◌+◌, ◌<>◌, Bool, true, false, ◌&&◌, ◌||◌, not, Option, none, some, List, [], ◌∷◌, String,
  nat_beq, if◌then◌else◌, filter, find, length,
}
use secret_rotation_kit.Effect.{
  Error, plain_error, Outcome, Eff, returned, thrown, ◌>>=◌, ◌>>◌, pure, throw, after,
}
use secret_rotation_kit.Types.{
  KeyStatus, KeyFormat, Metadata, SecretKey, RotationState, pending, active, expired, revoked,
  failed, is_pending, is_active, is_expired, is_revoked, is_failed, status_text, text, time, status,
  spread, with_entry, key_not_found,
}
use secret_rotation_kit.KeyStore.{KeyStore}

pub record CreateKeyOptions : Type 0 where
  pub secret_name : String
  pub encrypted_material : String
  pub format : KeyFormat
  pub valid_until : Option ℕ
  pub metadata : Option Metadata

pub data RevokeReason : Type 0 where
  rotation_complete manual_revocation compromised expiry failed_rotation : RevokeReason

abbrev pub reason_text : RevokeReason → String
reason_text rotation_complete = "rotation_complete"
reason_text manual_revocation = "manual_revocation"
reason_text compromised = "compromised"
reason_text expiry = "expired"
reason_text failed_rotation = "failed_rotation"

abbrev pub cannot_activate : KeyStatus → Error
cannot_activate t =
    plain_error ("Cannot activate key in '" <> status_text t <> "' state (must be 'pending')")

abbrev pub cannot_expire : KeyStatus → Error
cannot_expire t = plain_error ("Cannot expire key in '" <> status_text t <> "' state")

-- `overlapPeriodMs ? Date.now() + overlapPeriodMs : Date.now()`: no overlap where it is 0 or absent.
abbrev pub window_end : Option ℕ → ℕ → ℕ
window_end none now = now
window_end (some overlap) now = if nat_beq overlap 0 then now else now + overlap

-- The keys that the methods write.
abbrev pub created_key : CreateKeyOptions → String → ℕ → SecretKey
created_key o id now = record {
  key_id = id;
  secret_name = o.secret_name;
  encrypted_material = o.encrypted_material;
  format = o.format;
  valid_from = now;
  valid_until = o.valid_until;
  status = pending;
  created_at = now;
  rotated_at = none;
  revoked_at = none;
  metadata = o.metadata;
}

abbrev pub superseded_key : SecretKey → Option ℕ → ℕ → SecretKey
superseded_key k overlap now = record k {
  status = expired;
  valid_until = some (window_end overlap now);
}

abbrev pub activated_key : SecretKey → ℕ → SecretKey
activated_key k now = record k { status = active; rotated_at = some now }

abbrev pub expired_key : SecretKey → ℕ → SecretKey
expired_key k now = record k { status = expired; valid_until = some now }

abbrev pub revoked_key : SecretKey → RevokeReason → ℕ → ℕ → SecretKey
revoked_key k reason t₁ t₂ = record k {
  status = revoked;
  revoked_at = some t₁;
  valid_until = some t₂;
  metadata = some (with_entry (spread k.metadata) "revokeReason" (text (reason_text reason)));
}

abbrev pub failed_key : SecretKey → String → ℕ → SecretKey
failed_key k error now = record k {
  status = failed;
  metadata = some (
      with_entry
        (with_entry (with_entry (spread k.metadata) "failureReason" (text error)) "failedAt"
          (time now))
        "previousStatus" (status k.status));
}

module _ {S : Type 0} (ks : KeyStore S) where
  unfoldable pub create : CreateKeyOptions → String → ℕ → Eff S SecretKey
  create o id now s = let key = created_key o id now in returned key (ks.save key s)

  -- "Move current active key to expired".
  unfoldable pub expire_current : Option SecretKey → Option ℕ → ℕ → Eff S (Unit {0})
  expire_current none overlap now = pure tt
  expire_current (some current) overlap now = ks.update (superseded_key current overlap now)

  activate_found : Option SecretKey → String → String → Option ℕ → ℕ → ℕ → Eff S SecretKey
  unfolding expire_current
  activate_found none name id overlap t₁ t₂ s = thrown (key_not_found name id) s
  activate_found (some key) name id overlap t₁ t₂ s =
      if is_pending key.status
      then (do
        expire_current (ks.get_active s name) overlap t₁
        ks.update (activated_key key t₂)
        pure (activated_key key t₂))
          s
      else thrown (cannot_activate key.status) s

  unfoldable pub activate : String → String → Option ℕ → ℕ → ℕ → Eff S SecretKey
  unfolding activate_found
  activate name id overlap t₁ t₂ s = activate_found (ks.get s name id) name id overlap t₁ t₂ s

  expire_found : Option SecretKey → String → String → ℕ → Eff S SecretKey
  expire_found none name id now s = thrown (key_not_found name id) s
  expire_found (some key) name id now s =
      if not (is_active key.status) && not (is_pending key.status)
      then thrown (cannot_expire key.status) s
      else (do ks.update (expired_key key now); pure (expired_key key now)) s

  unfoldable pub expire : String → String → ℕ → Eff S SecretKey
  unfolding expire_found
  expire name id now s = expire_found (ks.get s name id) name id now s

  revoke_found : Option SecretKey → String → String → RevokeReason → ℕ → ℕ → Eff S SecretKey
  revoke_found none name id reason t₁ t₂ s = thrown (key_not_found name id) s
  revoke_found (some key) name id reason t₁ t₂ s =
      if is_revoked key.status
      then returned key s
      else (do ks.update (revoked_key key reason t₁ t₂); pure (revoked_key key reason t₁ t₂)) s

  unfoldable pub revoke : String → String → RevokeReason → ℕ → ℕ → Eff S SecretKey
  unfolding revoke_found
  revoke name id reason t₁ t₂ s = revoke_found (ks.get s name id) name id reason t₁ t₂ s

  mark_failed_found : Option SecretKey → String → String → String → ℕ → Eff S SecretKey
  mark_failed_found none name id error now s = thrown (key_not_found name id) s
  mark_failed_found (some key) name id error now s =
      if is_failed key.status || is_revoked key.status
      then returned key s
      else (do ks.update (failed_key key error now); pure (failed_key key error now)) s

  unfoldable pub mark_failed : String → String → String → ℕ → Eff S SecretKey
  unfolding mark_failed_found
  mark_failed name id error now s = mark_failed_found (ks.get s name id) name id error now s

-- `activeKey?.rotatedAt`.
abbrev pub rotation_time : Option SecretKey → Option ℕ
rotation_time none = none
rotation_time (some k) = k.rotated_at

abbrev pub was_rotated : Option ℕ → Bool
was_rotated none = false
was_rotated (some t) = true

unfoldable pub state_of : String → List SecretKey → RotationState
state_of name all_keys = record {
  secret_name = name;
  active_key = find (λ k. is_active k.status) all_keys;
  pending_keys = filter (λ k. is_pending k.status) all_keys;
  expired_keys = filter (λ k. is_expired k.status) all_keys;
  revoked_keys = filter (λ k. is_revoked k.status) all_keys;
  failed_keys = filter (λ k. is_failed k.status) all_keys;
  last_rotation_at = rotation_time (find (λ k. is_active k.status) all_keys);
  rotation_count = length (filter (λ k. was_rotated k.rotated_at) all_keys);
}

module _ {S : Type 0} (ks : KeyStore S) where
  unfoldable pub get_state : S → String → RotationState
  unfolding state_of
  get_state s name = state_of name (ks.list s name)
