-- ===== src/Windows.antt =====
-- packages/core/src/key-window-manager.ts. `clock n` is what the n-th place of a call that reads the
-- clock reads there. Logging is left out.
pub mod Selection
pub mod Revocation
use secret_rotation_kit.Prelude.{
  ℕ, zero, suc, ◌+◌, ◌-◌, Bool, true, false, not, ◌&&◌, ◌||◌, Option, none, some, List, [], ◌∷◌,
  String, ◌==◌, string_eq, if◌then◌else◌, filter, find, head?, length, take, leb, ltb, nat_beq, map,
}
use secret_rotation_kit.Sort.{sort}
use secret_rotation_kit.Effect.{Eff, returned, thrown, ◌>>=◌, ◌>>◌, pure}
use secret_rotation_kit.Types.{
  SecretKey, KeyStatus, active, expired, revoked, is_active, is_pending, is_expired, key_not_found,
}
use secret_rotation_kit.KeyStore.{KeyStore}

-- `maxValidKeys` has a default, so that it is always given.
pub record KeyWindowConfig : Type 0 where
  pub overlap_period_ms : ℕ
  pub grace_period_ms : ℕ
  pub max_valid_keys : ℕ

abbrev pub default_config : KeyWindowConfig
default_config = record {
  overlap_period_ms = 300000;
  grace_period_ms = 3600000;
  max_valid_keys = 3;
}

-- `{ ...key, status: 'revoked', revokedAt: new Date() }`.
abbrev pub closed_key : SecretKey → ℕ → SecretKey
closed_key k now = record k { status = revoked; revoked_at = some now }

abbrev pub overlapping_key : SecretKey → ℕ → ℕ → SecretKey
overlapping_key k overlap now = record k { status = expired; valid_until = some (now + overlap) }

abbrev pub window_key : SecretKey → ℕ → SecretKey
window_key k now = record k { status = active; rotated_at = some now }

-- `!key.validUntil || key.validUntil.getTime() + gracePeriodMs < now.getTime()`.
abbrev pub grace_over : KeyWindowConfig → ℕ → Option ℕ → Bool
grace_over c now none = true
grace_over c now (some t) = ltb (t + c.grace_period_ms) now

-- An expired key past its grace period.
abbrev pub is_due : KeyWindowConfig → ℕ → SecretKey → Bool
is_due c now k = is_expired k.status && grace_over c now k.valid_until

abbrev pub oldest_first : SecretKey → SecretKey → Bool
oldest_first a b = leb a.created_at b.created_at

abbrev pub counts_as_valid : SecretKey → Bool
counts_as_valid k = is_active k.status || is_pending k.status || is_expired k.status

-- The keys that `enforceMaxValidKeys` revokes.
unfoldable pub excess_of : ℕ → List SecretKey → List SecretKey
excess_of zero all_keys = []
excess_of (suc m) all_keys =
    let non_revoked = filter counts_as_valid all_keys in
    if leb (length non_revoked) (suc m)
    then []
    else take (length non_revoked - suc m)
        (sort oldest_first (filter (λ k. is_expired k.status) non_revoked))

abbrev pub select_in : List SecretKey → Option SecretKey → Option SecretKey → Option SecretKey
select_in valid (some k) o = some k
select_in valid none (some k) = some k
select_in valid none none = head? valid

module _ {S : Type 0} (ks : KeyStore S) (clock : ℕ → ℕ) where
  -- The body of both loops; the n-th reading of the clock goes to the first key.
  unfoldable pub revoke_each : ℕ → List SecretKey → Eff S (Unit {0})
  revoke_each n [] = pure tt
  revoke_each n (k ∷ rest) = do ks.update (closed_key k (clock n)); revoke_each (suc n) rest

  unfoldable pub enforce_max_valid_keys : KeyWindowConfig → String → ℕ → Eff S (Unit {0})
  enforce_max_valid_keys c name n s = revoke_each n (excess_of c.max_valid_keys (ks.list s name)) s

  unfoldable pub expire_previous : KeyWindowConfig → Option SecretKey → String → Eff S (Unit {0})
  expire_previous c none id = pure tt
  expire_previous c (some previous) id =
      if not (previous.key_id == id)
      then ks.update (overlapping_key previous c.overlap_period_ms (clock 0))
      else pure tt

  activate_found : KeyWindowConfig → Option SecretKey → String → String → Eff S SecretKey
  activate_found c none name id s = thrown (key_not_found name id) s
  activate_found c (some new_key) name id s =
      (do
        expire_previous c (ks.get_active s name) id
        ks.update (window_key new_key (clock 1))
        enforce_max_valid_keys c name 2
        pure (window_key new_key (clock 1)))
        s

  -- There is no test of the new key's status.
  unfoldable pub activate : KeyWindowConfig → String → String → Eff S SecretKey
  unfolding activate_found
  activate c name id s = activate_found c (ks.get s name id) name id s

  -- The list is read before the first write, so that the keys to revoke are known then.
  unfoldable pub cleanup_expired : KeyWindowConfig → String → Eff S (List String)
  cleanup_expired c name s =
      let due = filter (is_due c (clock 0)) (ks.list s name) in
      (do revoke_each 1 due; pure (map (λ k. k.key_id) due)) s

module _ {S : Type 0} (ks : KeyStore S) where
  unfoldable pub select_key : S → String → ℕ → Option SecretKey
  select_key s name at =
      let valid = ks.get_valid s name at in
      select_in valid (find (λ k. is_active k.status) valid) (find (λ k. is_expired k.status) valid)
