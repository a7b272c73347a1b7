-- ===== src/Lifecycle/Writes.antt =====
-- What each method of the lifecycle manager returns and writes, on every branch.
use secret_rotation_kit.Prelude.{
  ℕ, ◌≡◌, refl, sym, ◌≢◌, subst₂, inl, inr, ◌&&◌, ◌||◌, not, Option, none, some, String, ◌==◌,
  string_eq, if◌then◌else◌, arith, Bool-cases, beq_of_eq, eq_of_beq,
}
use secret_rotation_kit.Effect.{returned, thrown}
use secret_rotation_kit.Types.{
  SecretKey, is_pending, is_active, is_revoked, is_failed, key_not_found,
}
use secret_rotation_kit.KeyStore.{KeyStore, KeyStoreLaws}
use secret_rotation_kit.Lifecycle.{
  RevokeReason, activate, expire, revoke, mark_failed, expire_current, superseded_key,
  activated_key, expired_key, revoked_key, failed_key, cannot_activate, cannot_expire,
}

module _ {S : Type 0} (ks : KeyStore S) where
  -- The store once the active key, if there is one, has been superseded.
  abbrev pub superseded : S → Option SecretKey → Option ℕ → ℕ → S
  superseded s none overlap now = s
  superseded s (some current) overlap now = ks.save (superseded_key current overlap now) s

  -- The store that a successful activation leaves.
  abbrev pub activated_store : S → String → SecretKey → Option ℕ → ℕ → ℕ → S
  activated_store s n k overlap t₁ t₂ =
      ks.save (activated_key k t₂) (superseded s (ks.get_active s n) overlap t₁)

module _ {S : Type 0} (ks : KeyStore S) {Valid : S → Type 0} (laws : KeyStoreLaws ks Valid) where
  -- A read after a write, within the secret that was written.
  pub get-save :
      (k : SecretKey) (s : S) (n j : String)
      → k.secret_name ≡ n
      → ks.get (ks.save k s) n j ≡ (if k.key_id == j then some k else ks.get s n j)
  get-save k s n j e = rw (laws.get_saved k s n j, beq_of_eq k.secret_name n e) refl

  pub get-save_self :
      (k : SecretKey) (s : S) (n j : String)
      → k.secret_name ≡ n
      → k.key_id ≡ j
      → ks.get (ks.save k s) n j ≡ some k
  get-save_self k s n j e f = rw (get-save k s n j e, beq_of_eq k.key_id j f) refl

  pub get-save_ne :
      (k : SecretKey) (s : S) (n j : String)
      → k.secret_name ≡ n
      → k.key_id ≢ j
      → ks.get (ks.save k s) n j ≡ ks.get s n j
  get-save_ne k s n j e ne = elim (Bool-cases (k.key_id == j)) [
    | inl q ↦ absurd (ne (eq_of_beq k.key_id j q))
    | inr q ↦ rw (get-save k s n j e, q) refl
  ]

  -- A write does not touch the other secrets.
  pub get-save_other :
      (k : SecretKey) (s : S) (m j : String)
      → k.secret_name ≢ m
      → ks.get (ks.save k s) m j ≡ ks.get s m j
  get-save_other k s m j ne = elim (Bool-cases (k.secret_name == m)) [
    | inl e ↦ absurd (ne (eq_of_beq k.secret_name m e))
    | inr e ↦ rw (laws.get_saved k s m j, e) refl
  ]

  pub own_names :
      (s : S) (n i : String) (k : SecretKey)
      → Valid s
      → ks.get s n i ≡ some k
      → ks.get s k.secret_name k.key_id ≡ some k
  own_names s n i k v h =
      let (a, b) = laws.filed s n i v h in subst₂ (λ x y. ks.get s x y ≡ some k) (sym a) (sym b) h

  pub expire_lem :
      (s : S) (n i : String) (now : ℕ) (k : SecretKey)
      → Valid s
      → ks.get s n i ≡ some k
      → expire ks n i now s ≡ (
          if not (is_active k.status) && not (is_pending k.status)
          then thrown (cannot_expire k.status) s
          else returned (expired_key k now) (ks.save (expired_key k now) s))
  unfolding expire
  expire_lem s n i now k v h =
      ground (arith, h, laws.update_found (expired_key k now) s (own_names s n i k v h))

  pub revoke_lem :
      (s : S) (n i : String) (reason : RevokeReason) (t₁ t₂ : ℕ) (k : SecretKey)
      → Valid s
      → ks.get s n i ≡ some k
      → revoke ks n i reason t₁ t₂ s ≡ (
          if is_revoked k.status
          then returned k s
          else returned (revoked_key k reason t₁ t₂) (ks.save (revoked_key k reason t₁ t₂) s))
  unfolding revoke
  revoke_lem s n i reason t₁ t₂ k v h =
      ground (arith, h, laws.update_found (revoked_key k reason t₁ t₂) s (own_names s n i k v h))

  pub mark_failed_lem :
      (s : S) (n i error : String) (now : ℕ) (k : SecretKey)
      → Valid s
      → ks.get s n i ≡ some k
      → mark_failed ks n i error now s ≡ (
          if is_failed k.status || is_revoked k.status
          then returned k s
          else returned (failed_key k error now) (ks.save (failed_key k error now) s))
  unfolding mark_failed
  mark_failed_lem s n i error now k v h =
      ground (arith, h, laws.update_found (failed_key k error now) s (own_names s n i k v h))

  expire_current_lem :
      (s : S) (n : String) (o : Option SecretKey) (overlap : Option ℕ) (now : ℕ)
      → Valid s
      → ks.get_active s n ≡ o
      → expire_current ks o overlap now s ≡ returned tt (superseded ks s o overlap now)
  unfolding expire_current
  expire_current_lem s n none overlap now v h = refl
  expire_current_lem s n (some c) overlap now v h =
      laws.update_found (superseded_key c overlap now) s
        (own_names s n c.key_id c v (laws.active_found s n v h).0)

  pub superseded_valid :
      (s : S) (o : Option SecretKey) (overlap : Option ℕ) (now : ℕ)
      → Valid s
      → Valid (superseded ks s o overlap now)
  superseded_valid s none overlap now v = v
  superseded_valid s (some c) overlap now v = laws.saved_valid _ s v

  -- A key that stands in the store stands there after any write, perhaps rewritten.
  save_keeps :
      (k : SecretKey) (s : S) (n i : String) {old : SecretKey}
      → ks.get s n i ≡ some old
      → (x : SecretKey) × (ks.get (ks.save k s) n i ≡ some x)
  save_keeps k s n i {old} h = elim (Bool-cases (k.secret_name == n && k.key_id == i)) [
    | inl e ↦ (k, rw (laws.get_saved k s n i, e) refl)
    | inr e ↦ (old, rw (laws.get_saved k s n i, e) h)
  ]

  superseded_keeps :
      (s : S) (o : Option SecretKey) (overlap : Option ℕ) (now : ℕ) (n i : String) {old : SecretKey}
      → ks.get s n i ≡ some old
      → (x : SecretKey) × (ks.get (superseded ks s o overlap now) n i ≡ some x)
  superseded_keeps s none overlap now n i {old} h = (old, h)
  superseded_keeps s (some c) overlap now n i h = save_keeps _ s n i h

  pub activated_valid :
      (s : S) (n : String) (k : SecretKey) (overlap : Option ℕ) (t₁ t₂ : ℕ)
      → Valid s
      → Valid (activated_store ks s n k overlap t₁ t₂)
  activated_valid s n k overlap t₁ t₂ v =
      laws.saved_valid _ _ (superseded_valid s (ks.get_active s n) overlap t₁ v)

  pub activate_lem :
      (s : S) (n i : String) (overlap : Option ℕ) (t₁ t₂ : ℕ) (k : SecretKey)
      → Valid s
      → ks.get s n i ≡ some k
      → activate ks n i overlap t₁ t₂ s ≡ (
          if is_pending k.status
          then returned (activated_key k t₂) (activated_store ks s n k overlap t₁ t₂)
          else thrown (cannot_activate k.status) s)
  unfolding activate
  activate_lem s n i overlap t₁ t₂ k v h =
      let (x, e) =
        superseded_keeps s (ks.get_active s n) overlap t₁ k.secret_name k.key_id
          (own_names s n i k v h) in
      ground (
        arith,
        h,
        expire_current_lem s n (ks.get_active s n) overlap t₁ v refl,
        laws.update_found (activated_key k t₂) (superseded ks s (ks.get_active s n) overlap t₁) e,
      )

  pub activate_missing :
      (s : S) (n i : String) (overlap : Option ℕ) (t₁ t₂ : ℕ)
      → ks.get s n i ≡ none
      → activate ks n i overlap t₁ t₂ s ≡ thrown (key_not_found n i) s
  unfolding activate
  activate_missing s n i overlap t₁ t₂ h = rw (h, activate) refl

  pub expire_missing :
      (s : S) (n i : String) (now : ℕ)
      → ks.get s n i ≡ none
      → expire ks n i now s ≡ thrown (key_not_found n i) s
  unfolding expire
  expire_missing s n i now h = rw (h, expire) refl

  pub revoke_missing :
      (s : S) (n i : String) (reason : RevokeReason) (t₁ t₂ : ℕ)
      → ks.get s n i ≡ none
      → revoke ks n i reason t₁ t₂ s ≡ thrown (key_not_found n i) s
  unfolding revoke
  revoke_missing s n i reason t₁ t₂ h = rw (h, revoke) refl

  pub mark_failed_missing :
      (s : S) (n i error : String) (now : ℕ)
      → ks.get s n i ≡ none
      → mark_failed ks n i error now s ≡ thrown (key_not_found n i) s
  unfolding mark_failed
  mark_failed_missing s n i error now h = rw (h, mark_failed) refl
