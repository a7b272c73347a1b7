-- ===== src/Lifecycle/Machine.antt =====
-- The lifecycle as a state machine: what any call may do to a stored key, and what holds after any
-- sequence of calls.
pub mod Steps
pub mod Moves
pub mod Traces
use secret_rotation_kit.Prelude.{
  of_some, ◌+◌, true, false, not, ◌&&◌, ◌||◌, ℕ, ◌≡◌, refl, sym, ap, ◌∙◌, ◌≢◌, ◌⊎◌, subst, inl, inr,
  Option, none, some, String, ◌==◌, string_eq, arith, Bool-cases, Option-cases, eq_of_beq,
  beq_of_eq, and-true, subst₂,
}
use secret_rotation_kit.Effect.{Error, Outcome, Eff, returned, thrown, after}
use secret_rotation_kit.Types.{
  KeyStatus, Metadata, SecretKey, pending, active, expired, revoked, failed, is_pending, is_active,
  is_revoked, is_failed,
}
use secret_rotation_kit.KeyStore.{KeyStore, KeyStoreLaws}
use secret_rotation_kit.Lifecycle.{
  CreateKeyOptions, RevokeReason, created_key, create, activate, expire, revoke, mark_failed,
  expired_key, activated_key, superseded_key, revoked_key, failed_key, cannot_activate,
  cannot_expire,
}
use secret_rotation_kit.Lifecycle.Writes.{
  get-save, get-save_other, own_names, expire_missing, revoke_missing, mark_failed_missing,
  activate_missing, activate_lem, expire_lem, revoke_lem, mark_failed_lem, superseded,
  activated_valid,
}
use secret_rotation_kit.Lifecycle.Handover.{overlap_or_zero, window_end_lem}

pub data Call : Type 0 where
  creates : CreateKeyOptions → String → ℕ → Call
  activates : String → String → Option ℕ → ℕ → ℕ → Call
  expires : String → String → ℕ → Call
  revokes : String → String → RevokeReason → ℕ → ℕ → Call
  marks_failed : String → String → String → ℕ → Call

module _ {S : Type 0} (ks : KeyStore S) where
  unfoldable pub perform : Call → Eff S SecretKey
  perform (creates o id now) = create ks o id now
  perform (activates n i overlap t₁ t₂) = activate ks n i overlap t₁ t₂
  perform (expires n i now) = expire ks n i now
  perform (revokes n i reason t₁ t₂) = revoke ks n i reason t₁ t₂
  perform (marks_failed n i error now) = mark_failed ks n i error now

  -- A generated id is new for its secret.
  abbrev pub IsFresh : S → Call → Type 0
  IsFresh s (creates o id now) = ks.get s o.secret_name id ≡ none
  IsFresh s _ = Unit

  -- The key that a call names is not in a status that it can start from, or is not there.
  abbrev pub Refuses : S → Call → Type 0
  Refuses s (creates o id now) = ⊥
  Refuses s (activates n i overlap t₁ t₂) =
      (k : SecretKey) → ks.get s n i ≡ some k → k.status ≢ pending
  Refuses s (expires n i now) =
      (k : SecretKey) → ks.get s n i ≡ some k → (k.status ≢ pending) × (k.status ≢ active)
  Refuses s (revokes n i reason t₁ t₂) =
      (k : SecretKey) → ks.get s n i ≡ some k → k.status ≡ revoked
  Refuses s (marks_failed n i error now) =
      (k : SecretKey) → ks.get s n i ≡ some k → (k.status ≡ failed) ⊎ (k.status ≡ revoked)

  -- The active key, if there is one, is expired, and valid for the overlap.
  abbrev pub handed : Option SecretKey → Option ℕ → ℕ → S → S
  handed none overlap now s = s
  handed (some c) overlap now s =
      ks.save (record c { status = expired; valid_until = some (now + overlap_or_zero overlap) }) s

  -- What a call does to the store. Revoking and failing write metadata as well.
  pub data Change (s : S) : Call → S → Type 0 where
    refused : {c : Call} → Refuses s c → Change s c s
    adds :
        (o : CreateKeyOptions) (id : String) (now : ℕ)
        → Change s (creates o id now) (
            ks.save
              (record {
                key_id = id;
                secret_name = o.secret_name;
                encrypted_material = o.encrypted_material;
                format = o.format;
                valid_from = now;
                valid_until = o.valid_until;
                status = pending;
                created_at = now;
                rotated_at = none;
                revoked_at = none;
                metadata = o.metadata;
              })
              s)
    ends :
        (n i : String) (now : ℕ) (k : SecretKey)
        → ks.get s n i ≡ some k
        → (k.status ≡ pending) ⊎ (k.status ≡ active)
        → Change s
            (expires n i now)
            (ks.save (record k { status = expired; valid_until = some now }) s)
    takes_back :
        (n i : String) (reason : RevokeReason) (t₁ t₂ : ℕ) (k : SecretKey) (m : Option Metadata)
        → ks.get s n i ≡ some k
        → k.status ≢ revoked
        → Change s (revokes n i reason t₁ t₂) (
            ks.save
              (record k {
                status = revoked;
                revoked_at = some t₁;
                valid_until = some t₂;
                metadata = m;
              })
              s)
    gives_up :
        (n i error : String) (now : ℕ) (k : SecretKey) (m : Option Metadata)
        → ks.get s n i ≡ some k
        → k.status ≢ revoked
        → k.status ≢ failed
        → Change s
            (marks_failed n i error now)
            (ks.save (record k { status = failed; metadata = m }) s)
    hands_on :
        (n i : String) (k : SecretKey) (overlap : Option ℕ) (t₁ t₂ : ℕ)
        → ks.get s n i ≡ some k
        → k.status ≡ pending
        → Change s (activates n i overlap t₁ t₂) (
            ks.save
              (record k { status = active; rotated_at = some t₂ })
              (handed (ks.get_active s n) overlap t₁ s))

  -- A sequence of calls, thrown errors included.
  pub data Reach (s : S) : S → Type 0 where
    here : Reach s s
    next : {t : S} → Reach s t → (c : Call) → IsFresh t c → Reach s (after (perform c t))

startable :
    (t : KeyStatus)
    → (not (is_active t) && not (is_pending t)) ≡ false
    → (t ≡ pending) ⊎ (t ≡ active)
startable pending e = inl refl
startable active e = inr refl
startable _ e = absurd (cc)

dead_or : (t : KeyStatus) → (is_failed t || is_revoked t) ≡ true → (t ≡ failed) ⊎ (t ≡ revoked)
dead_or failed e = inl refl
dead_or revoked e = inr refl
dead_or _ e = absurd (cc)

pending_of : (t : KeyStatus) → is_pending t ≡ true → t ≡ pending
pending_of t h = ground arith

module _ {S : Type 0} (ks : KeyStore S) {Valid : S → Type 0} (laws : KeyStoreLaws ks Valid) where
  same_key :
      {s : S} {n i : String} {k l : SecretKey}
      → ks.get s n i ≡ some k
      → ks.get s n i ≡ some l
      → k ≡ l
  same_key g h = of_some (sym g ∙ h)

  pub handed-superseded :
      (o : Option SecretKey) (overlap : Option ℕ) (now : ℕ) (s : S)
      → superseded ks s o overlap now ≡ handed ks o overlap now s
  handed-superseded none overlap now s = refl
  handed-superseded (some c) overlap now s =
      ap (λ e. ks.save (record c { status = expired; valid_until = some e }) s)
        (window_end_lem overlap now)

  expire-Change :
      (s : S) (n i : String) (now : ℕ) (o : Option SecretKey)
      → Valid s
      → ks.get s n i ≡ o
      → Change ks s (expires n i now) (after (expire ks n i now s))
  expire-Change s n i now none v h =
      rw (expire_missing ks laws s n i now h) (refused (λ l g. absurd (cc)))
  expire-Change s n i now (some k) v h =
      rw (expire_lem ks laws s n i now k v h)
        (elim (Bool-cases (not (is_active k.status) && not (is_pending k.status))) [
          | inl e ↦ rw e (
              refused (λ l g.
                let q = ap (λ z. z.status) (same_key h g) in
                ((λ p. let r = q ∙ p in ground arith), (λ p. let r = q ∙ p in ground arith))))
          | inr e ↦ rw e (ends n i now k h (startable k.status e))
        ])

  revoke-Change :
      (s : S) (n i : String) (reason : RevokeReason) (t₁ t₂ : ℕ) (o : Option SecretKey)
      → Valid s
      → ks.get s n i ≡ o
      → Change ks s (Call.revokes n i reason t₁ t₂) (after (revoke ks n i reason t₁ t₂ s))
  revoke-Change s n i reason t₁ t₂ none v h =
      rw (revoke_missing ks laws s n i reason t₁ t₂ h) (refused (λ l g. absurd (cc)))
  revoke-Change s n i reason t₁ t₂ (some k) v h =
      rw (revoke_lem ks laws s n i reason t₁ t₂ k v h) (elim (Bool-cases (is_revoked k.status)) [
        | inl e ↦ rw e (refused (λ l g. let q = ap (λ z. z.status) (same_key h g) in ground arith))
        | inr e ↦ rw e (takes_back n i reason t₁ t₂ k _ h (λ q. cc (ap is_revoked q)))
      ])

  mark_failed-Change :
      (s : S) (n i error : String) (now : ℕ) (o : Option SecretKey)
      → Valid s
      → ks.get s n i ≡ o
      → Change ks s (marks_failed n i error now) (after (mark_failed ks n i error now s))
  mark_failed-Change s n i error now none v h =
      rw (mark_failed_missing ks laws s n i error now h) (refused (λ l g. absurd (cc)))
  mark_failed-Change s n i error now (some k) v h =
      rw (mark_failed_lem ks laws s n i error now k v h)
        (elim (Bool-cases (is_failed k.status || is_revoked k.status)) [
          | inl e ↦ rw e (
              refused (λ l g.
                subst (λ (z : SecretKey). (z.status ≡ failed) ⊎ (z.status ≡ revoked)) (same_key h g)
                  (dead_or k.status e)))
          | inr e ↦ rw e (gives_up n i error now k _ h (λ q. ground arith) (λ q. ground arith))
        ])

  activate-Change :
      (s : S) (n i : String) (overlap : Option ℕ) (t₁ t₂ : ℕ) (o : Option SecretKey)
      → Valid s
      → ks.get s n i ≡ o
      → Change ks s (activates n i overlap t₁ t₂) (after (activate ks n i overlap t₁ t₂ s))
  activate-Change s n i overlap t₁ t₂ none v h =
      rw (activate_missing ks laws s n i overlap t₁ t₂ h) (refused (λ l g. absurd (cc)))
  activate-Change s n i overlap t₁ t₂ (some k) v h =
      rw (activate_lem ks laws s n i overlap t₁ t₂ k v h) (elim (Bool-cases (is_pending k.status)) [
        | inl e ↦ rw e (
            subst (λ u. Change ks s (activates n i overlap t₁ t₂) (ks.save (activated_key k t₂) u))
              (sym (handed-superseded (ks.get_active s n) overlap t₁ s))
              (hands_on n i k overlap t₁ t₂ h (pending_of k.status e)))
        | inr e ↦
            rw e (refused (λ l g p. let q = ap (λ z. z.status) (same_key h g) ∙ p in ground arith))
      ])

  -- In a well filed store, a call on a key that is not there, or not in a status that the call can start
  -- from (pending for activate, pending or active for expire, all but revoked for revoke, all but failed
  -- and revoked for markFailed), changes nothing. Every other call writes just this: create, the new key,
  -- which is pending, with the fields of its options; expire, revoke and markFailed, the key that they
  -- name, as expired, revoked or failed, with the times that the call has read, and nothing else changed
  -- in it but metadata; activate, the key that was active as expired, valid for the overlap, and then the
  -- key that it names as active.
  pub perform-Change : (s : S) (c : Call) → Valid s → Change ks s c (after (perform ks c s))
  unfolding perform create
  perform-Change s (creates o id now) v = adds o id now
  perform-Change s (activates n i overlap t₁ t₂) v =
      activate-Change s n i overlap t₁ t₂ (ks.get s n i) v refl
  perform-Change s (expires n i now) v = expire-Change s n i now (ks.get s n i) v refl
  perform-Change s (Call.revokes n i reason t₁ t₂) v =
      revoke-Change s n i reason t₁ t₂ (ks.get s n i) v refl
  perform-Change s (marks_failed n i error now) v =
      mark_failed-Change s n i error now (ks.get s n i) v refl

  -- A call that throws on a well filed store leaves the store as it was.
  perform_thrown : (s t : S) (c : Call) (e : Error) → Valid s → perform ks c s ≡ thrown e t → t ≡ s
  unfolding perform create
  perform_thrown s t (creates o id now) e v h = absurd (cc)
  perform_thrown s t (activates n i overlap t₁ t₂) e v h = elim (Option-cases (ks.get s n i)) [
    | inl g ↦ cc (activate_missing ks laws s n i overlap t₁ t₂ g)
    | inr (k, g) ↦ ground (arith, activate_lem ks laws s n i overlap t₁ t₂ k v g)
  ]
  perform_thrown s t (expires n i now) e v h = elim (Option-cases (ks.get s n i)) [
    | inl g ↦ cc (expire_missing ks laws s n i now g)
    | inr (k, g) ↦ ground (arith, expire_lem ks laws s n i now k v g)
  ]
  perform_thrown s t (Call.revokes n i reason t₁ t₂) e v h = elim (Option-cases (ks.get s n i)) [
    | inl g ↦ cc (revoke_missing ks laws s n i reason t₁ t₂ g)
    | inr (k, g) ↦ ground (arith, revoke_lem ks laws s n i reason t₁ t₂ k v g)
  ]
  perform_thrown s t (marks_failed n i error now) e v h = elim (Option-cases (ks.get s n i)) [
    | inl g ↦ cc (mark_failed_missing ks laws s n i error now g)
    | inr (k, g) ↦ ground (arith, mark_failed_lem ks laws s n i error now k v g)
  ]
