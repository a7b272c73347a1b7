-- ===== src/Workflow/Stores.antt =====
-- The two stores that a rotation passes through: with the new key saved, and with it activated.
use secret_rotation_kit.Prelude.{
  of_some, ℕ, ◌+◌, ◌≡◌, refl, sym, ap, ◌∙◌, ◌≢◌, subst, inl, inr, Option, none, some, String, ◌==◌,
  string_eq, arith, Bool-cases, Option-cases, beq_of_eq, eq_of_beq,
}
use secret_rotation_kit.Types.{SecretKey, KeyStatus, active, expired, pending, is_pending}
use secret_rotation_kit.Effect.{returned}
use secret_rotation_kit.KeyStore.{KeyStore, KeyStoreLaws}
use secret_rotation_kit.Lifecycle.{activate, activated_key}
use secret_rotation_kit.Lifecycle.Writes.{
  get-save_self, get-save_ne, get-save_other, activated_store, activated_valid, activate_lem,
}
use secret_rotation_kit.Lifecycle.Handover.{SingleActive, HandsOver, hands_over, overlap_or_zero}
use secret_rotation_kit.Workflow.Recovery.{IsLive, Restorable, Contested}

-- What the workflow relies on when a rotation starts: the store is well filed, and `p` is the one
-- active key of the secret.
pub record Starts {S : Type 0} (ks : KeyStore S) (Valid : S → Type 0) (s : S) (n : String)
    (p : SecretKey) : Type 0 where
  pub valid : Valid s
  pub single : SingleActive ks s n
  pub current : ks.get_active s n ≡ some p

-- A generated key is pending, and new for its secret.
pub record IsNew {S : Type 0} (ks : KeyStore S) (s : S) (n : String) (k : SecretKey) : Type 0 where
  pub named : k.secret_name ≡ n
  pub waiting : k.status ≡ pending
  pub unused : ks.get s n k.key_id ≡ none

-- A finished rotation: `k` was new and is now the only active key of the secret, rotated at a reading of
-- the clock; `p` is kept as expired, and is valid until a reading of the clock and the overlap together;
-- all other keys are as before.
pub record Rotated {S : Type 0} (ks : KeyStore S) (s t : S) (n : String) (p k : SecretKey)
    (overlap : Option ℕ) (clock : ℕ → ℕ) : Type 0 where
  pub was_new : IsNew ks s n k
  pub new_active :
      (i : ℕ) × (ks.get t n k.key_id
        ≡ some (record k { status = active; rotated_at = some (clock i) }))
  pub only_active :
      (j : String) (x : SecretKey) → ks.get t n j ≡ some x → x.status ≡ active → j ≡ k.key_id
  pub old_kept :
      (i : ℕ) × (ks.get t n p.key_id
        ≡ some
            (record p { status = expired; valid_until = some (clock i + overlap_or_zero overlap) }))
  pub rest_kept : (j : String) → k.key_id ≢ j → p.key_id ≢ j → ks.get t n j ≡ ks.get s n j
  pub others_kept : (m j : String) → n ≢ m → ks.get t m j ≡ ks.get s m j

module _ {S : Type 0} (ks : KeyStore S) {Valid : S → Type 0} (laws : KeyStoreLaws ks Valid) (s : S)
    (n : String) (p : SecretKey) (start : Starts ks Valid s n p) where
  IsLive-of : (t : KeyStatus) → t ≡ active → IsLive t
  IsLive-of t e = ground arith

  IsLive-pending : (t : KeyStatus) → t ≡ pending → IsLive t
  IsLive-pending t e = ground arith

  p_found : ks.get s n p.key_id ≡ some p
  p_found = (laws.active_found s n start.valid start.current).0

  p_active : p.status ≡ active
  p_active = (laws.active_found s n start.valid start.current).1

  pub start-Restorable : Restorable ks Valid n p.key_id s
  start-Restorable = record {
    valid = start.valid;
    kept = (p, p_found, IsLive-of p.status p_active);
    only = λ j x g a. start.single j p.key_id x p g p_found a p_active;
  }

  module _ (k : SecretKey) (new : IsNew ks s n k) where
    apart : k.key_id ≢ p.key_id
    apart e =
        let q : ks.get s n p.key_id ≡ none = subst (λ j. ks.get s n j ≡ none) e new.unused in
        cc p_found

    saved_k : ks.get (ks.save k s) n k.key_id ≡ some k
    saved_k = get-save_self ks laws k s n k.key_id new.named refl

    saved_p : ks.get (ks.save k s) n p.key_id ≡ some p
    saved_p = get-save_ne ks laws k s n p.key_id new.named apart ∙ p_found

    only_p :
        (l : String) (x : SecretKey)
        → ks.get (ks.save k s) n l ≡ some x
        → x.status ≡ active
        → l ≡ p.key_id
    only_p l x g a = elim (Bool-cases (k.key_id == l)) [
      | inl q ↦
          let h : some k ≡ some x =
            sym (get-save_self ks laws k s n l new.named (eq_of_beq k.key_id l q)) ∙ g in
          absurd (not_pending (sym new.waiting ∙ ap (λ z. z.status) (of_some h) ∙ a))
      | inr q ↦
          let ne : k.key_id ≢ l = λ d. cc (beq_of_eq k.key_id l d) in
          start.single l p.key_id x p (sym (get-save_ne ks laws k s n l new.named ne) ∙ g) p_found a
            p_active
    ]
      where
        not_pending : pending ≢ active
        not_pending e = cc

    saved_single : SingleActive ks (ks.save k s) n
    saved_single i j x y gi gj ai aj = only_p i x gi ai ∙ sym (only_p j y gj aj)

    saved_valid : Valid (ks.save k s)
    saved_valid = laws.saved_valid k s start.valid

    pub saved-Contested : Contested ks Valid n p.key_id k.key_id (ks.save k s)
    saved-Contested = record {
      valid = saved_valid;
      kept = (p, saved_p, IsLive-of p.status p_active);
      new = (k, saved_k, IsLive-pending k.status new.waiting);
      only = λ l x g a. inl (only_p l x g a);
      apart = apart;
    }

    -- Saving the new key does not change which key is active.
    saved_active : ks.get_active (ks.save k s) n ≡ some p
    saved_active = elim (Option-cases (ks.get_active (ks.save k s) n)) [
      | inl e ↦ absurd (laws.active_missing (ks.save k s) n p.key_id saved_valid e saved_p p_active)
      | inr (c, e) ↦
          let (g, a) = laws.active_found (ks.save k s) n saved_valid e in
          e
          ∙ sym (subst (λ j. ks.get (ks.save k s) n j ≡ some c) (only_p c.key_id c g a) g)
          ∙ saved_p
    ]

    module _ (overlap : Option ℕ) (t₁ t₂ : ℕ) where
      pub activate_new :
          activate ks n k.key_id overlap t₁ t₂ (ks.save k s)
          ≡ returned (activated_key k t₂) (activated_store ks (ks.save k s) n k overlap t₁ t₂)
      activate_new =
          activate_lem ks laws (ks.save k s) n k.key_id overlap t₁ t₂ k saved_valid saved_k
          ∙ rw (ap is_pending new.waiting) refl

      handed :
          HandsOver ks
            (ks.save k s)
            (activated_store ks (ks.save k s) n k overlap t₁ t₂)
            n
            k
            overlap
            t₁
            t₂
      handed =
          hands_over ks laws (ks.save k s) n k.key_id overlap t₁ t₂ k saved_valid saved_k
            new.waiting saved_single

      pub activated-Contested :
          Contested ks Valid n p.key_id k.key_id
            (activated_store ks (ks.save k s) n k overlap t₁ t₂)
      activated-Contested = record {
        valid = activated_valid ks laws (ks.save k s) n k overlap t₁ t₂ saved_valid;
        kept = (
          record p { status = expired; valid_until = some (t₁ + overlap_or_zero overlap) },
          handed.old_kept p saved_active,
          refl,
        );
        new = (activated_key k t₂, handed.new_active, refl);
        only = λ l x g a. inr (handed.only_active l x g a);
        apart = apart;
      }

      pub activated-Rotated :
          (clock : ℕ → ℕ) (i j : ℕ)
          → clock i ≡ t₁
          → clock j ≡ t₂
          → Rotated ks s (activated_store ks (ks.save k s) n k overlap t₁ t₂) n p k overlap clock
      activated-Rotated clock i j e f = record {
        was_new = new;
        new_active = (j, rw f handed.new_active);
        only_active = handed.only_active;
        old_kept = (i, rw e (handed.old_kept p saved_active));
        rest_kept = λ j nk np.
            handed.rest_kept j nk
              (λ q e. subst (λ z. z.key_id ≢ j) (of_some (sym saved_active ∙ e)) np)
            ∙ get-save_ne ks laws k s n j new.named nk;
        others_kept = λ m j ne.
            handed.others_kept m j ne
            ∙ get-save_other ks laws k s m j (λ q. ne (sym new.named ∙ q));
      }
