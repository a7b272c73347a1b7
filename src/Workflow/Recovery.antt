-- ===== src/Workflow/Recovery.antt =====
-- The cleanup of a failed rotation, on the key store: the new key is marked as failed, and the key
-- that was active before is made active again.
use secret_rotation_kit.Prelude.{
  of_some, ℕ, ◌≡◌, refl, sym, ap, ◌∙◌, ◌≢◌, ◌⊎◌, inl, inr, Option, none, some, List, String, ◌==◌,
  string_eq, Bool-cases, beq_of_eq, eq_of_beq, false, ◌||◌,
}
use secret_rotation_kit.Effect.{returned}
use secret_rotation_kit.Types.{KeyStatus, SecretKey, active, failed, is_revoked, is_failed}
use secret_rotation_kit.KeyStore.{KeyStore, KeyStoreLaws}
use secret_rotation_kit.Lifecycle.{mark_failed, failed_key}
use secret_rotation_kit.Lifecycle.Writes.{get-save_self, get-save_ne, own_names, mark_failed_lem}
use secret_rotation_kit.Rollback.{reactivated_key, get_entry, new_entry}
use secret_rotation_kit.World.{Frame, RollbackEntry}

-- Neither revoked nor failed.
abbrev pub IsLive : KeyStatus → Type 0
IsLive t = (is_failed t || is_revoked t) ≡ false

module _ {S : Type 0} (ks : KeyStore S) (Valid : S → Type 0) (n i : String) where
  -- The key `i` of the secret `n` stands in the store and can be made active, and no other is active.
  pub record Restorable (s : S) : Type 0 where
    pub valid : Valid s
    pub kept : (p : SecretKey) × (ks.get s n i ≡ some p) × IsLive p.status
    pub only : (j : String) (x : SecretKey) → ks.get s n j ≡ some x → x.status ≡ active → j ≡ i

  -- The same but for a live key `j`, the new one, which may be active.
  pub record Contested (j : String) (s : S) : Type 0 where
    pub valid : Valid s
    pub kept : (p : SecretKey) × (ks.get s n i ≡ some p) × IsLive p.status
    pub new : (k : SecretKey) × (ks.get s n j ≡ some k) × IsLive k.status
    pub only :
        (l : String) (x : SecretKey) → ks.get s n l ≡ some x → x.status ≡ active → (l ≡ i) ⊎ (l ≡ j)
    pub apart : j ≢ i

  -- The key `i` is active, with no end to its validity, and it is the only active key of the secret.
  pub record Restored (s : S) : Type 0 where
    pub valid : Valid s
    pub back :
        (p : SecretKey) × (ks.get s n i ≡ some p) × (p.status ≡ active) × (p.valid_until ≡ none)
    pub only : (j : String) (x : SecretKey) → ks.get s n j ≡ some x → x.status ≡ active → j ≡ i

-- The previous key can be made active again, once the new key, if there is one, has been failed.
abbrev pub Candidate :
    {S : Type 0} → KeyStore S → (S → Type 0) → String → String → Option SecretKey → S → Type 0
Candidate ks Valid n i none s = Restorable ks Valid n i s
Candidate ks Valid n i (some k) s = Contested ks Valid n i k.key_id s

-- No attempt is recorded, or one is, for the new key and with no session.
abbrev pub Entered : String → String → Frame → List RollbackEntry → Type 0
Entered n i f es =
    (f.rollback_entry_id ≡ none)
    ⊎ ((k : SecretKey) × (id : String) × (started : ℕ) × (f.new_key ≡ some k)
        × (f.rollback_entry_id ≡ some id)
        × (get_entry es id ≡ some (new_entry id n (some i) k.key_id none started)))

module _ {S : Type 0} (ks : KeyStore S) {Valid : S → Type 0} (laws : KeyStoreLaws ks Valid)
    (n i : String) where
  -- Marking the new key as failed leaves the previous key the only candidate.
  pub fail_new :
      (j message : String) (t : ℕ) (s : S)
      → Contested ks Valid n i j s
      → (k : SecretKey) × (s' : S) × (mark_failed ks n j message t s ≡ returned k s')
        × Restorable ks Valid n i s'
  fail_new j message t s c =
      let (k, g, live) = c.new in
      (
        failed_key k message t,
        ks.save (failed_key k message t) s,
        rw (mark_failed_lem ks laws s n j message t k c.valid g, live) refl,
        failed_store k g,
      )
    where
      not_active : failed ≢ active
      not_active q = cc

      failed_store :
          (k : SecretKey)
          → ks.get s n j ≡ some k
          → Restorable ks Valid n i (ks.save (failed_key k message t) s)
      failed_store k g =
          let x = failed_key k message t in
          let (e, f) = laws.filed s n j c.valid g in
          let (p, gp, live) = c.kept in
          record {
            valid = laws.saved_valid x s c.valid;
            kept = (p, get-save_ne ks laws x s n i e (λ q. c.apart (sym f ∙ q)) ∙ gp, live);
            only = λ l y gy a. elim (Bool-cases (x.key_id == l)) [
              | inl q ↦
                  let h : some x ≡ some y =
                    sym (get-save_self ks laws x s n l e (eq_of_beq x.key_id l q)) ∙ gy in
                  absurd (not_active (ap (λ z. z.status) (of_some h) ∙ a))
              | inr q ↦
                  let ne : x.key_id ≢ l = λ d. cc (beq_of_eq x.key_id l d) in
                  elim (c.only l y (sym (get-save_ne ks laws x s n l e ne) ∙ gy) a) [
                    | inl d ↦ d
                    | inr d ↦ absurd (ne (f ∙ sym d))
                  ]
            ];
          }

  pub reactivate :
      (t : ℕ) (s : S) (p : SecretKey)
      → Restorable ks Valid n i s
      → ks.get s n i ≡ some p
      → (ks.update (reactivated_key p t) s ≡ returned tt (ks.save (reactivated_key p t) s))
        × Restored ks Valid n i (ks.save (reactivated_key p t) s)
  reactivate t s p r g =
      (laws.update_found (reactivated_key p t) s (own_names ks laws s n i p r.valid g), restored)
    where
      restored : Restored ks Valid n i (ks.save (reactivated_key p t) s)
      restored =
          let x = reactivated_key p t in
          let (e, f) = laws.filed s n i r.valid g in
          record {
            valid = laws.saved_valid x s r.valid;
            back = (x, get-save_self ks laws x s n i e f, refl, refl);
            only = λ l y gy a. elim (Bool-cases (x.key_id == l)) [
              | inl q ↦ sym (eq_of_beq x.key_id l q) ∙ f
              | inr q ↦
                  let ne : x.key_id ≢ l = λ d. cc (beq_of_eq x.key_id l d) in
                  r.only l y (sym (get-save_ne ks laws x s n l e ne) ∙ gy) a
            ];
          }
