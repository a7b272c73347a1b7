-- ===== src/Lifecycle/Handover.antt =====
-- Activation hands a secret over from one key to the next.
use secret_rotation_kit.Prelude.{
  ◌+◌, nat_beq, nat_beq_iff, ℕ, ◌≡◌, refl, sym, ap, ◌∙◌, ◌≢◌, subst, inl, inr, Option, none, some,
  String, ◌==◌, string_eq, if◌then◌else◌, arith, Bool-cases, beq_self, beq_of_eq, eq_of_beq,
}
use secret_rotation_kit.Effect.{returned}
use secret_rotation_kit.Types.{SecretKey, active, expired, pending, is_pending}
use secret_rotation_kit.KeyStore.{KeyStore, KeyStoreLaws}
use secret_rotation_kit.Lifecycle.{activate, window_end, superseded_key, activated_key}
use secret_rotation_kit.Lifecycle.Writes.{
  get-save, get-save_other, activate_lem, superseded, superseded_valid, activated_store,
}

-- At most one key of the secret is active.
abbrev pub SingleActive : {S : Type 0} → KeyStore S → S → String → Type 0
SingleActive ks s n =
    (i j : String) (k l : SecretKey)
    → ks.get s n i ≡ some k
    → ks.get s n j ≡ some l
    → k.status ≡ active
    → l.status ≡ active
    → i ≡ j

module _ {S : Type 0} (ks : KeyStore S) {Valid : S → Type 0} (laws : KeyStoreLaws ks Valid) where
  module _ (s : S) (n : String) (overlap : Option ℕ) (t₁ : ℕ) (v : Valid s) where
    -- What is found after the active key has been superseded.
    pub superseded_self :
        (c : SecretKey)
        → ks.get_active s n ≡ some c
        → ks.get (superseded ks s (some c) overlap t₁) n c.key_id
          ≡ some (superseded_key c overlap t₁)
    superseded_self c h =
        let (a, b) = laws.active_found s n v h in
        let (e, f) = laws.filed s n c.key_id v a in
        rw (get-save ks laws (superseded_key c overlap t₁) s n c.key_id e, beq_self c.key_id) refl

    pub superseded_rest :
        (o : Option SecretKey) (j : String)
        → ks.get_active s n ≡ o
        → ((c : SecretKey) → o ≡ some c → c.key_id ≢ j)
        → ks.get (superseded ks s o overlap t₁) n j ≡ ks.get s n j
    superseded_rest none j h ne = refl
    superseded_rest (some c) j h ne =
        let (a, b) = laws.active_found s n v h in
        let (e, f) = laws.filed s n c.key_id v a in
        elim (Bool-cases (c.key_id == j)) [
          | inl q ↦ absurd (ne c refl (eq_of_beq c.key_id j q))
          | inr q ↦ rw (get-save ks laws (superseded_key c overlap t₁) s n j e, q) refl
        ]

    pub superseded_other :
        (o : Option SecretKey) (m j : String)
        → ks.get_active s n ≡ o
        → n ≢ m
        → ks.get (superseded ks s o overlap t₁) m j ≡ ks.get s m j
    superseded_other none m j h ne = refl
    superseded_other (some c) m j h ne =
        let (a, b) = laws.active_found s n v h in
        let (e, f) = laws.filed s n c.key_id v a in
        get-save_other ks laws (superseded_key c overlap t₁) s m j (λ q. ne (sym e ∙ q))

    -- No key is active between the two writes.
    pub superseded_none_active :
        (o : Option SecretKey) (j : String) (x : SecretKey)
        → ks.get_active s n ≡ o
        → SingleActive ks s n
        → ks.get (superseded ks s o overlap t₁) n j ≡ some x
        → x.status ≢ active
    superseded_none_active none j x h single g a = laws.active_missing s n j v h g a
    superseded_none_active (some c) j x h single g a =
        let (found, act) = laws.active_found s n v h in
        elim (Bool-cases (c.key_id == j)) [
          | inl q ↦
              let e : some (superseded_key c overlap t₁) ≡ some x =
                sym (
                  subst
                    (λ i.
                      ks.get (superseded ks s (some c) overlap t₁) n i
                      ≡ some (superseded_key c overlap t₁))
                    (eq_of_beq c.key_id j q) (superseded_self c h))
                ∙ g in
              ground arith
          | inr q ↦
              let g' : ks.get s n j ≡ some x =
                sym (
                  superseded_rest (some c) j h
                    (λ d e f. cc (beq_of_eq c.key_id j (ap (λ z. z.key_id) (of_some e) ∙ f))))
                ∙ g in
              cc (beq_of_eq c.key_id j (single c.key_id j c x found g' act a))
        ]
      where
        of_some : {c d : SecretKey} → some c ≡ some d → c ≡ d
        of_some e = cc

-- The overlap, which is 0 where none is given.
abbrev pub overlap_or_zero : Option ℕ → ℕ
overlap_or_zero none = 0
overlap_or_zero (some overlap) = overlap

pub window_end_lem :
    (overlap : Option ℕ) (now : ℕ) → window_end overlap now ≡ now + overlap_or_zero overlap
window_end_lem none now = omega arith
window_end_lem (some overlap) now = elim (Bool-cases (nat_beq overlap 0)) [
  | inl e ↦ rw e (omega (arith, (nat_beq_iff overlap 0).0 e))
  | inr e ↦ rw e refl
]

-- What a successful activation promises of the store `t` that it leaves, where `s` was before.
pub record HandsOver {S : Type 0} (ks : KeyStore S) (s t : S) (n : String) (k : SecretKey)
    (overlap : Option ℕ) (t₁ t₂ : ℕ) : Type 0 where
  pub new_active : ks.get t n k.key_id ≡ some (record k { status = active; rotated_at = some t₂ })
  pub only_active :
      (j : String) (x : SecretKey) → ks.get t n j ≡ some x → x.status ≡ active → j ≡ k.key_id
  pub old_kept :
      (p : SecretKey)
      → ks.get_active s n ≡ some p
      → ks.get t n p.key_id
        ≡ some (record p { status = expired; valid_until = some (t₁ + overlap_or_zero overlap) })
  pub rest_kept :
      (j : String)
      → k.key_id ≢ j
      → ((p : SecretKey) → ks.get_active s n ≡ some p → p.key_id ≢ j)
      → ks.get t n j ≡ ks.get s n j
  pub others_kept : (m j : String) → n ≢ m → ks.get t m j ≡ ks.get s m j

module _ {S : Type 0} (ks : KeyStore S) {Valid : S → Type 0} (laws : KeyStoreLaws ks Valid) where
  module _ (s : S) (n i : String) (overlap : Option ℕ) (t₁ t₂ : ℕ) (k : SecretKey) (v : Valid s)
      (found : ks.get s n i ≡ some k) (waiting : k.status ≡ pending)
      (single : SingleActive ks s n) where
    read_after :
        (j : String)
        → ks.get (activated_store ks s n k overlap t₁ t₂) n j ≡ (
            if k.key_id == j
            then some (activated_key k t₂)
            else ks.get (superseded ks s (ks.get_active s n) overlap t₁) n j)
    read_after j =
        get-save ks laws (activated_key k t₂) (superseded ks s (ks.get_active s n) overlap t₁) n j
          (laws.filed s n i v found).0

    read_rest :
        (j : String)
        → k.key_id ≢ j
        → ks.get (activated_store ks s n k overlap t₁ t₂) n j
          ≡ ks.get (superseded ks s (ks.get_active s n) overlap t₁) n j
    read_rest j ne = elim (Bool-cases (k.key_id == j)) [
      | inl e ↦ absurd (ne (eq_of_beq k.key_id j e))
      | inr e ↦ rw (read_after j, e) refl
    ]

    -- The key that is being activated is not the one that is superseded.
    not_active_yet : (p : SecretKey) → ks.get_active s n ≡ some p → k.key_id ≢ p.key_id
    not_active_yet p h e =
        let (a, b) = laws.active_found s n v h in
        let same : some p ≡ some k =
          sym (subst (λ j. ks.get s n j ≡ some p) (sym e ∙ (laws.filed s n i v found).1) a)
          ∙ found in
        cc

    only_one :
        (j : String) (x : SecretKey)
        → ks.get (activated_store ks s n k overlap t₁ t₂) n j ≡ some x
        → x.status ≡ active
        → j ≡ k.key_id
    only_one j x g a = elim (Bool-cases (k.key_id == j)) [
      | inl e ↦ sym (eq_of_beq k.key_id j e)
      | inr e ↦ absurd (
          superseded_none_active ks laws s n overlap t₁ v (ks.get_active s n) j x refl single
            (sym (read_rest j (λ q. cc (beq_of_eq k.key_id j q))) ∙ g) a)
    ]

    pub hands_over : HandsOver ks s (activated_store ks s n k overlap t₁ t₂) n k overlap t₁ t₂
    hands_over = record {
      new_active = rw (read_after k.key_id, beq_self k.key_id) refl;
      only_active = only_one;
      old_kept = λ p h.
          read_rest p.key_id (not_active_yet p h)
          ∙ subst
              (λ o.
                ks.get (superseded ks s o overlap t₁) n p.key_id
                ≡ some (superseded_key p overlap t₁))
              (sym h) (superseded_self ks laws s n overlap t₁ v p h)
          ∙ ap (λ e. some (record p { status = expired; valid_until = some e }))
              (window_end_lem overlap t₁);
      rest_kept = λ j ne nr.
          read_rest j ne ∙ superseded_rest ks laws s n overlap t₁ v (ks.get_active s n) j refl nr;
      others_kept = λ m j ne.
          get-save_other ks laws (activated_key k t₂)
            (superseded ks s (ks.get_active s n) overlap t₁) m j
            (λ q. ne (sym (laws.filed s n i v found).0 ∙ q))
          ∙ superseded_other ks laws s n overlap t₁ v (ks.get_active s n) m j refl ne;
    }

    -- In a well filed store of which at most one key of the secret is active, activating a pending key
    -- returns it with the status active and the time of the second reading as that of its rotation, and
    -- leaves it so, as the only active key of the secret; the key that was active before is expired, valid
    -- until the time of the first reading and the overlap together, and otherwise as it was; all other keys
    -- stay as they are.
    pub activate-HandsOver :
        (t : S) × (activate ks n i overlap t₁ t₂ s
          ≡ returned (record k { status = active; rotated_at = some t₂ }) t)
        × Valid t
        × HandsOver ks s t n k overlap t₁ t₂
    activate-HandsOver = (
      activated_store ks s n k overlap t₁ t₂,
      rw (activate_lem ks laws s n i overlap t₁ t₂ k v found, ap is_pending waiting) refl,
      laws.saved_valid _ _ (superseded_valid ks laws s (ks.get_active s n) overlap t₁ v),
      hands_over,
    )
