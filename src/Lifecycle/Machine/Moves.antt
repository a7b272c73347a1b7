-- ===== src/Lifecycle/Machine/Moves.antt =====
-- What one change does to the keys of the store: the invariant, and where each key moves.
use secret_rotation_kit.Prelude.{
  of_some, ◌&&◌, ℕ, ◌+◌, ◌≡◌, refl, sym, ap, ◌∙◌, ◌≢◌, ◌⊎◌, subst, inl, inr, Option, none, some,
  String, ◌==◌, string_eq, Bool-cases, Option-cases, eq_of_beq, beq_of_eq, and-true, subst₂,
}
use secret_rotation_kit.Types.{SecretKey, pending, active, expired}
use secret_rotation_kit.KeyStore.{KeyStore, KeyStoreLaws}
use secret_rotation_kit.Lifecycle.{activated_key}
use secret_rotation_kit.Lifecycle.Writes.{activated_store, activated_valid}
use secret_rotation_kit.Lifecycle.Handover.{SingleActive, hands_over, overlap_or_zero}
use secret_rotation_kit.Lifecycle.Machine.Steps.{Edge, Step, same, adds, demotes, hands_on}

module _ {S : Type 0} (ks : KeyStore S) {Valid : S → Type 0} (laws : KeyStoreLaws ks Valid) where
  -- The store files its keys as promised, and each secret has at most one active key.
  pub record Inv (s : S) : Type 0 where
    pub valid : Valid s
    pub single : (n : String) → SingleActive ks s n

  -- A write that makes no key active keeps at most one active.
  save_single :
      (s : S) (x : SecretKey)
      → x.status ≢ active
      → ((n : String) → SingleActive ks s n)
      → (n : String) → SingleActive ks (ks.save x s) n
  save_single s x ne single n i j k l gi gj ai aj =
      single n i j k l (old i k gi ai) (old j l gj aj) ai aj
    where
      old :
          (i : String) (k : SecretKey)
          → ks.get (ks.save x s) n i ≡ some k
          → k.status ≡ active
          → ks.get s n i ≡ some k
      old i k g a = elim (Bool-cases (x.secret_name == n && x.key_id == i)) [
        | inl e ↦
            let q : some x ≡ some k = rw (laws.get_saved x s n i, e) at g in
            absurd (ne (ap (λ z. z.status) (of_some q) ∙ a))
        | inr e ↦ rw (laws.get_saved x s n i, e) at g
      ]

  pub Step-Inv : {s t : S} → Step ks s t → Inv s → Inv t
  Step-Inv same h = h
  Step-Inv {s} (adds x f p) h = record {
    valid = laws.saved_valid x s h.valid;
    single = save_single s x (λ q. cc (sym p ∙ q)) h.single;
  }
  Step-Inv {s} (demotes k x f a b e ne) h = record {
    valid = laws.saved_valid x s h.valid;
    single = save_single s x ne h.single;
  }
  Step-Inv {s} (hands_on n i k overlap t₁ t₂ f p) h =
      let t = activated_store ks s n k overlap t₁ t₂ in
      let r = hands_over ks laws s n i overlap t₁ t₂ k h.valid f p (h.single n) in
      record {
        valid = activated_valid ks laws s n k overlap t₁ t₂ h.valid;
        single = λ m a b x y ga gb xa ya. elim (Bool-cases (n == m)) [
          | inl e ↦
              let q = sym (eq_of_beq n m e) in
              r.only_active a x (subst (λ z. ks.get t z a ≡ some x) q ga) xa
              ∙ sym (r.only_active b y (subst (λ z. ks.get t z b ≡ some y) q gb) ya)
          | inr e ↦
              let ne : n ≢ m = λ q. cc (beq_of_eq n m q) in
              h.single m a b x y (sym (r.others_kept m a ne) ∙ ga) (sym (r.others_kept m b ne) ∙ gb)
                xa ya
        ];
      }

  -- What became of a key: it is as it was, or it moved along one edge.
  abbrev pub Moved : S → String → String → SecretKey → Type 0
  Moved t n i k = (x : SecretKey) × (ks.get t n i ≡ some x) × ((x ≡ k) ⊎ Edge k.status x.status)

  move :
      (t : S) (n i : String) (k k' x : SecretKey)
      → ks.get t n i ≡ some x
      → k' ≡ k
      → Edge k'.status x.status
      → Moved t n i k
  move t n i k k' x g e d = (x, g, inr (subst (λ z. Edge z.status x.status) e d))

  Moved-by_handover :
      (s : S) (n i j : String) (k l : SecretKey) (overlap : Option ℕ) (t₁ t₂ : ℕ)
      → Inv s
      → ks.get s n i ≡ some k
      → k.status ≡ pending
      → ks.get s n j ≡ some l
      → Moved (activated_store ks s n k overlap t₁ t₂) n j l
  Moved-by_handover s n i j k l overlap t₁ t₂ h f p g =
      let t = activated_store ks s n k overlap t₁ t₂ in
      let r = hands_over ks laws s n i overlap t₁ t₂ k h.valid f p (h.single n) in
      elim (Bool-cases (k.key_id == j)) [
        | inl e ↦
            let q = eq_of_beq k.key_id j e in
            let same_key : k ≡ l = of_some (
              sym f
              ∙ subst (λ z. ks.get s n z ≡ some l) (sym q ∙ (laws.filed s n i h.valid f).1) g) in
            move t n j l k (activated_key k t₂)
              (subst (λ z. ks.get t n z ≡ some (activated_key k t₂)) q r.new_active) same_key
              (subst (λ z. Edge z active) (sym p) Edge.activates)
        | inr e ↦ elim (Option-cases (ks.get_active s n)) [
          | inl none_active ↦ (
            l,
            r.rest_kept j (λ q. cc (beq_of_eq k.key_id j q)) (λ c a. absurd (cc)) ∙ g,
            inl refl,
          )
          | inr (c, a) ↦ elim (Bool-cases (c.key_id == j)) [
            | inl u ↦
                let q = eq_of_beq c.key_id j u in
                let (found, act) = laws.active_found s n h.valid a in
                let same_key : c ≡ l =
                  of_some (sym found ∙ subst (λ z. ks.get s n z ≡ some l) (sym q) g) in
                move t n j l c _
                  (subst
                    (λ z.
                      ks.get t n z
                      ≡ some (record c {
                        status = expired;
                        valid_until = some (t₁ + overlap_or_zero overlap);
                      }))
                    q (r.old_kept c a))
                  same_key (subst (λ z. Edge z expired) (sym act) Edge.supersedes)
            | inr u ↦ (
              l,
              r.rest_kept j (λ q. cc (beq_of_eq k.key_id j q))
                    (λ d b q.
                      cc (beq_of_eq c.key_id j (ap (λ z. z.key_id) (of_some (sym a ∙ b)) ∙ q)))
                  ∙ g,
              inl refl,
            )
          ]
        ]
      ]

  -- A step of the state machine, from a well filed store with at most one active key for each secret,
  -- loses no key, and each key stays as it was or moves along one edge.
  pub Step-Moved :
      {s t : S} (n i : String) (k : SecretKey)
      → Step ks s t
      → Inv s
      → ks.get s n i ≡ some k
      → Moved t n i k
  Step-Moved n i k same h g = (k, g, inl refl)
  Step-Moved {s} n i k (adds x f p) h g = elim (Bool-cases (x.secret_name == n && x.key_id == i)) [
    | inl e ↦
        let (a, b) = and-true (x.secret_name == n) (x.key_id == i) e in
        let q : ks.get s n i ≡ none =
          subst₂ (λ y z. ks.get s y z ≡ none) (eq_of_beq x.secret_name n a) (eq_of_beq x.key_id i b)
            f in
        absurd (cc)
    | inr e ↦ (k, rw (laws.get_saved x s n i, e) g, inl refl)
  ]
  Step-Moved {s} n i k (demotes l x f a b e ne) h g =
      elim (Bool-cases (x.secret_name == n && x.key_id == i)) [
        | inl u ↦
            let (c, d) = and-true (x.secret_name == n) (x.key_id == i) u in
            let q : ks.get s n i ≡ some l =
              subst₂ (λ y z. ks.get s y z ≡ some l) (sym a ∙ eq_of_beq x.secret_name n c)
                (sym b ∙ eq_of_beq x.key_id i d) f in
            move (ks.save x s) n i k l x (rw (laws.get_saved x s n i, u) refl) (of_some (sym q ∙ g))
              e
        | inr u ↦ (k, rw (laws.get_saved x s n i, u) g, inl refl)
      ]
  Step-Moved {s} n i k (hands_on m j l overlap t₁ t₂ f p) h g = elim (Bool-cases (m == n)) [
    | inl e ↦
        let q = eq_of_beq m n e in
        subst (λ z. Moved (activated_store ks s m l overlap t₁ t₂) z i k) q
          (Moved-by_handover s m j i l k overlap t₁ t₂ h f p
            (subst (λ z. ks.get s z i ≡ some k) (sym q) g))
    | inr e ↦ (
      k,
      (hands_over ks laws s m j overlap t₁ t₂ l h.valid f p (h.single m)).others_kept n i
            (λ q. cc (beq_of_eq m n q))
          ∙ g,
      inl refl,
    )
  ]
