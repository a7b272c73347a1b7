-- ===== src/Windows/Revocation.antt =====
-- What a cleanup writes.
use secret_rotation_kit.Prelude.{
  ℕ, ◌+◌, ◌<◌, Option, none, suc, ◌≡◌, refl, sym, ◌∙◌, ◌≢◌, subst, ◌⊎◌, ◌↔◌, inl, inr, true, ◌&&◌,
  some, List, [], ◌∷◌, String, map, ◌==◌, string_eq, arith, In, here, there, In-cons, In-filter,
  filter-In, filter, Bool-cases, eq_of_beq, beq_self, and-true,
}
use secret_rotation_kit.Effect.{returned}
use secret_rotation_kit.Types.{SecretKey, KeyStatus, expired, revoked, is_expired}
use secret_rotation_kit.KeyStore.{KeyStore, KeyStoreLaws}
use secret_rotation_kit.Windows.{
  KeyWindowConfig, closed_key, grace_over, is_due, revoke_each, cleanup_expired,
}

-- The time is past the end of the validity and the grace period together; without an end, always.
abbrev pub GraceOver : KeyWindowConfig → ℕ → Option ℕ → Type 0
GraceOver c now none = Unit
GraceOver c now (some t) = t + c.grace_period_ms < now

is_due_iff :
    (c : KeyWindowConfig) (now : ℕ) (k : SecretKey)
    → (is_due c now k ≡ true) ↔ ((k.status ≡ expired) × GraceOver c now k.valid_until)
is_due_iff c now k = go k.status k.valid_until
  where
    go :
        (t : KeyStatus) (o : Option ℕ)
        → ((is_expired t && grace_over c now o) ≡ true) ↔ ((t ≡ expired) × GraceOver c now o)
    go t none = ((λ h. ground arith), (λ h. ground arith))
    go t (some u) = ((λ h. ground arith), (λ h. ground arith))

module _ {S : Type 0} (ks : KeyStore S) {Valid : S → Type 0} (laws : KeyStoreLaws ks Valid)
    (clock : ℕ → ℕ) where
  -- Each key of the list stands in the store.
  abbrev Present : S → List SecretKey → Type 0
  Present s xs =
      (k : SecretKey) → In k xs → (old : SecretKey) × (ks.get s k.secret_name k.key_id ≡ some old)

  -- A key of the list stands under the name, revoked at a reading of the clock, and otherwise as it was.
  abbrev pub Closed : S → List SecretKey → String → String → Type 0
  Closed t xs n i =
      (l : SecretKey) × In l xs
      × (l.secret_name ≡ n)
      × (l.key_id ≡ i)
      × ((j : ℕ) × (ks.get t n i
            ≡ some (record l { status = revoked; revoked_at = some (clock j) })))

  -- The keys of the list are revoked, and no other key has changed.
  pub record Revoked (s t : S) (xs : List SecretKey) : Type 0 where
    pub valid : Valid t
    pub written : (n i : String) → (ks.get t n i ≡ ks.get s n i) ⊎ Closed t xs n i
    pub closed : (k : SecretKey) → In k xs → Closed t xs k.secret_name k.key_id
    pub kept :
        (n i : String)
        → ((k : SecretKey) → In k xs → k.secret_name ≡ n → k.key_id ≢ i)
        → ks.get t n i ≡ ks.get s n i

  saved_present :
      (s : S) (x : SecretKey) (n i : String) {old : SecretKey}
      → ks.get s n i ≡ some old
      → (y : SecretKey) × (ks.get (ks.save x s) n i ≡ some y)
  saved_present s x n i {old} h = elim (Bool-cases (x.secret_name == n && x.key_id == i)) [
    | inl e ↦ (x, rw (laws.get_saved x s n i, e) refl)
    | inr e ↦ (old, rw (laws.get_saved x s n i, e) h)
  ]

  pub revoke_each-Revoked :
      (xs : List SecretKey) (m : ℕ) (s : S)
      → Valid s
      → Present s xs
      → (t : S) × (revoke_each ks clock m xs s ≡ returned tt t) × Revoked s t xs
  unfolding revoke_each
  revoke_each-Revoked [] m s v p = (
    s,
    refl,
    record {
      valid = v;
      written = λ n i. inl refl;
      closed = λ k h. elim h [ ];
      kept = λ n i h. refl;
    },
  )
  revoke_each-Revoked (x ∷ xs) m s v p =
      let x' = closed_key x (clock m) in
      let u = ks.save x' s in
      let e = laws.update_found x' s (p x (here refl)).1 in
      let (t, q, r) =
        revoke_each-Revoked xs (suc m) u (laws.saved_valid x' s v)
          (λ k h. saved_present s x' k.secret_name k.key_id (p k (there h)).1) in
      (
        t,
        ground (arith, e, q),
        record {
          valid = r.valid;
          written = λ n i. elsewhere x m s t n i (r.written n i);
          closed = λ k h. elim (In-cons h) [
            | inl q ↦
                subst (λ z. Closed t (x ∷ xs) z.secret_name z.key_id) (sym q)
                  (first x m s t (r.written x.secret_name x.key_id))
            | inr w ↦ later x t k.secret_name k.key_id (r.closed k w)
          ];
          kept = λ n i h. r.kept n i (λ k w. h k (there w)) ∙ other x' s n i (h x (here refl));
        },
      )
    where
      later : (x : SecretKey) (t : S) (n i : String) → Closed t xs n i → Closed t (x ∷ xs) n i
      later x t n i (l, w, a, b, c) = (l, there w, a, b, c)

      first :
          (x : SecretKey) (m : ℕ) (s t : S)
          → (ks.get t x.secret_name x.key_id
              ≡ ks.get (ks.save (closed_key x (clock m)) s) x.secret_name x.key_id)
            ⊎ Closed t xs x.secret_name x.key_id
          → Closed t (x ∷ xs) x.secret_name x.key_id
      first x m s t (inl q) = (
        x,
        here refl,
        refl,
        refl,
        (
          m,
          q
              ∙ rw
                  (
                    laws.get_saved (closed_key x (clock m)) s x.secret_name x.key_id,
                    beq_self x.secret_name,
                    beq_self x.key_id,
                  )
                  refl,
        ),
      )
      first x m s t (inr c) = later x t x.secret_name x.key_id c

      other :
          (y : SecretKey) (s : S) (n i : String)
          → (y.secret_name ≡ n → y.key_id ≢ i)
          → ks.get (ks.save y s) n i ≡ ks.get s n i
      other y s n i h = elim (Bool-cases (y.secret_name == n && y.key_id == i)) [
        | inl e ↦
            let (a, b) = and-true (y.secret_name == n) (y.key_id == i) e in
            absurd (h (eq_of_beq y.secret_name n a) (eq_of_beq y.key_id i b))
        | inr e ↦ rw (laws.get_saved y s n i, e) refl
      ]

      elsewhere :
          (x : SecretKey) (m : ℕ) (s t : S) (n i : String)
          → (ks.get t n i ≡ ks.get (ks.save (closed_key x (clock m)) s) n i) ⊎ Closed t xs n i
          → (ks.get t n i ≡ ks.get s n i) ⊎ Closed t (x ∷ xs) n i
      elsewhere x m s t n i (inr c) = inr (later x t n i c)
      elsewhere x m s t n i (inl q) = elim (Bool-cases (x.secret_name == n && x.key_id == i)) [
        | inl e ↦
            let (a, b) = and-true (x.secret_name == n) (x.key_id == i) e in
            inr (
              x,
              here refl,
              eq_of_beq x.secret_name n a,
              eq_of_beq x.key_id i b,
              (m, q ∙ rw (laws.get_saved (closed_key x (clock m)) s n i, e) refl),
            )
        | inr e ↦ inl (q ∙ rw (laws.get_saved (closed_key x (clock m)) s n i, e) refl)
      ]

  -- Cleaning up a well filed store, for a secret with a non-empty name, never throws: it returns the ids of
  -- the keys of the secret that have the status expired and, at the first reading of the clock, no end of
  -- their validity, or one that is longer ago than the grace period. All of these then have the status
  -- revoked, from a reading of the clock, and are otherwise as they were; and no other key has changed.
  pub cleanup_expired-Revoked :
      (c : KeyWindowConfig) (n : String) (s : S)
      → Valid s
      → n ≢ ""
      → (t : S) × (due : List SecretKey) × (cleanup_expired ks clock c n s
          ≡ returned (map (λ k. k.key_id) due) t)
        × Revoked s t due
        × ((k : SecretKey)
            → In k due ↔ (
                (ks.get s n k.key_id ≡ some k)
                × (k.status ≡ expired)
                × GraceOver c (clock 0) k.valid_until))
  unfolding cleanup_expired
  cleanup_expired-Revoked c n s v ne =
      let due = filter (is_due c (clock 0)) (ks.list s n) in
      let (t, q, r) = revoke_each-Revoked due 1 s v present in
      (
        t,
        due,
        ground (arith, q),
        r,
        λ k. (
          λ h.
              let (a, b) = In-filter (is_due c (clock 0)) (ks.list s n) k h in
              let (d, g) = (is_due_iff c (clock 0) k).0 b in ((laws.listed s n k v ne).0 a, d, g),
          λ h.
              filter-In (is_due c (clock 0)) (ks.list s n) k ((laws.listed s n k v ne).1 h.0)
                ((is_due_iff c (clock 0) k).1 (h.1, h.2)),
        ),
      )
    where
      present : Present s (filter (is_due c (clock 0)) (ks.list s n))
      present k h =
          let g = (laws.listed s n k v ne).0 (In-filter (is_due c (clock 0)) (ks.list s n) k h).0 in
          (k, subst (λ z. ks.get s z k.key_id ≡ some k) (sym (laws.filed s n k.key_id v g).0) g)
