-- ===== src/Windows/Selection.antt =====
-- Which key `selectKey` selects.
use secret_rotation_kit.Prelude.{
  of_some, ℕ, ◌≡◌, refl, ap, ◌∙◌, subst, inl, inr, Bool, true, false, Option, none, some, List, [],
  ◌∷◌, String, arith, In, here, In-cons, find, find-In, head?, Bool-cases,
}
use secret_rotation_kit.Types.{SecretKey, is_active, is_expired}
use secret_rotation_kit.KeyStore.{KeyStore}
use secret_rotation_kit.Windows.{select_key, select_in}

find-none :
    (p : SecretKey → Bool) (xs : List SecretKey) (a : SecretKey)
    → find p xs ≡ none
    → In a xs
    → p a ≡ false
find-none p [] a h m = elim m [ ]
find-none p (x ∷ xs) a h m = elim (Bool-cases (p x)) [
  | inl e ↦ absurd (ground arith)
  | inr e ↦ elim (In-cons m) [ inl q ↦ ap p q ∙ e | inr w ↦ find-none p xs a (rw e at h) w ]
]

head-In : (xs : List SecretKey) {k : SecretKey} → head? xs ≡ some k → In k xs
head-In [] {k} h = absurd (cc)
head-In (x ∷ xs) {k} h = let q : k ≡ x = cc in here q

empty : (xs : List SecretKey) → head? xs ≡ none → xs ≡ []
empty [] h = refl
empty (x ∷ xs) h = absurd (cc)

-- The preference: an active key; else an expired key, if no valid key is active; else some other key.
pub data Preferred (valid : List SecretKey) (k : SecretKey) : Type 0 where
  is_current : is_active k.status ≡ true → Preferred valid k
  is_previous :
      ((j : SecretKey) → In j valid → is_active j.status ≡ false)
      → is_expired k.status ≡ true
      → Preferred valid k
  is_other :
      ((j : SecretKey) → In j valid → is_active j.status ≡ false)
      → ((j : SecretKey) → In j valid → is_expired j.status ≡ false)
      → Preferred valid k

module _ {S : Type 0} (ks : KeyStore S) where
  -- The selected key is valid at the time, an active one where one is valid, and otherwise an expired
  -- one where one is valid; there is none only where no key is valid.
  select_key-Preferred :
      (s : S) (n : String) (at : ℕ)
      → ((k : SecretKey)
          → select_key ks s n at ≡ some k
          → In k (ks.get_valid s n at) × Preferred (ks.get_valid s n at) k)
        × (select_key ks s n at ≡ none → ks.get_valid s n at ≡ [])
  unfolding select_key
  select_key-Preferred s n at = by_active (find active_one valid) refl (find expired_one valid) refl
    where
      valid : List SecretKey
      valid = ks.get_valid s n at

      active_one : SecretKey → Bool
      active_one k = is_active k.status

      expired_one : SecretKey → Bool
      expired_one k = is_expired k.status

      by_active :
          (o : Option SecretKey)
          → find active_one valid ≡ o
          → (q : Option SecretKey) → find expired_one valid ≡ q
          → ((k : SecretKey) → select_in valid o q ≡ some k → In k valid × Preferred valid k)
            × (select_in valid o q ≡ none → valid ≡ [])
      by_active (some j) e q f =
          let r = find-In active_one valid e in
          (
            λ k h.
                let same : j ≡ k = of_some h in
                subst (λ z. In z valid × Preferred valid z) same (r.0, is_current r.1),
            λ h. absurd (cc),
          )
      by_active none e (some j) f =
          let r = find-In expired_one valid f in
          (
            λ k h.
                let same : j ≡ k = of_some h in
                subst (λ z. In z valid × Preferred valid z) same
                  (r.0, is_previous (λ i m. find-none active_one valid i e m) r.1),
            λ h. absurd (cc),
          )
      by_active none e none f = (
        λ k h. (
          head-In valid h,
          is_other (λ i m. find-none active_one valid i e m)
              (λ i m. find-none expired_one valid i f m),
        ),
        empty valid,
      )
