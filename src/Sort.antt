-- ===== src/Sort.antt =====
-- `Array.prototype.sort`, which is stable: entries that compare as equal keep their order.
use mathlib.Core.List.{Perm}
use mathlib.Core.List.Perm
use secret_rotation_kit.Prelude.{
  suc, ◌≡◌, refl, sym, inl, inr, ◌⊎◌, Bool, true, false, List, [], ◌∷◌, arith, ap, ◌∙◌, length,
  if◌then◌else◌, Bool-cases, In, here, there, In-cons, subst,
}

-- `before x y` says that `x` may stand before `y`: the comparator's answer is not positive.
module _ {ℓ} {A : Type ℓ} (before : A → A → Bool) where
  unfoldable pub insert : A → List A → List A
  insert x [] = x ∷ []
  insert x (y ∷ ys) = let rest = insert x ys in if before x y then x ∷ y ∷ ys else y ∷ rest

  unfoldable pub sort : List A → List A
  unfolding insert
  sort [] = []
  sort (x ∷ xs) = insert x (sort xs)

  insert-In : (x : A) (ys : List A) (a : A) → In a (insert x ys) → (a ≡ x) ⊎ In a ys
  unfolding insert
  insert-In x [] a (here e) = inl e
  insert-In x [] a (there m) = inr m
  insert-In x (y ∷ ys) a h = elim (Bool-cases (before x y)) [
    | inl e ↦ In-cons (rw e at h)
    | inr e ↦ elim (In-cons (rw e at h)) [
      | inl q ↦ inr (here q)
      | inr m ↦ elim (insert-In x ys a m) [ inl q ↦ inl q | inr r ↦ inr (there r) ]
    ]
  ]

  In-insert_head : (x : A) (ys : List A) → In x (insert x ys)
  unfolding insert
  In-insert_head x [] = here refl
  In-insert_head x (y ∷ ys) = elim (Bool-cases (before x y)) [
    | inl e ↦ rw e (here refl)
    | inr e ↦ rw e (there (In-insert_head x ys))
  ]

  In-insert_tail : (x : A) (ys : List A) (a : A) → In a ys → In a (insert x ys)
  unfolding insert
  In-insert_tail x [] a h = elim h [ ]
  In-insert_tail x (y ∷ ys) a (here q) = elim (Bool-cases (before x y)) [
    | inl e ↦ rw e (there (here q))
    | inr e ↦ rw e (here q)
  ]
  In-insert_tail x (y ∷ ys) a (there m) = elim (Bool-cases (before x y)) [
    | inl e ↦ rw e (there (there m))
    | inr e ↦ rw e (there (In-insert_tail x ys a m))
  ]

  pub sort-In : (xs : List A) (a : A) → In a (sort xs) → In a xs
  unfolding sort
  sort-In [] a h = h
  sort-In (x ∷ xs) a h = elim (insert-In x (sort xs) a h) [
    | inl e ↦ here e
    | inr m ↦ there (sort-In xs a m)
  ]

  pub In-sort : (xs : List A) (a : A) → In a xs → In a (sort xs)
  unfolding sort
  In-sort [] a h = elim h [ ]
  In-sort (x ∷ xs) a (here e) =
      subst (λ b. In b (insert x (sort xs))) (sym e) (In-insert_head x (sort xs))
  In-sort (x ∷ xs) a (there m) = In-insert_tail x (sort xs) a (In-sort xs a m)

  length-insert : (x : A) (ys : List A) → length (insert x ys) ≡ suc (length ys)
  unfolding insert
  length-insert x [] = refl
  length-insert x (y ∷ ys) = ground (arith, length-insert x ys)

  pub length-sort : (xs : List A) → length (sort xs) ≡ length xs
  unfolding sort
  length-sort [] = refl
  length-sort (x ∷ xs) = length-insert x (sort xs) ∙ ap suc (length-sort xs)

  insert-perm : (x : A) (ys : List A) → Perm (insert x ys) (x ∷ ys)
  unfolding insert
  insert-perm x [] = Perm.refl _
  insert-perm x (y ∷ ys) = elim (Bool-cases (before x y)) [
    | inl e ↦ rw e (Perm.refl _)
    | inr e ↦ rw e (Perm.trans (Perm.cons y (insert-perm x ys)) (Perm.swap x y ys))
  ]

  -- Sorting keeps the entries, each as often.
  pub sort-perm : (xs : List A) → Perm (sort xs) xs
  unfolding sort
  sort-perm [] = Perm.refl _
  sort-perm (x ∷ xs) = Perm.trans (insert-perm x (sort xs)) (Perm.cons x (sort-perm xs))

  abbrev pub Sorted : List A → Type ℓ
  Sorted [] = Unit
  Sorted (x ∷ xs) = ((y : A) → In y xs → before x y ≡ true) × Sorted xs

  -- A comparator that is a total order on some measure sorts.
  module _ (total : (x y : A) → before x y ≡ false → before y x ≡ true)
      (transitive : (x y z : A) → before x y ≡ true → before y z ≡ true → before x z ≡ true) where
    insert-Sorted : (x : A) (ys : List A) → Sorted ys → Sorted (insert x ys)
    unfolding insert
    insert-Sorted x [] s = ((λ y m. elim m [ ]), tt)
    insert-Sorted x (y ∷ ys) s = elim (Bool-cases (before x y)) [
      | inl e ↦ rw e ((λ z m. first e z (In-cons m)), s)
      | inr e ↦ rw e ((λ z m. later e z (insert-In x ys z m)), insert-Sorted x ys s.1)
    ]
      where
        first : before x y ≡ true → (z : A) → (z ≡ y) ⊎ In z ys → before x z ≡ true
        first e z (inl q) = rw q e
        first e z (inr m) = transitive x y z e (s.0 z m)

        later : before x y ≡ false → (z : A) → (z ≡ x) ⊎ In z ys → before y z ≡ true
        later e z (inl q) = rw q (total x y e)
        later e z (inr m) = s.0 z m

    pub sort-Sorted : (xs : List A) → Sorted (sort xs)
    unfolding sort
    sort-Sorted [] = tt
    sort-Sorted (x ∷ xs) = insert-Sorted x (sort xs) (sort-Sorted xs)
