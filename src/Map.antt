-- ===== src/Map.antt =====
-- The `Map` of the language: entries in insertion order. `set` writes an old key in place and
-- appends a new one; `delete` removes the entry.
use secret_rotation_kit.Prelude.{
  ◌≡◌, refl, ◌↔◌, inl, inr, Bool, true, false, Option, none, some, List, [], ◌∷◌, arith,
  if◌then◌else◌, Comparable, ◌==◌, beq_self, same_iff, Bool-cases, In, here, there,
}

abbrev pub Map {ℓ κ} : Type ℓ → Type κ → Type (ℓ ⊔ κ)
Map K V = List (K × V)

module _ {ℓ κ} {K : Type ℓ} {V : Type κ} ⦃e : Comparable K⦄ where
  unfoldable pub get : Map K V → K → Option V
  get [] k = none
  get ((j, v) ∷ m) k = if j == k then some v else get m k

  unfoldable pub has : Map K V → K → Bool
  has [] k = false
  has ((j, v) ∷ m) k = if j == k then true else has m k

  unfoldable pub set : Map K V → K → V → Map K V
  set [] k v = (k, v) ∷ []
  set ((j, w) ∷ m) k v = if j == k then (j, v) ∷ m else (j, w) ∷ set m k v

  unfoldable pub delete : Map K V → K → Map K V
  delete [] k = []
  delete ((j, w) ∷ m) k = let rest = delete m k in if j == k then rest else (j, w) ∷ rest

  pub get-set :
      (m : Map K V) (k j : K) (v : V) → get (set m k v) j ≡ (if k == j then some v else get m j)
  unfolding get set
  get-set [] k j v = refl
  get-set ((i, w) ∷ m) k j v =
      ground (arith, get-set m k j v, same_iff i k, same_iff i j, same_iff k j)

  pub get-set_self : (m : Map K V) (k : K) (v : V) → get (set m k v) k ≡ some v
  get-set_self m k v = rw (get-set m k k v, beq_self k)

  pub get-delete : (m : Map K V) (k j : K) → get (delete m k) j ≡ (if k == j then none else get m j)
  unfolding get delete
  get-delete [] k j = ground arith
  get-delete ((i, w) ∷ m) k j =
      ground (arith, get-delete m k j, same_iff i k, same_iff i j, same_iff k j)

  pub has-true : (m : Map K V) (k : K) → has m k ≡ true → (v : V) × (get m k ≡ some v)
  unfolding get has
  has-true [] k h = cc
  has-true ((j, v) ∷ m) k h = elim (Bool-cases (j == k)) [
    | inl q ↦ (v, rw q)
    | inr q ↦ rw q (has-true m k (rw q at h))
  ]

  pub has_found : (m : Map K V) (k : K) {v : V} → get m k ≡ some v → has m k ≡ true
  unfolding get has
  has_found [] k {v} h = cc
  has_found ((j, w) ∷ m) k {v} h = elim (Bool-cases (j == k)) [
    | inl q ↦ rw q
    | inr q ↦ rw q (has_found m k (rw q at h))
  ]

  pub has_missing : (m : Map K V) (k : K) → get m k ≡ none → has m k ≡ false
  unfolding get has
  has_missing [] k h = refl
  has_missing ((j, v) ∷ m) k h = ground (arith, has_missing m k)

  pub has-false : (m : Map K V) (k : K) → has m k ≡ false → get m k ≡ none
  unfolding get has
  has-false [] k h = refl
  has-false ((j, v) ∷ m) k h = ground (arith, has-false m k)

  -- No key stands twice: the invariant of the representation.
  abbrev pub KeysUnique : Map K V → Type κ
  KeysUnique [] = Unit
  KeysUnique ((k, v) ∷ m) = (get m k ≡ none) × KeysUnique m

  pub set-KeysUnique : (m : Map K V) (k : K) (v : V) → KeysUnique m → KeysUnique (set m k v)
  unfolding set get
  set-KeysUnique [] k v u = (refl, tt)
  set-KeysUnique ((j, w) ∷ m) k v u = elim (Bool-cases (j == k)) [
    | inl q ↦ rw q u
    | inr q ↦ rw q (absent q, set-KeysUnique m k v u.1)
  ]
    where
      absent : (j == k) ≡ false → get (set m k v) j ≡ none
      absent q = ground (arith, get-set m k j v, same_iff j k, same_iff k j, u)

  pub delete-KeysUnique : (m : Map K V) (k : K) → KeysUnique m → KeysUnique (delete m k)
  unfolding delete get
  delete-KeysUnique [] k u = tt
  delete-KeysUnique ((j, w) ∷ m) k u = elim (Bool-cases (j == k)) [
    | inl q ↦ rw q (delete-KeysUnique m k u.1)
    | inr q ↦ rw q (ground (arith, get-delete m k j, u.0), delete-KeysUnique m k u.1)
  ]

  -- An entry of the list is what `get` finds under its key.
  pub In-get : (m : Map K V) (k : K) (v : V) → KeysUnique m → In (k, v) m → get m k ≡ some v
  unfolding get
  In-get [] k v u h = elim h [ ]
  In-get ((j, w) ∷ m) k v u (here q) = ground (arith, same_iff j k)
  In-get ((j, w) ∷ m) k v u (there h) = ground (arith, In-get m k v u.1 h, same_iff j k, u.0)

  pub get-In : (m : Map K V) (k : K) {v : V} → get m k ≡ some v → In (k, v) m
  unfolding get
  get-In [] k h = cc
  get-In ((j, w) ∷ m) k {v} h = elim (Bool-cases (j == k)) [
    | inl q ↦ here (ground (arith, same_iff j k))
    | inr q ↦ there (get-In m k (rw q at h))
  ]

  pub In-get_iff :
      (m : Map K V) → KeysUnique m → (k : K) (v : V) → (In (k, v) m) ↔ (get m k ≡ some v)
  In-get_iff m u k v = (In-get m k v u, get-In m k)
