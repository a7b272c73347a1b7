-- ===== src/KeyStore/InMemory/Filing.antt =====
-- How the in-memory store files its keys, and what a write or a deletion does to that.
use secret_rotation_kit.Prelude.{
  of_some, and-true, ◌≡◌, refl, sym, ap, ◌∙◌, ◌↔◌, inl, inr, ◌&&◌, Option, none, some, [], ◌∷◌,
  String, subst, ◌==◌, string_eq, if◌then◌else◌, In, here, there, Bool-cases, eq_of_beq,
}
use secret_rotation_kit.Map
use secret_rotation_kit.Map.{Map}
use secret_rotation_kit.Types.{SecretKey}
use secret_rotation_kit.KeyStore.InMemory.{
  Keys, Store, values, keys_of, save, get, delete, delete_in,
}

-- Every key is filed once, under its own names.
pub record Filed (n : String) (m : Keys) : Type 0 where
  pub unique : Map.KeysUnique m
  pub named :
      (i : String) {k : SecretKey} → Map.get m i ≡ some k → (k.secret_name ≡ n) × (k.key_id ≡ i)

abbrev pub Valid : Store → Type 0
Valid s = (n : String) → Filed n (keys_of (Map.get s n))

pub get_saved :
    (k : SecretKey) (s : Store) (n i : String)
    → get (save k s) n i ≡ (if k.secret_name == n && k.key_id == i then some k else get s n i)
unfolding get save
get_saved k s n i = elim (Bool-cases (k.secret_name == n)) [
  | inl e ↦
      rw (Map.get-set s k.secret_name n (Map.set (keys_of (Map.get s k.secret_name)) k.key_id k), e)
        (rw (← eq_of_beq k.secret_name n e)
          (Map.get-set (keys_of (Map.get s k.secret_name)) k.key_id i k))
  | inr e ↦
      rw (Map.get-set s k.secret_name n (Map.set (keys_of (Map.get s k.secret_name)) k.key_id k), e)
        refl
]

set-Filed :
    (k : SecretKey) (m : Keys) → Filed k.secret_name m → Filed k.secret_name (Map.set m k.key_id k)
set-Filed k m v = record {
  unique = Map.set-KeysUnique m k.key_id k v.unique;
  named = λ i {k = l} e. elim (Bool-cases (k.key_id == i)) [
    | inl q ↦
        let r : k ≡ l = of_some (rw (Map.get-set m k.key_id i k, q) at e) in
        (ap (λ x. x.secret_name) (sym r), ap (λ x. x.key_id) (sym r) ∙ eq_of_beq k.key_id i q)
    | inr q ↦ v.named i (rw (Map.get-set m k.key_id i k, q) at e)
  ];
}

pub saved_valid : (k : SecretKey) (s : Store) → Valid s → Valid (save k s)
unfolding save
saved_valid k s v n = elim (Bool-cases (k.secret_name == n)) [
  | inl e ↦
      rw (Map.get-set s k.secret_name n (Map.set (keys_of (Map.get s k.secret_name)) k.key_id k), e)
        (subst (λ j. Filed j (Map.set (keys_of (Map.get s k.secret_name)) k.key_id k))
          (eq_of_beq k.secret_name n e)
          (set-Filed k (keys_of (Map.get s k.secret_name)) (v k.secret_name)))
  | inr e ↦
      rw (Map.get-set s k.secret_name n (Map.set (keys_of (Map.get s k.secret_name)) k.key_id k), e)
        (v n)
]

In-values : (m : Keys) (k : SecretKey) → In k (values m) → (i : String) × In (i, k) m
In-values [] k h = elim h [ ]
In-values ((i, x) ∷ m) k (here e) = (i, here (ap (λ y. (i, y)) e))
In-values ((i, x) ∷ m) k (there h) = let (j, r) = In-values m k h in (j, there r)

values-In : (m : Keys) (i : String) (k : SecretKey) → In (i, k) m → In k (values m)
values-In [] i k h = elim h [ ]
values-In ((j, x) ∷ m) i k (here e) = here (ap (λ p. p.1) e)
values-In ((j, x) ∷ m) i k (there h) = there (values-In m i k h)

-- The values are the keys that `get` finds.
pub values_iff :
    (n : String) (m : Keys) (k : SecretKey)
    → Filed n m
    → In k (values m) ↔ (Map.get m k.key_id ≡ some k)
values_iff n m k v = (to, λ e. values-In m k.key_id k (Map.get-In m k.key_id e))
  where
    to : In k (values m) → Map.get m k.key_id ≡ some k
    to h =
        let (i, r) = In-values m k h in
        let e : Map.get m i ≡ some k = Map.In-get m i k v.unique r in
        subst (λ j. Map.get m j ≡ some k) (sym (v.named i e).1) e

get_deleted_in :
    (o : Option Keys) (n i : String) (s : Store) (m j : String)
    → Map.get s n ≡ o
    → Map.get (keys_of (Map.get (delete_in o n i s) m)) j
      ≡ (if n == m && i == j then none else Map.get (keys_of (Map.get s m)) j)
unfolding delete_in Map.get
get_deleted_in none n i s m j h = elim (Bool-cases (n == m && i == j)) [
  | inr e ↦ rw e refl
  | inl e ↦
      let q : Map.get s m ≡ none =
        subst (λ z. Map.get s z ≡ none) (eq_of_beq n m (and-true (n == m) (i == j) e).0) h in
      rw (e, q) refl
]
get_deleted_in (some f) n i s m j h = elim (Bool-cases (n == m)) [
  | inl e ↦
      let q : Map.get s m ≡ some f = subst (λ z. Map.get s z ≡ some f) (eq_of_beq n m e) h in
      rw (Map.get-set s n m (Map.delete f i), e, q) (Map.get-delete f i j)
  | inr e ↦ rw (Map.get-set s n m (Map.delete f i), e) refl
]

pub get_deleted :
    (n i : String) (s : Store) (m j : String)
    → get (delete n i s) m j ≡ (if n == m && i == j then none else get s m j)
unfolding get delete
get_deleted n i s m j = get_deleted_in (Map.get s n) n i s m j refl

delete-Filed : (n i : String) (f : Keys) → Filed n f → Filed n (Map.delete f i)
delete-Filed n i f v = record {
  unique = Map.delete-KeysUnique f i v.unique;
  named = λ j {k = k} e. elim (Bool-cases (i == j)) [
    | inl q ↦ let r = rw (Map.get-delete f i j, q) at e in cc
    | inr q ↦ v.named j (rw (Map.get-delete f i j, q) at e)
  ];
}

deleted_valid_in :
    (o : Option Keys) (n i : String) (s : Store)
    → Map.get s n ≡ o
    → Valid s
    → Valid (delete_in o n i s)
unfolding delete_in
deleted_valid_in none n i s h v m = v m
deleted_valid_in (some f) n i s h v m = elim (Bool-cases (n == m)) [
  | inl e ↦
      rw (Map.get-set s n m (Map.delete f i), e)
        (subst (λ z. Filed z (Map.delete f i)) (eq_of_beq n m e)
          (delete-Filed n i f (subst (λ o. Filed n (keys_of o)) h (v n))))
  | inr e ↦ rw (Map.get-set s n m (Map.delete f i), e) (v m)
]

pub deleted_valid : (n i : String) (s : Store) → Valid s → Valid (delete n i s)
unfolding delete
deleted_valid n i s v = deleted_valid_in (Map.get s n) n i s refl v
