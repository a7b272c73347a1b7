-- ===== src/KeyStore/InMemory/Laws.antt =====
-- The in-memory store keeps the promises of the interface.
use secret_rotation_kit.Prelude.{
  of_some, ℕ, ◌≤◌, false, ◌||◌, ltb, leb, ltb→lt, ltb_false→le, leb→le, le→leb, ◌≡◌, refl, sym, ap,
  ◌≢◌, ◌↔◌, inl, inr, true, Option, none, some, List, [], ◌∷◌, String, subst, ◌==◌, string_eq,
  if◌then◌else◌, arith, In, here, In-filter, filter-In, head?, Bool-cases, eq_of_beq,
}
use secret_rotation_kit.Map
use secret_rotation_kit.Map.{Map}
use secret_rotation_kit.Sort.{sort-In, In-sort}
use secret_rotation_kit.Effect.{returned, thrown}
use secret_rotation_kit.Types.{
  SecretKey, KeyStatus, pending, expired, revoked, failed, is_revoked, is_failed, is_active, active,
  key_not_found,
}
use secret_rotation_kit.KeyStore.{KeyStore, KeyStoreLaws, NotEnded, IsValidAt}
use secret_rotation_kit.KeyStore.InMemory.{
  Keys, Store, values, keys_of, save, get, get_active, get_valid, update, delete, list, update_in,
  is_valid_at, ended_before, list_named, newest_first,
}
pub use secret_rotation_kit.KeyStore.InMemory.Filing.{
  Filed, Valid, get_saved, saved_valid, values_iff,
}
use secret_rotation_kit.KeyStore.InMemory.Filing.{get_deleted, deleted_valid}

update_in_found :
    (o : Option Keys) (k : SecretKey) (s : Store) {old : SecretKey}
    → Map.get (keys_of o) k.key_id ≡ some old
    → update_in o k s ≡ returned tt (Map.set s k.secret_name (Map.set (keys_of o) k.key_id k))
unfolding update_in Map.get
update_in_found none k s {old} h = cc
update_in_found (some m) k s h = rw (Map.has_found m k.key_id h)

update_in_missing :
    (o : Option Keys) (k : SecretKey) (s : Store)
    → Map.get (keys_of o) k.key_id ≡ none
    → update_in o k s ≡ thrown (key_not_found k.secret_name k.key_id) s
unfolding update_in
update_in_missing none k s h = refl
update_in_missing (some m) k s h = rw (Map.has_missing m k.key_id h)

pub update_found :
    (k : SecretKey) (s : Store) {old : SecretKey}
    → get s k.secret_name k.key_id ≡ some old
    → update k s ≡ returned tt (save k s)
unfolding get update save
update_found k s h = update_in_found (Map.get s k.secret_name) k s h

pub update_missing :
    (k : SecretKey) (s : Store)
    → get s k.secret_name k.key_id ≡ none
    → update k s ≡ thrown (key_not_found k.secret_name k.key_id) s
unfolding get update
update_missing k s h = update_in_missing (Map.get s k.secret_name) k s h

head?-In : (xs : List SecretKey) {a : SecretKey} → head? xs ≡ some a → In a xs
head?-In [] {a} h = cc
head?-In (x ∷ xs) h = here (sym (of_some h))

head?-empty : (xs : List SecretKey) → head? xs ≡ none → (a : SecretKey) → In a xs → ⊥
head?-empty [] h a m = elim m [ ]
head?-empty (x ∷ xs) h a m = cc

active_of : (t : KeyStatus) → is_active t ≡ true → t ≡ active
active_of t h = ground arith

pub active_found :
    (s : Store) (n : String) {k : SecretKey}
    → Valid s
    → get_active s n ≡ some k
    → (get s n k.key_id ≡ some k) × (k.status ≡ active)
unfolding get_active get
active_found s n {k} v h =
    let m = keys_of (Map.get s n) in
    let r =
      In-filter (λ x. is_active x.status) (values m) k (sort-In newest_first _ k (head?-In _ h)) in
    ((values_iff n m k (v n)).0 r.0, active_of _ r.1)

pub active_missing :
    (s : Store) (n i : String) {k : SecretKey}
    → Valid s
    → get_active s n ≡ none
    → get s n i ≡ some k
    → k.status ≢ active
unfolding get_active get
active_missing s n i {k} v h e a =
    let m = keys_of (Map.get s n) in
    let q : Map.get m k.key_id ≡ some k =
      subst (λ j. Map.get m j ≡ some k) (sym ((v n).named i e).1) e in
    head?-empty _ h k (
      In-sort newest_first _ k (
        filter-In (λ x. is_active x.status) (values m) k ((values_iff n m k (v n)).1 q)
          (ap is_active a)))

pub list_named_lem :
    (s : Store) (n : String) → n ≢ "" → list_named s n ≡ values (keys_of (Map.get s n))
unfolding list
list_named_lem s n ne = elim (Bool-cases (n == "")) [
  | inl e ↦ absurd (ne (eq_of_beq n "" e))
  | inr e ↦ rw (e, list_named)
]

pub listed :
    (s : Store) (n : String) (k : SecretKey)
    → Valid s
    → n ≢ ""
    → (In k (list_named s n)) ↔ (get s n k.key_id ≡ some k)
unfolding get
listed s n k v ne = rw (list_named_lem s n ne) (values_iff n (keys_of (Map.get s n)) k (v n))

usable :
    {at : ℕ} (t : KeyStatus) (u : Option ℕ) (f : ℕ)
    → (is_revoked t || is_failed t) ≡ false
    → t ≢ revoked
    → t ≢ failed
    → ((if is_revoked t || is_failed t
          then false
          else if ended_before u at
          then false
          else leb f at)
        ≡ true)
      ↔ ((t ≢ revoked) × (t ≢ failed) × NotEnded u at × (f ≤ at))
usable {at} t none f e r q = rw e (λ h. (r, q, tt, leb→le f at h), λ h. le→leb f at h.3)
usable {at} t (some u) f e r q = elim (Bool-cases (ltb u at)) [
  | inl b ↦ rw (e, b) (λ h. absurd cc, λ h. absurd (omega (arith, ltb→lt u at b, h.2)))
  | inr b ↦ rw (e, b) (λ h. (r, q, ltb_false→le u at b, leb→le f at h), λ h. le→leb f at h.3)
]

is_valid_at-IsValidAt : (at : ℕ) (k : SecretKey) → (is_valid_at at k ≡ true) ↔ IsValidAt at k
unfolding is_valid_at
is_valid_at-IsValidAt at k = go k.status k.valid_until k.valid_from
  where
    go :
        (t : KeyStatus) (u : Option ℕ) (f : ℕ)
        → ((if is_revoked t || is_failed t
              then false
              else if ended_before u at
              then false
              else leb f at)
            ≡ true)
          ↔ ((t ≢ revoked) × (t ≢ failed) × NotEnded u at × (f ≤ at))
    go revoked u f = (λ e. absurd cc, λ h. absurd (h.0 refl))
    go failed u f = (λ e. absurd cc, λ h. absurd (h.1 refl))
    go pending u f = usable pending u f refl (λ e. cc) (λ e. cc)
    go active u f = usable active u f refl (λ e. cc) (λ e. cc)
    go expired u f = usable expired u f refl (λ e. cc) (λ e. cc)

valid_found :
    (s : Store) (n : String) (at : ℕ) (k : SecretKey)
    → Valid s
    → In k (get_valid s n at) ↔ ((get s n k.key_id ≡ some k) × IsValidAt at k)
unfolding get_valid get
valid_found s n at k v =
    let m = keys_of (Map.get s n) in
    (
      λ h.
          let (a, b) = In-filter (is_valid_at at) (values m) k (sort-In newest_first _ k h) in
          let q = (is_valid_at-IsValidAt at k).0 b in ((values_iff n m k (v n)).0 a, q),
      λ h. In-sort newest_first _ k (
          filter-In (is_valid_at at) (values m) k ((values_iff n m k (v n)).1 h.0)
            ((is_valid_at-IsValidAt at k).1 h.1)),
    )

-- The in-memory store as an implementation of the interface.
abbrev pub in_memory : KeyStore Store
in_memory = record {
  save = save;
  get = get;
  get_active = get_active;
  get_valid = get_valid;
  update = update;
  delete = delete;
  list = list_named;
}

-- In the states where each key is filed once, under its own names, and these are kept by each write, the
-- in-memory store behaves as its interface says: `get` gives after `save`, and after `update` of a key that
-- is there, the key that was written, and nothing for a key after `delete` of it, and every other key as
-- before; `update` of a missing key throws that it is not there, and changes nothing; `getActive` gives a
-- key that is there and active, and none only where none is; the keys of `getValid` are those there that are
-- neither revoked nor failed, and whose validity has begun and not ended; and those of `list` for a
-- non-empty name are all there.
pub in_memory-KeyStoreLaws : KeyStoreLaws in_memory Valid
unfolding get
in_memory-KeyStoreLaws = record {
  get_saved = get_saved;
  saved_valid = saved_valid;
  update_found = λ k s h. update_found k s h;
  update_missing = update_missing;
  get_deleted = get_deleted;
  deleted_valid = deleted_valid;
  valid_found = valid_found;
  filed = λ s n i v e. (v n).named i e;
  active_found = λ s n v h. active_found s n v h;
  active_missing = λ s n i v h e. active_missing s n i v h e;
  listed = listed;
}

pub empty_valid : Valid []
unfolding Map.get
empty_valid n = record { unique = tt; named = λ i {k = k} h. cc }
