-- ===== src/FileStore/Entries.antt =====
-- Files as maps of keys: dates and JSON, and the entries after a write.
use mathlib.Core.Option
use secret_rotation_kit.Prelude.{
  ℕ, ◌≡◌, refl, sym, ap, subst, Option, none, some, [], ◌∷◌, String, ◌==◌, string_eq, map, All,
  Bool-cases, inl, inr, eq_of_beq,
}
use secret_rotation_kit.Map
use secret_rotation_kit.Map.{Map}
use secret_rotation_kit.Types.{SecretKey}
use secret_rotation_kit.KeyStore.InMemory.{values}
use secret_rotation_kit.FileStore.Format.{
  SerializedKey, SecretFile, Runtime, serialize_key, deserialize_key,
}

-- A file in which each id stands once, and whose entries satisfy a predicate.
pub record IsFile (IsEntry : String → SerializedKey → Type 0) (f : SecretFile) : Type 0 where
  pub unique : Map.KeysUnique f
  pub plain : All (λ e. IsEntry e.0 e.1) f

-- What is documented of dates and of JSON: an object gives back its entries, in their order, where
-- they satisfy a predicate, such as having no dates in their metadata, and ids that are no array indices.
pub record JsonLaws (r : Runtime) (IsEntry : String → SerializedKey → Type 0) : Type 0 where
  pub date_iso : (t : ℕ) → r.date (r.iso t) ≡ t
  pub parsed : (f : SecretFile) → IsFile IsEntry f → r.parse (r.stringify f) ≡ some f

module _ (r : Runtime) (dates : (t : ℕ) → r.date (r.iso t) ≡ t) where
  same_date : (o : Option ℕ) → Option.map r.date (Option.map r.iso o) ≡ o
  same_date none = refl
  same_date (some t) = ap some (dates t)

  pub deserialize-serialize : (k : SecretKey) → deserialize_key r (serialize_key r k) ≡ k
  unfolding serialize_key deserialize_key
  deserialize-serialize k =
      rw
        (
          dates k.valid_from,
          dates k.created_at,
          same_date k.valid_until,
          same_date k.rotated_at,
          same_date k.revoked_at,
        )
        refl

module _ (r : Runtime) where
  -- The keys of a file, under their ids.
  abbrev pub keys_by_id : SecretFile → Map String SecretKey
  keys_by_id [] = []
  keys_by_id ((i, s) ∷ f) = (i, deserialize_key r s) ∷ keys_by_id f

  pub get-keys_by_id :
      (f : SecretFile) (i : String)
      → Map.get (keys_by_id f) i ≡ Option.map (deserialize_key r) (Map.get f i)
  unfolding Map.get
  get-keys_by_id [] i = refl
  get-keys_by_id ((j, s) ∷ f) i = elim (Bool-cases (j == i)) [
    | inl e ↦ rw e refl
    | inr e ↦ rw e (get-keys_by_id f i)
  ]

  pub keys_by_id-set :
      (f : SecretFile) (i : String) (s : SerializedKey)
      → keys_by_id (Map.set f i s) ≡ Map.set (keys_by_id f) i (deserialize_key r s)
  unfolding Map.set
  keys_by_id-set [] i s = refl
  keys_by_id-set ((j, t) ∷ f) i s = elim (Bool-cases (j == i)) [
    | inl e ↦ rw e refl
    | inr e ↦ rw e (ap (λ m. (j, deserialize_key r t) ∷ m) (keys_by_id-set f i s))
  ]

  pub keys_by_id-delete :
      (f : SecretFile) (i : String) → keys_by_id (Map.delete f i) ≡ Map.delete (keys_by_id f) i
  unfolding Map.delete
  keys_by_id-delete [] i = refl
  keys_by_id-delete ((j, t) ∷ f) i = elim (Bool-cases (j == i)) [
    | inl e ↦ rw e (keys_by_id-delete f i)
    | inr e ↦ rw e (ap (λ m. (j, deserialize_key r t) ∷ m) (keys_by_id-delete f i))
  ]

  pub values-keys_by_id :
      (f : SecretFile) → values (keys_by_id f) ≡ map (λ e. deserialize_key r e.1) f
  values-keys_by_id [] = refl
  values-keys_by_id ((i, s) ∷ f) = ap (λ ks. deserialize_key r s ∷ ks) (values-keys_by_id f)

module _ (IsEntry : String → SerializedKey → Type 0) where
  plain-set :
      (f : SecretFile) (i : String) (s : SerializedKey)
      → All (λ e. IsEntry e.0 e.1) f
      → IsEntry i s
      → All (λ e. IsEntry e.0 e.1) (Map.set f i s)
  unfolding Map.set
  plain-set [] i s a p = (p, tt)
  plain-set ((j, t) ∷ f) i s a p = elim (Bool-cases (j == i)) [
    | inl e ↦ rw e (subst (λ x. IsEntry x s) (sym (eq_of_beq j i e)) p, a.1)
    | inr e ↦ rw e (a.0, plain-set f i s a.1 p)
  ]

  plain-delete :
      (f : SecretFile) (i : String)
      → All (λ e. IsEntry e.0 e.1) f
      → All (λ e. IsEntry e.0 e.1) (Map.delete f i)
  unfolding Map.delete
  plain-delete [] i a = tt
  plain-delete ((j, t) ∷ f) i a = elim (Bool-cases (j == i)) [
    | inl e ↦ rw e (plain-delete f i a.1)
    | inr e ↦ rw e (a.0, plain-delete f i a.1)
  ]

  pub set-IsFile :
      (f : SecretFile) (i : String) (s : SerializedKey)
      → IsFile IsEntry f
      → IsEntry i s
      → IsFile IsEntry (Map.set f i s)
  set-IsFile f i s h p = record {
    unique = Map.set-KeysUnique f i s h.unique;
    plain = plain-set f i s h.plain p;
  }

  pub delete-IsFile :
      (f : SecretFile) (i : String) → IsFile IsEntry f → IsFile IsEntry (Map.delete f i)
  delete-IsFile f i h = record {
    unique = Map.delete-KeysUnique f i h.unique;
    plain = plain-delete f i h.plain;
  }
