-- ===== src/KeyStore.antt =====
-- packages/types/src/interfaces.ts, `KeyStore`: the storage of keys as its clients see it, and the
-- laws that they rely on. Reads do not change the state, and `update` alone may throw.
pub mod InMemory
use secret_rotation_kit.Prelude.{
  ℕ, ◌≤◌, ◌≡◌, ◌≢◌, ◌↔◌, Bool, true, ◌&&◌, Option, none, some, List, String, ◌==◌, string_eq, In,
  if◌then◌else◌,
}
use secret_rotation_kit.Effect.{Eff, returned, thrown}
use secret_rotation_kit.Types.{SecretKey, active, revoked, failed, key_not_found}

pub record KeyStore (S : Type 0) : Type 0 where
  pub save : SecretKey → S → S
  pub get : S → String → String → Option SecretKey
  pub get_active : S → String → Option SecretKey
  pub get_valid : S → String → ℕ → List SecretKey
  pub update : SecretKey → Eff S (Unit {0})
  pub delete : String → String → S → S
  -- `list(secretName)`; an empty name lists every secret.
  pub list : S → String → List SecretKey

-- A key that may be used at a time: neither revoked nor failed, its validity begun and not ended.
abbrev pub NotEnded : Option ℕ → ℕ → Type 0
NotEnded none at = Unit
NotEnded (some t) at = at ≤ t

abbrev pub IsValidAt : ℕ → SecretKey → Type 0
IsValidAt at k =
    (k.status ≢ revoked) × (k.status ≢ failed) × NotEnded k.valid_until at × (k.valid_from ≤ at)

-- What a store promises in its states of `Valid`.
pub record KeyStoreLaws {S : Type 0} (ks : KeyStore S) (Valid : S → Type 0) : Type 0 where
  pub get_saved :
      (k : SecretKey) (s : S) (n i : String)
      → ks.get (ks.save k s) n i
        ≡ (if k.secret_name == n && k.key_id == i then some k else ks.get s n i)
  pub saved_valid : (k : SecretKey) (s : S) → Valid s → Valid (ks.save k s)
  pub update_found :
      (k : SecretKey) (s : S) {old : SecretKey}
      → ks.get s k.secret_name k.key_id ≡ some old
      → ks.update k s ≡ returned tt (ks.save k s)
  pub update_missing :
      (k : SecretKey) (s : S)
      → ks.get s k.secret_name k.key_id ≡ none
      → ks.update k s ≡ thrown (key_not_found k.secret_name k.key_id) s
  pub get_deleted :
      (n i : String) (s : S) (m j : String)
      → ks.get (ks.delete n i s) m j ≡ (if n == m && i == j then none else ks.get s m j)
  pub deleted_valid : (n i : String) (s : S) → Valid s → Valid (ks.delete n i s)
  pub valid_found :
      (s : S) (n : String) (at : ℕ) (k : SecretKey)
      → Valid s
      → In k (ks.get_valid s n at) ↔ ((ks.get s n k.key_id ≡ some k) × IsValidAt at k)
  pub filed :
      (s : S) (n i : String) {k : SecretKey}
      → Valid s
      → ks.get s n i ≡ some k
      → (k.secret_name ≡ n) × (k.key_id ≡ i)
  pub active_found :
      (s : S) (n : String) {k : SecretKey}
      → Valid s
      → ks.get_active s n ≡ some k
      → (ks.get s n k.key_id ≡ some k) × (k.status ≡ active)
  pub active_missing :
      (s : S) (n i : String) {k : SecretKey}
      → Valid s
      → ks.get_active s n ≡ none
      → ks.get s n i ≡ some k
      → k.status ≢ active
  pub listed :
      (s : S) (n : String) (k : SecretKey)
      → Valid s
      → n ≢ ""
      → In k (ks.list s n) ↔ (ks.get s n k.key_id ≡ some k)
