-- ===== src/KeyStore/InMemory.antt =====
-- packages/core/src/in-memory-key-store.ts. Each method runs under the lock of its secret (`Lock`),
-- so it is one step on the map of maps.
pub mod Filing
pub mod Laws
pub mod Listing
use secret_rotation_kit.Prelude.{
  ℕ, zero, suc, Bool, true, false, ◌&&◌, ◌||◌, Option, none, some, List, [], ◌∷◌, ◌++◌, String,
  ◌==◌, string_eq, if◌then◌else◌, leb, ltb, map, filter, head?,
}
use secret_rotation_kit.Map
use secret_rotation_kit.Map.{Map}
use secret_rotation_kit.Sort.{sort}
use secret_rotation_kit.Effect.{Eff, returned, thrown}
use secret_rotation_kit.Types.{
  SecretKey, KeyStatus, is_active, is_revoked, is_failed, key_not_found,
}

abbrev pub Keys : Type 0
Keys = Map String SecretKey

-- The field `store`.
abbrev pub Store : Type 0
Store = Map String Keys

-- `Array.from(keys.values())`.
abbrev pub values : Keys → List SecretKey
values m = map (λ e. e.1) m

-- `this.store.get(secretName)`, where an absent map behaves like an empty one.
abbrev pub keys_of : Option Keys → Keys
keys_of none = []
keys_of (some m) = m

unfoldable pub save : SecretKey → Store → Store
save key s =
    Map.set s key.secret_name (Map.set (keys_of (Map.get s key.secret_name)) key.key_id key)

unfoldable pub get : Store → String → String → Option SecretKey
get s name id = Map.get (keys_of (Map.get s name)) id

-- The comparator `(a, b) => b.createdAt - a.createdAt`: `a` may stand first.
abbrev pub newest_first : SecretKey → SecretKey → Bool
newest_first a b = leb b.created_at a.created_at

unfoldable pub get_active : Store → String → Option SecretKey
get_active s name =
    head? (sort newest_first (filter (λ k. is_active k.status) (values (keys_of (Map.get s name)))))

-- `validUntil && validUntil < at`; a `Date` object is truthy.
abbrev pub ended_before : Option ℕ → ℕ → Bool
ended_before none at = false
ended_before (some t) at = ltb t at

unfoldable pub is_valid_at : ℕ → SecretKey → Bool
is_valid_at at k =
    if is_revoked k.status || is_failed k.status
    then false
    else if ended_before k.valid_until at
    then false
    else leb k.valid_from at

unfoldable pub get_valid : Store → String → ℕ → List SecretKey
get_valid s name at =
    sort newest_first (filter (is_valid_at at) (values (keys_of (Map.get s name))))

update_in : Option Keys → SecretKey → Eff Store (Unit {0})
update_in none key s = thrown (key_not_found key.secret_name key.key_id) s
update_in (some m) key s =
    if Map.has m key.key_id
    then returned tt (Map.set s key.secret_name (Map.set m key.key_id key))
    else thrown (key_not_found key.secret_name key.key_id) s

unfoldable pub update : SecretKey → Eff Store (Unit {0})
unfolding update_in
update key s = update_in (Map.get s key.secret_name) key s

pub delete_in : Option Keys → String → String → Store → Store
delete_in none name id s = s
delete_in (some m) name id s = Map.set s name (Map.delete m id)

unfoldable pub delete : String → String → Store → Store
unfolding delete_in
delete name id s = delete_in (Map.get s name) name id s

-- The loop over `this.store.keys()`, which calls `list` on each name.
list_names : (String → Option (List SecretKey)) → Store → Option (List SecretKey)
list_names call [] = some []
list_names call ((name, m) ∷ rest) = elim (call name) [
  | none ↦ none
  | some keys ↦ elim (list_names call rest) [ none ↦ none | some more ↦ some (keys ++ more) ]
]

unfoldable pub list_by :
    (String → Option (List SecretKey)) → Store → Option String → Option (List SecretKey)
unfolding list_names
list_by call s none = list_names call s
list_by call s (some name) =
    if name == "" then list_names call s else some (values (keys_of (Map.get s name)))

-- An empty name is falsy, as an absent one, and the loop calls the method again on each name: the
-- fuel bounds the depth of the calls, and `none` says that it was not enough.
unfoldable pub list : ℕ → Store → Option String → Option (List SecretKey)
unfolding list_by
list zero s name = none
list (suc f) s name = list_by (λ n. list f s (some n)) s name

-- `list(secretName)`; two calls are enough, unless a secret has the empty name.
abbrev pub list_named : Store → String → List SecretKey
list_named s name = elim (list 2 s (some name)) [ none ↦ [] | some keys ↦ keys ]

-- `clear`: what is left after the loop and `this.store.clear()`.
unfoldable pub clear : Store → Store
clear s = []
