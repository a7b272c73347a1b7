-- ===== src/KeyStore/InMemory/Listing.antt =====
-- `list` with no name, which calls itself on every name.
use secret_rotation_kit.Prelude.{
  ℕ, zero, suc, ◌≡◌, refl, sym, inl, inr, true, Option, none, some, List, [], ◌∷◌, String, ◌==◌,
  string_eq, arith, Bool-cases, eq_of_beq, subst,
}
use secret_rotation_kit.Map
use secret_rotation_kit.Types.{SecretKey}
use secret_rotation_kit.KeyStore.InMemory.{Store, list, list_names}

list_names_stuck :
    (call : String → Option (List SecretKey)) (s : Store)
    → call "" ≡ none
    → Map.has s "" ≡ true
    → list_names call s ≡ none
unfolding list_names Map.has
list_names_stuck call [] c h = cc
list_names_stuck call ((n, m) ∷ rest) c h = elim (Bool-cases (n == "")) [
  | inl e ↦
      let q : call n ≡ none = subst (λ j. call j ≡ none) (sym (eq_of_beq n "" e)) c in
      rw (q, list_names)
  | inr e ↦ ground (arith, list_names_stuck call rest c (rw e at h))
]

list_stuck : (f : ℕ) (s : Store) → Map.has s "" ≡ true → list f s (some "") ≡ none
unfolding list
list_stuck zero s h = refl
list_stuck (suc f) s h = list_names_stuck (λ n. list f s (some n)) s (list_stuck f s h) h

-- Once a secret with the empty name has been saved, `list()` and `list("")` never end: no number of
-- nested calls gives a result.
pub list_empty_name :
    (f : ℕ) (s : Store) → Map.has s "" ≡ true → (list f s none ≡ none) × (list f s (some "") ≡ none)
unfolding list
list_empty_name zero s h = (refl, refl)
list_empty_name (suc f) s h =
    (list_names_stuck (λ n. list f s (some n)) s (list_stuck f s h) h, list_stuck (suc f) s h)
