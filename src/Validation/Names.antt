-- ===== src/Validation/Names.antt =====
-- Which names are accepted.
use secret_rotation_kit.Prelude.{
  ℕ, zero, suc, ◌≤◌, ◌<◌, ◌≡◌, refl, ◌↔◌, inl, inr, true, false, List, [], ◌∷◌, String, ltb, length,
  All, arith, Bool-cases, and-true,
}
use secret_rotation_kit.Js.{
  JsValue, text, codes, units, undefined, null, boolean, fraction, not_finite, array, object,
}
use secret_rotation_kit.Validation.{
  is_empty, between, is_alphanumeric, is_name_char, matches_rest, matches_pattern, name_errors,
  validate_secret_name,
}

-- One to 128 characters: letters, digits, dots, underscores and hyphens, the first a letter or a digit.
abbrev pub IsName : List ℕ → Type 0
IsName [] = ⊥
IsName (c ∷ cs) =
    (is_alphanumeric c ≡ true) × All (λ d. is_name_char d ≡ true) cs × (length cs < 128)

abbrev pub IsSecretName : JsValue → Type 0
IsSecretName (text s) = IsName (codes s)
IsSecretName v = ⊥

between_small : (lo hi c : ℕ) → hi < 65536 → between lo hi c ≡ true → ltb c 65536 ≡ true
between_small lo hi c h e = ground arith

one_unit : (c : ℕ) → is_name_char c ≡ true → ltb c 65536 ≡ true
one_unit c h = ground arith

units_of : (cs : List ℕ) → All (λ d. is_name_char d ≡ true) cs → units cs ≡ length cs
units_of [] h = refl
units_of (c ∷ cs) h = rw (one_unit c h.0) (omega (arith, units_of cs h.1))

rest_matches :
    (m : ℕ) (cs : List ℕ)
    → All (λ d. is_name_char d ≡ true) cs
    → length cs ≤ m
    → matches_rest m cs ≡ true
rest_matches m [] a l = refl
rest_matches zero (c ∷ cs) a l = absurd (omega arith)
rest_matches (suc m) (c ∷ cs) a l = rw a.0 (rest_matches m cs a.1 (omega arith))

matched :
    (m : ℕ) (cs : List ℕ)
    → matches_rest m cs ≡ true
    → All (λ d. is_name_char d ≡ true) cs × (length cs ≤ m)
matched m [] e = (tt, omega arith)
matched zero (c ∷ cs) e = absurd cc
matched (suc m) (c ∷ cs) e =
    let (a, b) = and-true (is_name_char c) (matches_rest m cs) e in
    let (p, q) = matched m cs b in ((a, p), omega arith)

named : (cs : List ℕ) → IsName cs → (ltb 128 (units cs) ≡ false) × (matches_pattern cs ≡ true)
named [] n = absurd n
named (c ∷ cs) n =
    let (h, a, l) = n in
    let first : is_name_char c ≡ true = rw h refl in
    let u : units (c ∷ cs) ≡ length (c ∷ cs) = units_of (c ∷ cs) (first, a) in
    (rw u (ground arith), rw h (rest_matches 127 cs a (omega arith)))

-- What validateSecretName accepts are the texts of one to 128 letters, digits, dots, underscores and
-- hyphens that start with a letter or a digit, and nothing else. Both tests of the length agree, though
-- one counts UTF-16 units.
pub validate_secret_name-IsSecretName :
    (print : ℕ → String) (v : JsValue)
    → ((validate_secret_name print v).valid ≡ true) ↔ IsSecretName v
unfolding validate_secret_name
validate_secret_name-IsSecretName print (text s) = accepts (codes s)
  where
    accepts : (cs : List ℕ) → (is_empty (name_errors print cs) ≡ true) ↔ IsName cs
    accepts [] = (λ e. absurd cc, λ n. absurd n)
    accepts (c ∷ cs) = (from (c ∷ cs), λ n. let (a, b) = named (c ∷ cs) n in rw (a, b) refl)
      where
        from : (ds : List ℕ) → is_empty (name_errors print ds) ≡ true → IsName ds
        from [] e = absurd cc
        from (d ∷ ds) e = elim (Bool-cases (ltb 128 (units (d ∷ ds)))) [
          | inl q ↦ absurd (let r = rw q at e in cc)
          | inr q ↦ elim (Bool-cases (matches_pattern (d ∷ ds))) [
            | inl m ↦
                let (h, r) = and-true (is_alphanumeric d) (matches_rest 127 ds) m in
                let (a, l) = matched 127 ds r in (h, a, omega arith)
            | inr m ↦ absurd (let r = rw (q, m) at e in cc)
          ]
        ]
validate_secret_name-IsSecretName print undefined = (λ e. absurd cc, λ n. absurd n)
validate_secret_name-IsSecretName print null = (λ e. absurd cc, λ n. absurd n)
validate_secret_name-IsSecretName print (boolean b) = (λ e. absurd cc, λ n. absurd n)
validate_secret_name-IsSecretName print (fraction n d) = (λ e. absurd cc, λ n. absurd n)
validate_secret_name-IsSecretName print not_finite = (λ e. absurd cc, λ n. absurd n)
validate_secret_name-IsSecretName print (array xs) = (λ e. absurd cc, λ n. absurd n)
validate_secret_name-IsSecretName print (object fs) = (λ e. absurd cc, λ n. absurd n)
