-- ===== src/Validation/Depth.antt =====
-- Which metadata is accepted.

use secret_rotation_kit.Prelude.{
  ℕ, zero, suc, ◌≤◌, ◌<◌, ◌≡◌, refl, ◌∙◌, sym, ◌↔◌, inl, inr, true, ◌&&◌, Option, none, some, List,
  [], ◌∷◌, ◌++◌, ◌<>◌, String, if◌then◌else◌, ltb, arith, Bool-cases, and-true,
}
use secret_rotation_kit.Js.{
  JsValue, JsFields, text, undefined, null, boolean, fraction, not_finite, array, object, end,
  field, field_count,
}
use secret_rotation_kit.Validation.{
  is_empty, when, value_depth_errors, depth_errors, validate_metadata,
}

-- How many levels of objects the fields hold.
abbrev pub levels : JsFields → ℕ
levels end = 0
levels (field k (object gs) fs) =
    let inner = suc (levels gs) in let rest = levels fs in if ltb rest inner then inner else rest
levels (field k v fs) = levels fs

abbrev pub IsSmall : JsValue → Type 0
IsSmall undefined = Unit
IsSmall null = Unit
IsSmall (object fs) = (levels fs ≤ 5) × (field_count fs ≤ 50)
IsSmall v = ⊥

abbrev room : Option ℕ → ℕ
room none = 0
room (some n) = suc n

is_empty-append : (es ds : List String) → is_empty (es ++ ds) ≡ (is_empty es && is_empty ds)
is_empty-append [] ds = refl
is_empty-append (e ∷ es) ds = refl

both :
    {P Q : Type 0} (es ds : List String)
    → ((is_empty es ≡ true) ↔ P)
    → ((is_empty ds ≡ true) ↔ Q)
    → (is_empty (es ++ ds) ≡ true) ↔ (P × Q)
both es ds p q = (
  λ e.
      let (a, b) = and-true (is_empty es) (is_empty ds) (sym (is_empty-append es ds) ∙ e) in
      (p.0 a, q.0 b),
  λ h. is_empty-append es ds ∙ rw (p.1 h.0, q.1 h.1) refl,
)

deeper : (a b n : ℕ) → ((a < n) × (b ≤ n)) ↔ ((if ltb b (suc a) then suc a else b) ≤ n)
deeper a b n = (λ h. ground (arith, h.0, h.1), λ h. (ground arith, ground arith))

shallow :
    (left : Option ℕ) (fs : JsFields)
    → (is_empty (depth_errors fs left) ≡ true) ↔ (levels fs ≤ room left)
unfolding value_depth_errors
shallow left end = (λ e. omega arith, λ e. refl)
shallow none (field k (object gs) fs) = (
  λ e. absurd cc,
  λ l. let q = (deeper (levels gs) (levels fs) 0).1 l in absurd (omega (arith, q.0)),
)
shallow (some zero) (field k (object gs) fs) =
    let (f, g) =
      both (depth_errors gs none) (depth_errors fs (some zero)) (shallow none gs)
        (shallow (some zero) fs) in
    let (p, q) = deeper (levels gs) (levels fs) 1 in
    (
      λ e. let (x, y) = f e in p (omega (arith, x), y),
      λ l. let (x, y) = q l in g (omega (arith, x), y),
    )
shallow (some (suc n)) (field k (object gs) fs) =
    let (f, g) =
      both (depth_errors gs (some n)) (depth_errors fs (some (suc n))) (shallow (some n) gs)
        (shallow (some (suc n)) fs) in
    let (p, q) = deeper (levels gs) (levels fs) (suc (suc n)) in
    (
      λ e. let (x, y) = f e in p (omega (arith, x), y),
      λ l. let (x, y) = q l in g (omega (arith, x), y),
    )
shallow left (field k undefined fs) = shallow left fs
shallow left (field k null fs) = shallow left fs
shallow left (field k (boolean b) fs) = shallow left fs
shallow left (field k (fraction n d) fs) = shallow left fs
shallow left (field k not_finite fs) = shallow left fs
shallow left (field k (text s) fs) = shallow left fs
shallow left (field k (array xs) fs) = shallow left fs

few : (n : ℕ) (e : String) → (is_empty (when (ltb 50 n) e) ≡ true) ↔ (n ≤ 50)
few n e = elim (Bool-cases (ltb 50 n)) [
  | inl q ↦ rw q (λ h. absurd cc, λ l. absurd (ground arith))
  | inr q ↦ rw q (λ h. ground arith, λ l. refl)
]

-- Among the values that are trees, where no object is reached twice, what `validateMetadata` accepts are
-- undefined, null, and the objects of at most 50 keys that hold at most five more levels of objects, those
-- within arrays not counted; and nothing else.
pub validate_metadata-IsSmall :
    (print : ℕ → String) (v : JsValue) → ((validate_metadata print v).valid ≡ true) ↔ IsSmall v
unfolding validate_metadata value_depth_errors
validate_metadata-IsSmall print (object fs) =
    both (depth_errors fs (some 4))
      (when (ltb 50 (field_count fs))
        ("Metadata must have at most 50 keys, got " <> print (field_count fs)))
      (shallow (some 4) fs)
      (few (field_count fs) ("Metadata must have at most 50 keys, got " <> print (field_count fs)))
validate_metadata-IsSmall print undefined = (λ e. tt, λ n. refl)
validate_metadata-IsSmall print null = (λ e. tt, λ n. refl)
validate_metadata-IsSmall print (text s) = (λ e. absurd cc, λ n. absurd n)
validate_metadata-IsSmall print (boolean b) = (λ e. absurd cc, λ n. absurd n)
validate_metadata-IsSmall print (fraction n d) = (λ e. absurd cc, λ n. absurd n)
validate_metadata-IsSmall print not_finite = (λ e. absurd cc, λ n. absurd n)
validate_metadata-IsSmall print (array xs) = (λ e. absurd cc, λ n. absurd n)
