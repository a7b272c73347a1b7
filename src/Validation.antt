-- ===== src/Validation.antt =====
-- packages/core/src/input-validator.ts. Values are trees, so that no object is visited twice.
pub mod Names
pub mod Depth
use secret_rotation_kit.Prelude.{
  ℕ, zero, suc, ◌+◌, ◌*◌, ◌<>◌, Bool, true, false, not, ◌&&◌, ◌||◌, Option, none, some, List, [],
  ◌∷◌, ◌++◌, String, if◌then◌else◌, ltb, leb, nat_beq,
}
use secret_rotation_kit.Prelude.Int.{ℤ, pos, negsuc}
use secret_rotation_kit.Effect.{Error, Eff, returned, thrown, plain_error}
use secret_rotation_kit.Js.{
  JsValue, JsFields, undefined, null, boolean, fraction, not_finite, text, array, object, end,
  field, type_name, codes, units, field_count,
}

pub record ValidationResult : Type 0 where
  pub valid : Bool
  pub errors : List String

abbrev pub is_empty : List String → Bool
is_empty [] = true
is_empty (e ∷ es) = false

-- `return { valid: errors.length === 0, errors }`.
abbrev pub result_of : List String → ValidationResult
result_of es = record { valid = is_empty es; errors = es }

abbrev pub between : ℕ → ℕ → ℕ → Bool
between lo hi c = leb lo c && leb c hi

-- `[a-zA-Z0-9]`, and with `[._-]`.
abbrev pub is_alphanumeric : ℕ → Bool
is_alphanumeric c = between b'a' b'z' c || between b'A' b'Z' c || between b'0' b'9' c

abbrev pub is_name_char : ℕ → Bool
is_name_char c = is_alphanumeric c || nat_beq c b'.' || nat_beq c b'_' || nat_beq c b'-'

-- `[a-zA-Z0-9._-]{0,m}$`.
abbrev pub matches_rest : ℕ → List ℕ → Bool
matches_rest m [] = true
matches_rest zero (c ∷ cs) = false
matches_rest (suc m) (c ∷ cs) = is_name_char c && matches_rest m cs

-- SECRET_NAME_PATTERN.
abbrev pub matches_pattern : List ℕ → Bool
matches_pattern [] = false
matches_pattern (c ∷ cs) = is_alphanumeric c && matches_rest 127 cs

abbrev pub when : Bool → String → List String
when true e = e ∷ []
when false e = []

abbrev pub bad_pattern : String
bad_pattern =
    "Secret name must start with alphanumeric and contain only alphanumeric, dots, underscores, or hyphens"

module _ (print : ℕ → String) where
  abbrev pub name_errors : List ℕ → List String
  name_errors [] = "Secret name must not be empty" ∷ []
  name_errors (c ∷ cs) =
      when (ltb 128 (units (c ∷ cs)))
        ("Secret name must be at most 128 characters, got " <> print (units (c ∷ cs)))
      ++ when (not (matches_pattern (c ∷ cs))) bad_pattern

  unfoldable pub validate_secret_name : JsValue → ValidationResult
  validate_secret_name (text s) = result_of (name_errors (codes s))
  validate_secret_name v = result_of (("Secret name must be a string, got " <> type_name v) ∷ [])

abbrev pub max_metadata_keys : ℕ
max_metadata_keys = 50

-- `checkObjectDepth`: the errors that it adds, for an object at a depth and for its fields. `left` is
-- what `maxDepth` leaves below the fields.
abbrev pub too_deep : String
too_deep = "Metadata exceeds maximum depth of 5"

unfoldable mutual
  pub value_depth_errors : JsValue → Option ℕ → List String
  value_depth_errors (object fs) none = too_deep ∷ []
  value_depth_errors (object fs) (some zero) = depth_errors fs none
  value_depth_errors (object fs) (some (suc left)) = depth_errors fs (some left)
  value_depth_errors _ left = []

  pub depth_errors : JsFields → Option ℕ → List String
  depth_errors end left = []
  depth_errors (field k v fs) left = value_depth_errors v left ++ depth_errors fs left

unfoldable pub validate_metadata : (ℕ → String) → JsValue → ValidationResult
unfolding value_depth_errors
validate_metadata print undefined = result_of []
validate_metadata print null = result_of []
validate_metadata print (object fs) = result_of (
    value_depth_errors (object fs) (some 5)
    ++ when (ltb max_metadata_keys (field_count fs))
        ("Metadata must have at most 50 keys, got " <> print (field_count fs)))
validate_metadata print v = result_of ("Metadata must be a plain object" ∷ [])

-- A fraction below a whole number, and at most it.
abbrev pub is_below : ℤ → ℕ → ℕ → Bool
is_below (pos n) d k = ltb n (k * suc d)
is_below (negsuc n) d k = true

abbrev pub is_at_most : ℤ → ℕ → ℕ → Bool
is_at_most (pos n) d k = leb n (k * suc d)
is_at_most (negsuc n) d k = true

abbrev pub is_negative : ℤ → Bool
is_negative (pos n) = false
is_negative (negsuc n) = true

-- `show` prints a number as a template literal does.
unfoldable pub validate_interval : (ℤ → ℕ → String) → JsValue → ValidationResult
validate_interval show (fraction n d) = result_of (
    when (is_at_most n d 0) ("Interval must be positive, got " <> show n d)
    ++ when (is_below n d 1000) ("Interval must be at least 1000ms (1 second), got " <> show n d))
validate_interval show v =
    result_of (("Interval must be a finite number, got " <> type_name v) ∷ [])

unfoldable pub validate_coverage : (ℤ → ℕ → String) → JsValue → ValidationResult
validate_coverage show (fraction n d) = result_of (
    when (is_negative n || not (is_at_most n d 1))
      ("Coverage must be between 0 and 1, got " <> show n d))
validate_coverage show v =
    result_of (("Coverage must be a finite number, got " <> type_name v) ∷ [])

-- `errors.join('; ')`.
abbrev pub joined : List String → String
joined [] = ""
joined (e ∷ []) = e
joined (e ∷ d ∷ es) = e <> "; " <> joined (d ∷ es)

abbrev pub prefix_of : Option String → String
prefix_of none = ""
prefix_of (some c) = c <> ": "

unfoldable pub assert_valid : {S : Type 0} → ValidationResult → Option String → Eff S (Unit {0})
assert_valid r context s =
    if not r.valid
    then thrown (plain_error (prefix_of context <> joined r.errors)) s
    else returned tt s
