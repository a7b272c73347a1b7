-- ===== src/Config/Merge.antt =====
-- What a merged configuration reads.
use secret_rotation_kit.Prelude.{
  subst, not, ◌&&◌, ◌≡◌, refl, ◌∙◌, sym, ap, inl, inr, true, false, ◌||◌, Option, String, ◌==◌,
  string_eq, if◌then◌else◌, Bool-cases, eq_of_beq, beq_self,
}
use secret_rotation_kit.Js.{
  JsValue, JsFields, undefined, null, boolean, fraction, not_finite, text, array, object, end,
  field, read, write,
}
use secret_rotation_kit.Config.{
  is_blocked, is_undefined, merge_value, deep_merge, defaults, given, create_config,
}

-- No key stands twice, as in every object.
abbrev pub Lacks : String → JsFields → Type 0
Lacks k end = Unit
Lacks k (field j v fs) = ((j == k) ≡ false) × Lacks k fs

abbrev pub IsDistinct : JsFields → Type 0
IsDistinct end = Unit
IsDistinct (field k v fs) = Lacks k fs × IsDistinct fs

read-Lacks : (fs : JsFields) (k : String) → Lacks k fs → read fs k ≡ undefined
read-Lacks end k h = refl
read-Lacks (field j v fs) k h = rw h.0 (read-Lacks fs k h.1)

read-write_self : (fs : JsFields) (k : String) (v : JsValue) → read (write fs k v) k ≡ v
read-write_self end k v = rw (beq_self k) refl
read-write_self (field j w fs) k v = elim (Bool-cases (j == k)) [
  | inl e ↦ rw (e, e) refl
  | inr e ↦ rw (e, e) (read-write_self fs k v)
]

read-write_ne :
    (fs : JsFields) (j k : String) (v : JsValue)
    → (j == k) ≡ false
    → read (write fs j v) k ≡ read fs k
read-write_ne end j k v h = rw h refl
read-write_ne (field i w fs) j k v h = elim (Bool-cases (i == j)) [
  | inl e ↦ let d : (i == k) ≡ false = ap (λ z. z == k) (eq_of_beq i j e) ∙ h in rw (e, d) refl
  | inr e ↦ rw (e, read-write_ne fs j k v h) refl
]

merge_value-undefined : (v tv : JsValue) → is_undefined v ≡ true → merge_value tv v ≡ tv
unfolding merge_value
merge_value-undefined undefined tv e = refl
merge_value-undefined null tv e = absurd cc
merge_value-undefined (boolean b) tv e = absurd cc
merge_value-undefined (fraction n d) tv e = absurd cc
merge_value-undefined not_finite tv e = absurd cc
merge_value-undefined (text s) tv e = absurd cc
merge_value-undefined (array xs) tv e = absurd cc
merge_value-undefined (object fs) tv e = absurd cc

-- What one key of the source does to a key of the result.
step :
    (t : JsFields) (j k : String) (v : JsValue)
    → read (if is_blocked j || is_undefined v then t else write t j (merge_value (read t j) v)) k
      ≡ (if (j == k) && not (is_blocked k) then merge_value (read t k) v else read t k)
step t j k v = elim (Bool-cases (j == k)) [
  | inr e ↦ elim (Bool-cases (is_blocked j || is_undefined v)) [
    | inl b ↦ rw (b, e) refl
    | inr b ↦ rw (b, e) (read-write_ne t j k _ e)
  ]
  | inl e ↦
      subst
        (λ i.
          read (if is_blocked j || is_undefined v then t else write t j (merge_value (read t j) v))
            i
          ≡ (if (j == i) && not (is_blocked i) then merge_value (read t i) v else read t i))
        (eq_of_beq j k e) (own t j v)
]
  where
    own :
        (t : JsFields) (j : String) (v : JsValue)
        → read
            (if is_blocked j || is_undefined v then t else write t j (merge_value (read t j) v))
            j
          ≡ (if (j == j) && not (is_blocked j) then merge_value (read t j) v else read t j)
    own t j v = rw (beq_self j) (elim (Bool-cases (is_blocked j)) [
      | inl b ↦ rw b refl
      | inr b ↦ rw b (elim (Bool-cases (is_undefined v)) [
        | inl u ↦ rw u (sym (merge_value-undefined v (read t j) u))
        | inr u ↦ rw u (read-write_self t j _)
      ])
    ])

pub read-deep_merge :
    (s t : JsFields) (k : String)
    → IsDistinct s
    → read (deep_merge t s) k
      ≡ (if is_blocked k then read t k else merge_value (read t k) (read s k))
unfolding merge_value
read-deep_merge end t k d = elim (Bool-cases (is_blocked k)) [
  | inl b ↦ rw b refl
  | inr b ↦ rw b refl
]
read-deep_merge (field j v s) t k d =
    let u = if is_blocked j || is_undefined v then t else write t j (merge_value (read t j) v) in
    let rest = read-deep_merge s u k d.1 in
    let q = step t j k v in
    elim (Bool-cases (is_blocked k)) [
      | inl b ↦ elim (Bool-cases (j == k)) [
        | inl e ↦ rest ∙ rw b (q ∙ rw (e, b) refl)
        | inr e ↦ rest ∙ rw b (q ∙ rw e refl)
      ]
      | inr b ↦ elim (Bool-cases (j == k)) [
        | inl e ↦
            let none_left : read s k ≡ undefined =
              read-Lacks s k (subst (λ i. Lacks i s) (eq_of_beq j k e) d.0) in
            rest ∙ rw (b, e, none_left) (q ∙ rw (e, b) refl)
        | inr e ↦ rest ∙ rw (b, e) (ap (λ x. merge_value x (read s k)) (q ∙ rw e refl))
      ]
    ]

-- For overrides whose keys are distinct: the configuration holds the given provider, and under every
-- other key what the merge of the default and the override under that key is, but the defaults alone
-- under the blocked keys `__proto__`, `constructor` and `prototype`.
pub read-create_config :
    (provider : JsValue) (overrides : Option JsFields) (k : String)
    → IsDistinct (given overrides)
    → read (create_config provider overrides) k ≡ (
        if "provider" == k
        then provider
        else if is_blocked k
        then read defaults k
        else merge_value (read defaults k) (read (given overrides) k))
unfolding create_config
read-create_config provider overrides k d = elim (Bool-cases ("provider" == k)) [
  | inl e ↦ rw e (
      subst
        (λ i. read (write (deep_merge defaults (given overrides)) "provider" provider) i ≡ provider)
        (eq_of_beq "provider" k e)
        (read-write_self (deep_merge defaults (given overrides)) "provider" provider))
  | inr e ↦ rw e (
      read-write_ne (deep_merge defaults (given overrides)) "provider" k provider e
      ∙ read-deep_merge (given overrides) defaults k d)
]
