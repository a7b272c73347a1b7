-- ===== src/Config/Sections.antt =====
-- The merge of the sections of a configuration, described apart from the code.
use secret_rotation_kit.Prelude.{
  ◌≡◌, ◌≢◌, refl, sym, ◌∙◌, subst, true, false, inl, inr, String, ◌==◌, string_eq, Option,
  Bool-cases,
}
use secret_rotation_kit.Js.{
  JsValue, JsFields, undefined, null, boolean, fraction, not_finite, text, array, object, end,
  field, read,
}
use secret_rotation_kit.Config.{is_blocked, merge_value, defaults, given, create_config}
use secret_rotation_kit.Config.Merge.{IsDistinct, read-deep_merge, read-create_config}

abbrev pub IsObject : JsValue → Type 0
IsObject (object fs) = Unit
IsObject v = ⊥

-- What a default and an override give. Two objects are joined key by key, but for the blocked keys, which
-- keep what the default has; any other override takes the place of the default, but undefined keeps it.
pub data IsMerge : JsValue → JsValue → JsValue → Type 0 where
  keeps : {tv : JsValue} → IsMerge tv undefined tv
  replaces : {tv sv : JsValue} → sv ≢ undefined → (IsObject tv → IsObject sv → ⊥) → IsMerge tv sv sv
  joins :
      {fs gs hs : JsFields}
      → ((j : String) → is_blocked j ≡ true → read hs j ≡ read fs j)
      → ((j : String) → is_blocked j ≡ false → IsMerge (read fs j) (read gs j) (read hs j))
      → IsMerge (object fs) (object gs) (object hs)

-- No key stands twice in an object, nor in the objects that it holds.
abbrev pub AllDistinct : JsFields → Type 0
AllDistinct end = Unit
AllDistinct (field k (object gs) fs) =
    IsDistinct (field k (object gs) fs) × IsDistinct gs × AllDistinct gs × AllDistinct fs
AllDistinct (field k v fs) = IsDistinct (field k v fs) × AllDistinct fs

-- The merge of the values under each key is a merge.
abbrev Merges : JsFields → Type 0
Merges gs = (tv : JsValue) (j : String) → IsMerge tv (read gs j) (merge_value tv (read gs j))

merge_value-IsMerge :
    (gs : JsFields) (tv : JsValue)
    → IsDistinct gs
    → Merges gs
    → IsMerge tv (object gs) (merge_value tv (object gs))
unfolding merge_value
merge_value-IsMerge gs (object fs) d m =
    joins (λ j b. read-deep_merge gs fs j d ∙ rw b refl)
      (λ j b.
        subst (IsMerge (read fs j) (read gs j)) (sym (read-deep_merge gs fs j d ∙ rw b refl))
          (m (read fs j) j))
merge_value-IsMerge gs undefined d m = replaces (λ e. cc) (λ a b. a)
merge_value-IsMerge gs null d m = replaces (λ e. cc) (λ a b. a)
merge_value-IsMerge gs (boolean b) d m = replaces (λ e. cc) (λ a b. a)
merge_value-IsMerge gs (fraction n k) d m = replaces (λ e. cc) (λ a b. a)
merge_value-IsMerge gs not_finite d m = replaces (λ e. cc) (λ a b. a)
merge_value-IsMerge gs (text s) d m = replaces (λ e. cc) (λ a b. a)
merge_value-IsMerge gs (array xs) d m = replaces (λ e. cc) (λ a b. a)

under :
    (k : String) (v : JsValue) (fs : JsFields)
    → ((tv : JsValue) → IsMerge tv v (merge_value tv v))
    → Merges fs
    → Merges (field k v fs)
under k v fs here rest tv j = elim (Bool-cases (k == j)) [
  | inl e ↦ rw e (here tv)
  | inr e ↦ rw e (rest tv j)
]

merges : (gs : JsFields) → AllDistinct gs → Merges gs
unfolding merge_value
merges end d = λ tv j. keeps
merges (field k (object gs) fs) d =
    under k (object gs) fs (λ tv. merge_value-IsMerge gs tv d.1 (merges gs d.2)) (merges fs d.3)
merges (field k undefined fs) d = under k undefined fs (λ tv. keeps) (merges fs d.1)
merges (field k null fs) d = under k null fs (λ tv. replaces (λ e. cc) (λ a b. b)) (merges fs d.1)
merges (field k (boolean b) fs) d =
    under k (boolean b) fs (λ tv. replaces (λ e. cc) (λ a b. b)) (merges fs d.1)
merges (field k (fraction n m) fs) d =
    under k (fraction n m) fs (λ tv. replaces (λ e. cc) (λ a b. b)) (merges fs d.1)
merges (field k not_finite fs) d =
    under k not_finite fs (λ tv. replaces (λ e. cc) (λ a b. b)) (merges fs d.1)
merges (field k (text s) fs) d =
    under k (text s) fs (λ tv. replaces (λ e. cc) (λ a b. b)) (merges fs d.1)
merges (field k (array xs) fs) d =
    under k (array xs) fs (λ tv. replaces (λ e. cc) (λ a b. b)) (merges fs d.1)

-- For overrides in whose objects, nested ones included, no key stands twice: the configuration holds the
-- given provider, the defaults alone under the blocked keys `__proto__`, `constructor` and `prototype`, and
-- under every other key the merge of the default and the override, where two objects are joined key by key
-- in the same way, at every depth, any other override takes the place of the default, and an undefined or
-- missing one keeps it.
pub create_config-IsMerge :
    (provider : JsValue) (overrides : Option JsFields)
    → IsDistinct (given overrides)
    → AllDistinct (given overrides)
    → (read (create_config provider overrides) "provider" ≡ provider)
      × ((k : String)
          → ("provider" == k) ≡ false
          → ((is_blocked k ≡ true) → read (create_config provider overrides) k ≡ read defaults k)
            × ((is_blocked k ≡ false)
                → IsMerge
                    (read defaults k)
                    (read (given overrides) k)
                    (read (create_config provider overrides) k)))
create_config-IsMerge provider overrides d all = (
  read-create_config provider overrides "provider" d,
  λ k n. (
    λ b. read-create_config provider overrides k d ∙ rw (n, b) refl,
    λ b.
        subst (IsMerge (read defaults k) (read (given overrides) k))
          (sym (read-create_config provider overrides k d ∙ rw (n, b) refl))
          (merges (given overrides) all (read defaults k) k),
  ),
)
