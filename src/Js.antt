-- ===== src/Js.antt =====
-- Values of JavaScript as the validators and the configuration see them: trees, with no cycles and no
-- sharing. A finite number is a fraction, and text is measured in UTF-16 units.
use Prim.Native.Char.{code}
use secret_rotation_kit.Prelude.{
  ℕ, suc, ◌+◌, Bool, List, [], ◌∷◌, String, ◌==◌, string_eq, if◌then◌else◌, ltb,
}
use secret_rotation_kit.Prelude.Int.{ℤ}

mutual
  pub data JsValue : Type 0 where
    undefined : JsValue
    null : JsValue
    boolean : Bool → JsValue
    -- `fraction n d` is n / (d + 1).
    fraction : ℤ → ℕ → JsValue
    not_finite : JsValue
    text : String → JsValue
    array : JsItems → JsValue
    object : JsFields → JsValue

  pub data JsItems : Type 0 where
    nil : JsItems
    item : JsValue → JsItems → JsItems

  pub data JsFields : Type 0 where
    end : JsFields
    field : String → JsValue → JsFields → JsFields

-- `typeof`.
abbrev pub type_name : JsValue → String
type_name undefined = "undefined"
type_name null = "object"
type_name (boolean b) = "boolean"
type_name (fraction n d) = "number"
type_name not_finite = "number"
type_name (text s) = "string"
type_name (array xs) = "object"
type_name (object fs) = "object"

abbrev pub codes : String → List ℕ
codes String.[] = []
codes (String.◌∷◌ c s) = code c ∷ codes s

-- `s.length`: a code point above 0xFFFF takes two units.
abbrev pub units : List ℕ → ℕ
units [] = 0
units (c ∷ cs) = (if ltb c 65536 then 1 else 2) + units cs

abbrev pub field_count : JsFields → ℕ
field_count end = 0
field_count (field k v fs) = suc (field_count fs)

-- `fields[k]`; an absent key reads as `undefined`.
abbrev pub read : JsFields → String → JsValue
read end k = undefined
read (field j v fs) k = let rest = read fs k in if j == k then v else rest

-- `fields[k] = v`, which keeps the place of a key that is there.
abbrev pub write : JsFields → String → JsValue → JsFields
write end k v = field k v end
write (field j w fs) k v =
    let rest = write fs k v in if j == k then field j v fs else field j w rest
