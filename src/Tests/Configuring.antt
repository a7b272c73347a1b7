-- ===== src/Tests/Configuring.antt =====
-- Names, metadata and overrides at concrete values.
use secret_rotation_kit.Prelude.{ℕ, ◌≡◌, refl, ◌↔◌, true, false, some, String, ◌==◌, string_eq}
use secret_rotation_kit.Js.{JsFields, text, boolean, object, field, end, read}
use secret_rotation_kit.Validation.{validate_secret_name, validate_metadata}
use secret_rotation_kit.Validation.Names.{IsSecretName, validate_secret_name-IsSecretName}
use secret_rotation_kit.Validation.Depth.{IsSmall, validate_metadata-IsSmall}
use secret_rotation_kit.Config.{is_blocked, defaults, create_config, number}
use secret_rotation_kit.Config.Sections.{IsMerge, create_config-IsMerge}

abbrev printed : ℕ → String
printed n = "n"

abbrev nested : JsFields
nested = field "a" (object (field "b" (object (field "c" (boolean true) end)) end)) end

abbrev port_and_prototype : JsFields
port_and_prototype =
    field "sidecar" (object (field "port" (number 9090) end))
      (field "__proto__" (object nested) end)

db_name_accepted : (validate_secret_name printed (text "db.main-1")).valid ≡ true
unfolding validate_secret_name
db_name_accepted = refl

db_name_refused : (validate_secret_name printed (text "-db")).valid ≡ false
unfolding validate_secret_name
db_name_refused = refl

validate_secret_name-IsSecretName_example :
    ((validate_secret_name printed (text "db.main-1")).valid ≡ true)
    ↔ IsSecretName (text "db.main-1")
validate_secret_name-IsSecretName_example =
    validate_secret_name-IsSecretName printed (text "db.main-1")

validate_metadata-IsSmall_example :
    ((validate_metadata printed (object nested)).valid ≡ true) ↔ IsSmall (object nested)
validate_metadata-IsSmall_example = validate_metadata-IsSmall printed (object nested)

create_config-IsMerge_example :
    (read (create_config (text "aws") (some port_and_prototype)) "provider" ≡ text "aws")
    × ((k : String)
        → ("provider" == k) ≡ false
        → ((is_blocked k ≡ true)
            → read (create_config (text "aws") (some port_and_prototype)) k ≡ read defaults k)
          × ((is_blocked k ≡ false)
              → IsMerge
                  (read defaults k)
                  (read port_and_prototype k)
                  (read (create_config (text "aws") (some port_and_prototype)) k)))
create_config-IsMerge_example =
    create_config-IsMerge (text "aws") (some port_and_prototype) ((refl, tt), (tt, tt))
      (
        ((refl, tt), (tt, tt)),
        (tt, tt),
        ((tt, tt), tt),
        (
          (tt, tt),
          (tt, tt),
          ((tt, tt), (tt, tt), ((tt, tt), (tt, tt), ((tt, tt), tt), tt), tt),
          tt,
        ),
      )
