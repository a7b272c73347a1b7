-- ===== src/Config.antt =====
-- packages/core/src/config-service.ts. Objects are trees whose fields are in order, as in `Js`.
pub mod Merge
pub mod Sections
use secret_rotation_kit.Prelude.{
  ℕ, Bool, true, false, ◌||◌, Option, none, some, String, ◌==◌, string_eq, if◌then◌else◌,
}
use secret_rotation_kit.Prelude.Int.{pos}
use secret_rotation_kit.Js.{
  JsValue, JsFields, undefined, null, boolean, fraction, not_finite, text, array, object, nil, end,
  field, read, write,
}

-- BLOCKED_KEYS.
abbrev pub is_blocked : String → Bool
is_blocked k = k == "__proto__" || k == "constructor" || k == "prototype"

abbrev pub is_undefined : JsValue → Bool
is_undefined undefined = true
is_undefined v = false

-- `merge_value tv sv` is what a key holds after the merge. The loop over the keys of the source
-- assigns to the result, a copy of the target.
unfoldable mutual
  pub merge_value : JsValue → JsValue → JsValue
  merge_value tv undefined = tv
  merge_value (object fs) (object gs) = object (deep_merge fs gs)
  merge_value tv sv = sv

  pub deep_merge : JsFields → JsFields → JsFields
  deep_merge result end = result
  deep_merge result (field k v rest) =
      deep_merge
        (if is_blocked k || is_undefined v
          then result
          else write result k (merge_value (read result k) v))
        rest

abbrev pub number : ℕ → JsValue
number n = fraction (pos n) 0

abbrev retry_defaults : JsFields
retry_defaults = field "maxRetries" (number 3) (
    field "backoffMultiplier" (number 2)
      (field "initialDelayMs" (number 1000) (field "maxDelayMs" (number 30000) end)))

abbrev verification_defaults : JsFields
verification_defaults = field "strategy" (text "active") (
    field "timeout" (number 30000) (
      field "minConsumerCoverage" (fraction (pos 95) 99) (
        field "perConsumerTimeout" (number 5000)
          (field "retryPolicy" (object retry_defaults) end))))

abbrev event_defaults : JsFields
event_defaults = field "enabled" (boolean true) (
    field "transports" (array nil) (
      field "persistence"
        (object (field "enabled" (boolean true) (field "retentionMs" (number 2592000000) end)))
        end))

abbrev observability_defaults : JsFields
observability_defaults =
    field "logging" (object (field "level" (text "info") (field "structured" (boolean true) end))) (
      field "metrics"
        (object (field "enabled" (boolean true) (field "format" (text "prometheus") end)))
        (field "tracing"
          (object (field "enabled" (boolean false) (field "samplingRate" (fraction (pos 1) 9) end)))
          end))

-- DEFAULTS_WITHOUT_PROVIDER.
unfoldable pub defaults : JsFields
defaults =
    field "keyGeneration"
      (object (
        field "algorithm" (text "aes-256-gcm")
          (field "keyLength" (number 256) (field "format" (text "base64") end))))
      (field "scheduling"
        (object (field "enabled" (boolean false) (field "interval" (number 86400000) end)))
        (field "verification" (object verification_defaults) (
          field "keyWindows"
            (object (
              field "overlapPeriodMs" (number 300000)
                (field "gracePeriodMs" (number 3600000) (field "maxValidKeys" (number 3) end))))
            (field "events" (object event_defaults) (
              field "sidecar"
                (object (
                  field "enabled" (boolean false)
                    (field "port" (number 8080) (field "enableGRPC" (boolean false) end))))
                (field "observability" (object observability_defaults) end))))))

abbrev pub given : Option JsFields → JsFields
given none = end
given (some o) = o

-- `{ ...merged, provider }`.
unfoldable pub create_config : JsValue → Option JsFields → JsFields
unfolding merge_value defaults
create_config provider overrides = write (deep_merge defaults (given overrides)) "provider" provider
