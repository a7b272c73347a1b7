-- ===== src/Tests/Consuming.antt =====
-- The consumer registry at concrete checks.
use secret_rotation_kit.Prelude.{◌≡◌, refl, true, false, none, some, [], ◌∷◌, string_eq, In, arith}
use secret_rotation_kit.Map
use secret_rotation_kit.Verification.{Consumer}
use secret_rotation_kit.Consumers.{
  ConsumerRegistry, RegistryOptions, empty_registry, new_health, register, get_consumers,
}
use secret_rotation_kit.Consumers.Health.{
  registers, fails, act, acts, IsGraded, acts-IsGraded, get_consumers-fails,
}

abbrev options : RegistryOptions
options = record { max_failures = 2; unhealthy_retry_interval_ms = 1000 }

abbrev consumer : Consumer
consumer = record {
  id = "app";
  endpoint = "http://app";
  interested_secrets = "db" ∷ [];
  groups = none;
  capabilities = record {
    supports_version_check = true;
    supports_health_check = true;
    supports_callback = false;
  };
  auth = none;
}

empty-IsGraded : IsGraded options empty_registry
unfolding Map.get
empty-IsGraded = record { graded = λ id e. cc }

abbrev registered : ConsumerRegistry
registered = acts options (registers consumer 10 11 ∷ []) empty_registry

acts-IsGraded_example : IsGraded options registered
acts-IsGraded_example =
    acts-IsGraded options (registers consumer 10 11 ∷ []) empty_registry empty-IsGraded

registered_health : Map.get registered.health "app" ≡ some (new_health "app" 10 11)
unfolding acts act register Map.get Map.set
registered_health = refl

get_consumers-fails_example :
    ¬ In consumer (
      get_consumers options
        (acts options (fails "app" 20 ∷ fails "app" 30 ∷ []) registered)
        "db"
        40)
get_consumers-fails_example =
    get_consumers-fails options consumer 20 (30 ∷ []) registered (new_health "app" 10 11) "db" 40
      acts-IsGraded_example registered_health (omega arith) (omega arith)
