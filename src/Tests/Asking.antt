-- ===== src/Tests/Asking.antt =====
-- An active verification of one consumer.
use secret_rotation_kit.Prelude.{ℕ, ◌+◌, ◌≡◌, true, false, none, some, [], ◌∷◌, String, leb}
use secret_rotation_kit.Effect.{Holds, returned}
use secret_rotation_kit.Verification.{Consumer}
use secret_rotation_kit.Retry.{default_policy}
use secret_rotation_kit.Consumers.{RegistryOptions, empty_registry, register, get_consumers}
use secret_rotation_kit.Polling.{Verifier, Surroundings, already_in_progress}
use secret_rotation_kit.Polling.Guard.{IsFree, InProgress}
use secret_rotation_kit.Active.Checks.{Network}
use secret_rotation_kit.Active.{Consuming, Ratios, verify}
use secret_rotation_kit.Active.Covered.{Covers, verify-Covers}
use secret_rotation_kit.Tests.Polled.{propagated, five_milliseconds}

abbrev printed : ℕ → String
printed n = "n"

-- A network on which time does not pass and every consumer has the version.
abbrev net : Network ℕ
net = record {
  fetch = λ url headers e.
      returned (record { ok = true; status = 200; body = some (some "v2", none) }) e;
  pause = λ ms e. e + ms;
  clock = λ e. e;
  encode = λ s. s;
}

abbrev health_options : RegistryOptions
health_options = record { max_failures = 3; unhealthy_retry_interval_ms = 1000 }

abbrev service : Consumer
service = record {
  id = "c1";
  endpoint = "http://c1";
  interested_secrets = "db" ∷ [];
  groups = none;
  capabilities = record {
    supports_version_check = true;
    supports_health_check = false;
    supports_callback = false;
  };
  auth = none;
}

abbrev consuming : Verifier (Consuming ℕ) ℕ
consuming = record {
  heap = [];
  active_verifications = [];
  outside = record { registry = register service 0 0 empty_registry; network = 0 };
}

abbrev around : Surroundings (Consuming ℕ) ℕ
around = record {
  get_secret = λ n i v.
      returned
        (record {
          value = "s";
          version_id = "v2";
          version_stages = none;
          created_at = 0;
          metadata = none;
        })
        v;
  pause = λ id ms v. v;
  clock = λ s. s.network;
  zero_ratio = 0;
  one_ratio = 1;
  progress_of = λ a b. 0;
}

abbrev ratios : Ratios ℕ
ratios = record { ratio = λ a b. a; at_least = λ a b. leb b a; default_coverage = 1 }

verify-Covers_example :
    Holds
      (λ a t.
        IsFree "s1" consuming
        × Covers net printed default_policy health_options around ratios propagated
            five_milliseconds 5 0
            (get_consumers health_options consuming.outside.registry "db" 0)
            a)
      (λ e t. (e ≡ already_in_progress) × InProgress "s1" consuming × (t ≡ consuming))
      (verify net printed default_policy health_options around ratios propagated five_milliseconds
        consuming)
verify-Covers_example =
    verify-Covers net printed default_policy health_options around ratios propagated
      five_milliseconds consuming
