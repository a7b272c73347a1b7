-- ===== src/Tests/Unverified.antt =====
-- A service from which no version can be read, and a verification against it.
use secret_rotation_kit.Prelude.{ℕ, ◌≤◌, ◌≡◌, ◌⊎◌, refl, none, some, [], arith}
use secret_rotation_kit.Effect.{Holds, on_return, on_throw, returned, thrown, plain_error}
use secret_rotation_kit.World.{SecretValue, pending}
use secret_rotation_kit.Polling.Guard.{InProgress, IsFree}
use secret_rotation_kit.Polling.{
  Surroundings, Verifier, set_at, cancelled, verify, already_in_progress, check_propagation,
}
use secret_rotation_kit.Polling.Outcomes.{Stopped}
use secret_rotation_kit.Workflow.{propagated_session}
use secret_rotation_kit.Provider.{Host}
use secret_rotation_kit.Provider.Gcp.{SecretManagerClient, store_secret_value, get_secret}
use secret_rotation_kit.Provider.Gcp.Verifying.{GcpLaws, Answers, verify-Stopped}
use secret_rotation_kit.Tests.Samples.{session}
use secret_rotation_kit.Tests.Polled.{printed, around, five_milliseconds, quiet}

abbrev host : Host ℕ
host = record {
  clock = λ t. t;
  random_hex = λ t. returned "00" t;
  base36 = λ n. "0";
  print = printed;
}

abbrev client : SecretManagerClient ℕ
client = record {
  create_secret = λ parent id t. returned none t;
  add_secret_version = λ parent bytes t.
      returned
        (record {
          name = some "projects/1/secrets/db/versions/7";
          create_time = none;
          state = none;
        })
        t;
  access_secret_version = λ name t. thrown (plain_error "NOT_FOUND") t;
  delete_secret = λ name etag t. returned tt t;
  list_secret_versions = λ parent t. returned [] t;
  destroy_secret_version = λ name t. returned tt t;
  get_secret = λ name t. returned none t;
  update_labels = λ name labels t. returned tt t;
  list_secrets = λ parent t. returned tt t;
  to_bytes = λ s. [];
  to_utf8 = λ bytes. "";
  parse_int = λ s. 0;
  millionth = λ n. 0;
}

service-GcpLaws : GcpLaws host client "1"
service-GcpLaws = record {
  adds = λ parent value s. on_return ("projects/1/secrets/db/versions/7", refl, refl);
  accesses = λ name version s h. on_throw tt;
}

abbrev stored : SecretValue
stored = record {
  value = "new";
  version_id = "projects/1/secrets/db/versions/7";
  version_stages = none;
  created_at = 0;
  metadata = none;
}

stores : store_secret_value host client "1" "db" "new" pending 0 ≡ returned stored 0
unfolding store_secret_value
stores = refl

-- A verifier that is told what the client answers, and whose first verification is cancelled meanwhile.
abbrev told : Surroundings ℕ ℕ
told = record around {
  get_secret = λ name version v. elim (get_secret host client "1" name version v.outside) [
    | returned w t ↦ returned w v
    | thrown e t ↦ thrown e (set_at around printed 0 (λ r. record r { state = cancelled }) v)
  ];
}

told-Answers : Answers host client "1" told
unfolding get_secret
told-Answers name version v u w h = cc

steady :
    (u : Verifier ℕ ℕ)
    → u.outside ≤ (check_propagation told printed (propagated_session session stored) u).1.outside
unfolding check_propagation get_secret
steady u = omega arith

verify-Stopped_example :
    Holds
      (λ a u. ⊥)
      (λ e u.
        ((e ≡ already_in_progress) × InProgress "s1" quiet × (u ≡ quiet))
        ⊎ (IsFree "s1" quiet
            × Stopped told printed 1 (propagated_session session stored) 0 0 5 e u))
      (verify told printed 6 1 (propagated_session session stored) five_milliseconds quiet)
verify-Stopped_example =
    verify-Stopped host client "1" service-GcpLaws told printed 1 told-Answers "db" "new" 0 0 stored
      stores session five_milliseconds 6 quiet steady (λ id u. omega arith) (omega arith)
