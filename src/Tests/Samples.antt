-- ===== src/Tests/Samples.antt =====
-- Sample data: a store with one active key, and a provider that accepts everything.
use secret_rotation_kit.Prelude.{ℕ, ◌+◌, ◌*◌, Bool, true, none, some, [], ◌∷◌, String}
use secret_rotation_kit.Effect.{returned}
use secret_rotation_kit.Types.{SecretKey, KeyStatus, active, pending, base64, RotationSession}
use secret_rotation_kit.KeyStore.InMemory.{Store}
use secret_rotation_kit.World.{Env, World}
use secret_rotation_kit.Workflow.{RotationRequest, Setup, empty_frame}

abbrev pub key_with : String → String → KeyStatus → SecretKey
key_with name id status = record {
  key_id = id;
  secret_name = name;
  encrypted_material = "material";
  format = base64;
  valid_from = 10;
  valid_until = none;
  status = status;
  created_at = 10;
  rotated_at = none;
  revoked_at = none;
  metadata = none;
}

abbrev pub old_key : SecretKey
old_key = key_with "db" "k1" active

abbrev pub new_key : SecretKey
new_key = key_with "db" "k2" pending

abbrev pub one_active : Store
one_active = ("db", ("k1", old_key) ∷ []) ∷ []

abbrev pub active_and_pending : Store
active_and_pending = ("db", ("k1", old_key) ∷ ("k2", new_key) ∷ []) ∷ []

abbrev pub session : RotationSession
session = record {
  session_id = "s1";
  secret_name = "db";
  provider = "memory";
  state = record { version_id = none; version_stages = none; metadata = none };
  started_at = 50;
}

-- The state outside counts the cancelled sessions; the verifier answers as it is told.
abbrev pub env_with : Bool → Env ℕ ℕ
env_with verified = record {
  generate = λ options o. returned (key_with options.secret_name "k2" pending) o;
  provider_name = "memory";
  supports_rotation = true;
  begin_rotation = λ name o. returned session o;
  store_secret_value = λ name value stage o.
      returned
        (record {
          value = value;
          version_id = "v2";
          version_stages = none;
          created_at = 60;
          metadata = none;
        })
        o;
  complete_rotation = λ s o. returned tt o;
  cancel_rotation = λ s o. returned tt (o + 1);
  verify = λ s options o.
      returned
        (record {
          success = verified;
          consumer_count = 1;
          verified_count = 1;
          coverage = 0;
          duration = 5;
          failures = [];
          can_retry = true;
          metadata = none;
        })
        o;
  clock = λ n. 100 + 10 * n;
  random_id = λ n. "x";
  full_coverage = 1;
  percent = λ r. "0.0";
}

abbrev pub request : RotationRequest ℕ
request = record {
  secret_name = "db";
  key_format = none;
  overlap_period_ms = some 60000;
  verification_timeout = none;
  min_consumer_coverage = none;
  metadata = none;
}

abbrev pub with_rollback : Setup
with_rollback = record { has_emitter = true; rollback = some 100 }

abbrev pub world : World Store ℕ
world = record {
  store = one_active;
  outside = 0;
  reads = 0;
  ids = 0;
  emitted = [];
  entries = [];
  frame = empty_frame;
}
