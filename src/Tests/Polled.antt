-- ===== src/Tests/Polled.antt =====
-- A verification by polling on sample data.
use secret_rotation_kit.Prelude.{
  ℕ, ◌+◌, ◌≤◌, ◌≡◌, ◌≢◌, ◌⊎◌, none, some, [], String, if◌then◌else◌, ltb, arith,
}
use secret_rotation_kit.Effect.{Holds, returned, thrown, plain_error}
use secret_rotation_kit.Types.{RotationSession}
use secret_rotation_kit.Verification.{VerificationOptions}
use secret_rotation_kit.Polling.{
  Verifier, Surroundings, verify, already_in_progress, check_propagation,
}
use secret_rotation_kit.Polling.Outcomes.{Confirmed, IsInactive, Stopped, verify-Confirmed}
use secret_rotation_kit.Polling.Guard.{IsFree, InProgress}
use secret_rotation_kit.Polling.Ending.{verify-ends}
use secret_rotation_kit.Tests.Samples.{session}

abbrev pub printed : ℕ → String
printed n = "n"

-- The state outside is the time; a provider that answers from time 3 on.
abbrev pub around : Surroundings ℕ ℕ
around = record {
  get_secret = λ n i v.
      if ltb v.outside 3
      then thrown (plain_error "later") v
      else returned
          (record {
            value = "s";
            version_id = "v2";
            version_stages = none;
            created_at = 0;
            metadata = none;
          })
          v;
  pause = λ id ms v. record v { outside = v.outside + 1 };
  clock = λ t. t;
  zero_ratio = 0;
  one_ratio = 1;
  progress_of = λ a b. 0;
}

abbrev pub propagated : RotationSession
propagated = record session { state = record session.state { version_id = some "v2" } }

abbrev pub five_milliseconds : VerificationOptions ℕ
five_milliseconds = record {
  timeout = some 5;
  per_consumer_timeout = none;
  min_consumer_coverage = none;
  min_new_key_usage = none;
  error_threshold = none;
  retry_policy = none;
  metadata = none;
}

abbrev pub quiet : Verifier ℕ ℕ
quiet = record { heap = []; active_verifications = []; outside = 0 }

verify-Confirmed_example :
    Holds
      (λ a t.
        IsFree "s1" quiet
        × Confirmed around printed 1 propagated a
        × IsInactive around printed 1 propagated 0 t)
      (λ e t.
        ((e ≡ already_in_progress) × InProgress "s1" quiet × (t ≡ quiet))
        ⊎ (IsFree "s1" quiet
            × Stopped around printed 1 propagated 0 0 5 e t
            × IsInactive around printed 1 propagated 0 t))
      (verify around printed 6 1 propagated five_milliseconds quiet)
verify-Confirmed_example = verify-Confirmed around printed 1 propagated five_milliseconds 6 quiet

steady :
    (u : Verifier ℕ ℕ)
    → around.clock u.outside
      ≤ around.clock (check_propagation around printed propagated u).1.outside
unfolding check_propagation
steady u = ground arith

verify-ends_example :
    Holds
      (λ a t. a ≢ none)
      (λ e t. Unit {0})
      (verify around printed 6 1 propagated five_milliseconds quiet)
verify-ends_example =
    verify-ends around printed 1 propagated five_milliseconds 6 quiet steady (λ id u. omega arith)
      (omega arith)
