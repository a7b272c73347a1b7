-- ===== src/Tests/Retrying.antt =====
-- A retried operation at concrete failures.
use secret_rotation_kit.Prelude.{ℕ, ◌+◌, true, if◌then◌else◌, ltb}
use secret_rotation_kit.Effect.{Holds, returned, thrown, plain_error}
use secret_rotation_kit.Retry.{Operation, default_policy, retry}
use secret_rotation_kit.Retry.Attempts.{Succeeds, GivesUp, retry-Tries}

-- The state counts the calls; the first two fail.
abbrev flaky : Operation ℕ ℕ
flaky = record {
  fn = λ n. if ltb n 2 then thrown (plain_error "down") (n + 1) else returned 7 (n + 1);
  should_retry = λ e n. true;
  clock = λ n. n;
  pause = λ ms n. n;
}

retry-Tries_example :
    Holds
      (Succeeds default_policy flaky 3 0)
      (GivesUp default_policy flaky 3 0)
      (retry default_policy flaky 0)
retry-Tries_example = retry-Tries default_policy flaky 0
