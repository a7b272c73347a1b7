-- ===== src/Tests/Circuits.antt =====
-- The circuit breaker at concrete events.
use secret_rotation_kit.Prelude.{ℕ, ◌≡◌, refl, false, none, List, [], ◌∷◌, arith}
use secret_rotation_kit.Effect.{Eff, thrown, plain_error}
use secret_rotation_kit.Circuit.{
  CircuitBreakerOptions, Breaker, new_breaker, opened, CircuitEvent, begins, succeeds, fails, run,
  admit, execute, Shared,
}
use secret_rotation_kit.Circuit.Calls.{Bounded, run-Bounded, Executes, execute-Executes}
use secret_rotation_kit.Circuit.Opening.{run-open}

abbrev options : CircuitBreakerOptions
options = record { failure_threshold = 2; success_threshold = 2; reset_timeout_ms = 1000 }

abbrev events : List CircuitEvent
events = begins 5 ∷ fails 10 ∷ begins 12 ∷ fails 20 ∷ begins 1500 ∷ succeeds ∷ []

run-Bounded_example : Bounded options (run options events new_breaker)
run-Bounded_example =
    run-Bounded options (omega arith) (omega arith) events new_breaker
      (record { failures = λ e. omega arith; successes = omega arith })

abbrev tripped : Breaker
tripped = record { state = opened; failure_count = 2; success_count = 0; last_failure_time = 20 }

run-open_example :
    ((run options (begins 30 ∷ succeeds ∷ fails 40 ∷ []) tripped).state ≡ opened)
    × (admit options 900 (run options (begins 30 ∷ succeeds ∷ fails 40 ∷ []) tripped)
        ≡ (false, run options (begins 30 ∷ succeeds ∷ fails 40 ∷ []) tripped))
run-open_example =
    run-open options 1000 (begins 30 ∷ succeeds ∷ fails 40 ∷ []) tripped 900 refl (omega arith)
      (omega arith, (tt, (omega arith, tt))) (omega arith)

abbrev shared : Shared ℕ
shared = record { breaker = new_breaker; outside = 0; reads = 0 }

-- An operation that fails, on a breaker that it does not use itself.
abbrev down : Eff (Shared ℕ) ℕ
down = thrown (plain_error "down")

execute-Executes_example :
    Executes options
      (λ n. n)
      (λ n. "1000")
      down
      none
      (λ s. [])
      (λ s. [])
      shared
      (execute options (λ n. n) (λ n. "1000") down none shared)
unfolding run
execute-Executes_example =
    execute-Executes options (λ n. n) (λ n. "1000") down none (λ s. []) (λ s. []) (λ s. refl)
      (λ g e. absurd (cc)) shared
