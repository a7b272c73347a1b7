-- ===== src/Circuit.antt =====
-- packages/core/src/circuit-breaker.ts. Calls overlap: a call that was let through ends later, when
-- the breaker may have moved on. What happens to a breaker is therefore a list of events. Logging is
-- left out.
pub mod Opening
pub mod Calls
use secret_rotation_kit.Prelude.{
  ℕ, zero, suc, ◌+◌, ◌<>◌, Bool, true, false, Option, none, some, List, [], ◌∷◌, String,
  if◌then◌else◌, leb,
}
use secret_rotation_kit.Effect.{Error, Eff, Outcome, returned, thrown, plain_error}

pub data CircuitState : Type 0 where
  closed opened half_open : CircuitState

pub record CircuitBreakerOptions : Type 0 where
  pub failure_threshold : ℕ
  pub success_threshold : ℕ
  pub reset_timeout_ms : ℕ

pub record Breaker : Type 0 where
  pub state : CircuitState
  pub failure_count : ℕ
  pub success_count : ℕ
  pub last_failure_time : ℕ

abbrev pub new_breaker : Breaker
new_breaker = record { state = closed; failure_count = 0; success_count = 0; last_failure_time = 0 }

-- `transition`; a transition to the state it is in does nothing.
abbrev pub transition : CircuitState → Breaker → Breaker
transition closed b = elim b.state [
  | closed ↦ b
  | _ ↦ record b { state = closed; failure_count = 0; success_count = 0 }
]
transition half_open b = elim b.state [
  | half_open ↦ b
  | _ ↦ record b { state = half_open; success_count = 0 }
]
transition opened b = record b { state = opened }

unfoldable pub reset : Breaker → Breaker
reset b = transition closed b

abbrev succeeded_in : CircuitBreakerOptions → CircuitState → Breaker → Breaker
succeeded_in o half_open b =
    let counted = record b { success_count = suc b.success_count } in
    if leb o.success_threshold counted.success_count then transition closed counted else counted
succeeded_in o closed b = record b { failure_count = 0 }
succeeded_in o opened b = b

unfoldable pub on_success : CircuitBreakerOptions → Breaker → Breaker
on_success o b = succeeded_in o b.state b

abbrev count_failure : CircuitBreakerOptions → Breaker → Breaker
count_failure o b =
    let counted = record b { failure_count = suc b.failure_count } in
    if leb o.failure_threshold counted.failure_count then transition opened counted else counted

abbrev failed_in : CircuitBreakerOptions → CircuitState → Breaker → Breaker
failed_in o half_open b = transition opened b
failed_in o closed b = count_failure o b
failed_in o opened b = count_failure o b

unfoldable pub on_failure : CircuitBreakerOptions → ℕ → Breaker → Breaker
on_failure o now b = failed_in o b.state (record b { last_failure_time = now })

-- The guard of `execute`: whether the call is let through, and the breaker after the test. The test
-- `now - lastFailureTime >= resetTimeoutMs` may be of a negative difference.
abbrev admit_in : CircuitBreakerOptions → CircuitState → ℕ → Breaker → Bool × Breaker
admit_in o opened now b =
    if leb (b.last_failure_time + o.reset_timeout_ms) now
    then (true, transition half_open b)
    else (false, b)
admit_in o closed now b = (true, b)
admit_in o half_open now b = (true, b)

unfoldable pub admit : CircuitBreakerOptions → ℕ → Breaker → Bool × Breaker
admit o now b = admit_in o b.state now b

abbrev pub circuit_open : ℕ → (ℕ → String) → Error
circuit_open ms print =
    plain_error ("Circuit is open. Will reset after " <> print ms <> "ms of no failures.")

-- A breaker, what the operation works on, and the count of clock readings.
pub record Shared (O : Type 0) : Type 0 where
  pub breaker : Breaker
  pub outside : O
  pub reads : ℕ

-- The clock is read when the circuit is open.
abbrev pub readings : CircuitState → ℕ
readings opened = 1
readings _ = 0

-- `const result = await fn(); this.onSuccess(); return result`, and the `catch` block.
abbrev pub settle :
    {O A : Type 0} → CircuitBreakerOptions → (ℕ → ℕ) → Outcome (Shared O) A → Outcome (Shared O) A
settle o clock (returned a t) = returned a (record t { breaker = on_success o t.breaker })
settle o clock (thrown e t) =
    thrown e (record t { breaker = on_failure o (clock t.reads) t.breaker; reads = suc t.reads })

module _ {O A : Type 0} (o : CircuitBreakerOptions) (clock : ℕ → ℕ) (print : ℕ → String) where
  abbrev fall_back : Option (Eff (Shared O) A) → Eff (Shared O) A
  fall_back none s = thrown (circuit_open o.reset_timeout_ms print) s
  fall_back (some fallback) s = fallback s

  abbrev pub dispatch : Bool → Eff (Shared O) A → Option (Eff (Shared O) A) → Eff (Shared O) A
  dispatch true fn fallback t = settle o clock (fn t)
  dispatch false fn fallback t = fall_back fallback t

  unfoldable pub execute : Eff (Shared O) A → Option (Eff (Shared O) A) → Eff (Shared O) A
  execute fn fallback s =
      let guard = admit o (clock s.reads) s.breaker in
      dispatch guard.0 fn fallback
        (record s { breaker = guard.1; reads = s.reads + readings s.breaker.state })

-- What happens to a breaker: a call begins, a call that was let through ends, or it is reset.
pub data CircuitEvent : Type 0 where
  begins : ℕ → CircuitEvent
  succeeds : CircuitEvent
  fails : ℕ → CircuitEvent
  resets : CircuitEvent

unfoldable pub happen : CircuitBreakerOptions → CircuitEvent → Breaker → Breaker
happen o (begins now) b = (admit o now b).1
happen o succeeds b = on_success o b
happen o (fails now) b = on_failure o now b
happen o resets b = reset b

unfoldable pub run : CircuitBreakerOptions → List CircuitEvent → Breaker → Breaker
run o [] b = b
run o (e ∷ es) b = run o es (happen o e b)
