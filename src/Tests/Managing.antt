-- ===== src/Tests/Managing.antt =====
-- The rotation manager on sample data.
use secret_rotation_kit.Prelude.{ℕ, ◌≡◌, refl, Bool, true, false, none, some, [], ◌∷◌, String}
use secret_rotation_kit.Effect.{Error, Eff, returned, after}
use secret_rotation_kit.KeyStore.InMemory.{Store}
use secret_rotation_kit.KeyStore.InMemory.Laws.{in_memory}
use secret_rotation_kit.Map
use secret_rotation_kit.Prelude.Int.{◌-ℤ◌}
use secret_rotation_kit.Limiter.{Limits, consume, take_token, refill}
use secret_rotation_kit.Validation.{validate_secret_name, assert_valid}
use secret_rotation_kit.Manager.{
  Gate, Manager, RotationOptions, RotationManagerConfig, admit, leave, remove_name, schedule_loop,
  no_options,
}
use secret_rotation_kit.Manager.Overlap.{
  Flights, Reach, IsTracked, runs, begins, start, further, Reach-IsTracked,
}
use secret_rotation_kit.Manager.Schedule.{Rotates, read_clock}
use secret_rotation_kit.Tests.Samples.{env_with, world}

abbrev printed : ℕ → String
printed n = "n"

abbrev five_a_minute : Limits
five_a_minute = record { max_tokens = 5; window_ms = 60000 }

abbrev idle : Gate
idle = record { buckets = []; rotating = [] }

abbrev config : RotationManagerConfig ℕ
config = record {
  rotation_interval_ms = some 1000;
  verification_timeout_ms = none;
  min_consumer_coverage = none;
  validate_inputs = none;
  rollback = none;
}

abbrev manager : Manager Store ℕ
manager = record { gate = idle; world = world; schedule_active = true; schedule_timer = none }

abbrev not_forced : RotationOptions ℕ
not_forced = no_options in_memory (env_with true) printed five_a_minute config

-- After a forced call has ended, the first rotation still runs, and an unforced call is let through.
abbrev after_admit : Bool → Gate → Gate
after_admit force g = after (admit printed five_a_minute true "db" force 0 g)

lets_a_third_in :
    (after_admit false (leave "db" (after_admit true (after_admit false idle)))).rotating
    ≡ "db" ∷ []
unfolding admit remove_name consume take_token refill Map.get Map.set validate_secret_name
    assert_valid ◌-ℤ◌
lets_a_third_in = refl

abbrev none_running : Flights
none_running = record { gate = idle; running = [] }

none_running-IsTracked : IsTracked none_running
unfolding runs
none_running-IsTracked n = refl

abbrev one_running : Flights
one_running = record { gate = after_admit false idle; running = "db" ∷ [] }

begun : Reach printed five_a_minute true none_running one_running
unfolding admit consume Map.get Map.set validate_secret_name assert_valid
begun = further start (begins "db" (some "db") 0 refl refl)

Reach-IsTracked_example : IsTracked one_running
Reach-IsTracked_example = Reach-IsTracked printed five_a_minute true none_running-IsTracked begun

abbrev ignores : String → Error → Eff (Manager Store ℕ) (Unit {0})
ignores n e m = returned tt m

-- The schedule is stopped while a rotation runs.
abbrev stops : String → Manager Store ℕ → Manager Store ℕ
stops n m = record m { schedule_active = false; schedule_timer = none }

abbrev RotatesStopping : ℕ → Manager Store ℕ → Type 0
RotatesStopping k v =
    Rotates in_memory (env_with true) printed five_a_minute config ignores stops k ("db" ∷ [])
      (read_clock in_memory (env_with true) printed five_a_minute config ignores stops manager) v

abbrev looped : Manager Store ℕ
looped =
    schedule_loop in_memory (env_with true) printed five_a_minute config ignores stops ("db" ∷ [])
      1000 manager
