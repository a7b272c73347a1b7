-- ===== src/Tests/Logging.antt =====
-- An event store with a late write and a failing one.
use secret_rotation_kit.Prelude.{◌≡◌, Option, true, false, none, [], ◌∷◌, String}
use secret_rotation_kit.Types.{RotationEvent}
use secret_rotation_kit.EventLog.{EventStore}
use secret_rotation_kit.EventLog.Order.{
  emits, fires, flushes, writes, all_events, happen, happen_keeps_order,
}
use secret_rotation_kit.Tests.Emitting.{generated_at, silent}

abbrev line_of : RotationEvent → String
line_of e = "{}"

abbrev unreadable : String → Option RotationEvent
unreadable l = none

abbrev idle : EventStore
idle = record {
  memory = silent;
  write_buffer = generated_at 1 ∷ [];
  write_timer = true;
  write_queue = [];
  begun = [];
  files = [];
}

happen_keeps_order_example :
    all_events (
      happen line_of unreadable false 2
        (emits (generated_at 2)
          ∷ fires
          ∷ emits (generated_at 3)
          ∷ writes true false "day"
          ∷ flushes
          ∷ [])
        idle)
    ≡ generated_at 1 ∷ generated_at 2 ∷ generated_at 3 ∷ []
unfolding all_events
happen_keeps_order_example =
    happen_keeps_order line_of unreadable false 2
      (emits (generated_at 2)
        ∷ fires
        ∷ emits (generated_at 3)
        ∷ writes true false "day"
        ∷ flushes
        ∷ [])
      idle (λ p. absurd cc)
