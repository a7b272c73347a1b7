-- ===== src/Tests/Emitting.antt =====
-- Concrete events, and an emitter without handlers.
use secret_rotation_kit.Prelude.{ℕ, [], ◌∷◌, none}
use secret_rotation_kit.Types.{RotationEvent, key_generated}
use secret_rotation_kit.Events.{Emitter}

abbrev pub generated_at : ℕ → RotationEvent
generated_at t =
    key_generated (record { secret_name = "db"; key_id = "k1"; timestamp = t; metadata = none })

abbrev pub silent : Emitter
silent = record { handlers = []; history = generated_at 1 ∷ []; calls = [] }
