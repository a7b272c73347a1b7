-- ===== src/Manager/Whole.antt =====
-- A call of rotate from the validation to the `finally` block.
use secret_rotation_kit.Prelude.{ℕ, suc, ◌≡◌, String, string_eq}
use secret_rotation_kit.Effect.{Outcome, ◌>>◌}
use secret_rotation_kit.Types.{SecretKey}
use secret_rotation_kit.KeyStore.{KeyStore, KeyStoreLaws}
use secret_rotation_kit.World.{Env}
use secret_rotation_kit.Limiter.{Limits}
use secret_rotation_kit.Workflow.{RotationResult}
use secret_rotation_kit.Workflow.Execute.{execute}
use secret_rotation_kit.Manager.{
  Gate, Manager, RotationOptions, RotationManagerConfig, remove_name, leave, request_of, setup_of,
  in_gate, in_world, finally,
}

module _ {S O Ratio : Type 0} (ks : KeyStore S) {Valid : S → Type 0} (laws : KeyStoreLaws ks Valid)
    (env : Env O Ratio) (print : ℕ → String) (limits : Limits)
    (config : RotationManagerConfig Ratio) (name : String) (o : RotationOptions Ratio)
    (m : Manager S O) (p : SecretKey) where
  -- The clock was read, and nothing else has happened but to the limiter's buckets.
  abbrev pub Untouched : Manager S O → Type 0
  Untouched v =
      (v.world ≡ record m.world { reads = suc m.world.reads }) × (v.gate.rotating ≡ m.gate.rotating)

  abbrev pub Unmarked : Manager S O → Type 0
  Unmarked v = v.gate.rotating ≡ remove_name name m.gate.rotating

  -- What follows the admission.
  resumed : Outcome Gate (Unit {0}) → Outcome (Manager S O) RotationResult
  resumed x =
      (in_gate (λ g. x)
          >> finally
              (in_world
                (execute ks env (setup_of config) (request_of ks env print limits config name o)))
              (λ v. record v { gate = leave name v.gate }))
        (record m { world = record m.world { reads = suc m.world.reads } })
