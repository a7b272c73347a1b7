-- ===== src/World.antt =====
-- What a rotation reads and writes: the key store, everything outside the library, the clock, the
-- events, the rollback entries, and the local variables of `RotationWorkflow.execute` that its
-- `catch` block reads. The interfaces of packages/types/src/interfaces.ts that a rotation calls are
-- the fields of `Env`; their implementations are arbitrary functions on a state `O` of their own.
use secret_rotation_kit.Prelude.{ℕ, suc, Bool, Option, List, String}
use secret_rotation_kit.Effect.{Eff, returned, thrown, RotationStage}
use secret_rotation_kit.Types.{SecretKey, KeyFormat, Metadata, RotationSession, RotationEvent}
use secret_rotation_kit.Verification.{VerificationOptions, VerificationResult}

pub record KeyGenerationOptions : Type 0 where
  pub secret_name : String
  pub format : Option KeyFormat
  pub metadata : Option Metadata

-- packages/types/src/provider.ts.
pub record SecretValue : Type 0 where
  pub value : String
  pub version_id : String
  pub version_stages : Option (List String)
  pub created_at : ℕ
  pub metadata : Option Metadata

pub data PropagationStage : Type 0 where
  current pending : PropagationStage

pub record Env (O Ratio : Type 0) : Type 0 where
  pub generate : KeyGenerationOptions → Eff O SecretKey
  pub provider_name : String
  pub supports_rotation : Bool
  pub begin_rotation : String → Eff O RotationSession
  pub store_secret_value : String → String → PropagationStage → Eff O SecretValue
  pub complete_rotation : RotationSession → Eff O (Unit {0})
  pub cancel_rotation : RotationSession → Eff O (Unit {0})
  pub verify : RotationSession → VerificationOptions Ratio → Eff O (VerificationResult Ratio)
  -- The n-th reading of the clock, the n-th random suffix, the ratio 1.0, and a ratio as the
  -- percentage that `(r * 100).toFixed(1)` prints.
  pub clock : ℕ → ℕ
  pub random_id : ℕ → String
  pub full_coverage : Ratio
  pub percent : Ratio → String

pub record RollbackEntry : Type 0 where
  pub id : String
  pub secret_name : String
  pub previous_active_key_id : Option String
  pub new_key_id : String
  pub session : Option RotationSession
  pub started_at : ℕ
  pub completed : Bool
  pub error : Option String

-- The variables declared above the `try` of `execute`.
pub record Frame : Type 0 where
  pub session : Option RotationSession
  pub new_key : Option SecretKey
  pub previous_active_key_id : Option String
  pub stage : RotationStage
  pub rollback_entry_id : Option String

pub record World (S O : Type 0) : Type 0 where
  pub store : S
  pub outside : O
  pub reads : ℕ
  pub ids : ℕ
  pub emitted : List RotationEvent
  pub entries : List RollbackEntry
  pub frame : Frame

module _ {S O A : Type 0} where
  -- A call on the key store, and a call of something outside the library.
  abbrev pub in_store : Eff S A → Eff (World S O) A
  in_store m w = elim (m w.store) [
    | returned a t ↦ returned a (record w { store = t })
    | thrown e t ↦ thrown e (record w { store = t })
  ]

  abbrev pub in_outside : Eff O A → Eff (World S O) A
  in_outside m w = elim (m w.outside) [
    | returned a t ↦ returned a (record w { outside = t })
    | thrown e t ↦ thrown e (record w { outside = t })
  ]

module _ {S O Ratio : Type 0} (env : Env O Ratio) where
  -- `Date.now()`, and a generated id after its prefix.
  abbrev pub now : Eff (World S O) ℕ
  now w = returned (env.clock w.reads) (record w { reads = suc w.reads })

  abbrev pub random_suffix : Eff (World S O) String
  random_suffix w = returned (env.random_id w.ids) (record w { ids = suc w.ids })
