-- ===== src/Manager/Schedule.antt =====
-- One round of automatic rotations.
use secret_rotation_kit.Prelude.{
  ℕ, zero, suc, ◌<◌, ◌≡◌, ◌⊎◌, Bool, true, false, List, [], ◌∷◌, String, length,
}
use secret_rotation_kit.Effect.{Error, Eff}
use secret_rotation_kit.KeyStore.{KeyStore}
use secret_rotation_kit.World.{Env}
use secret_rotation_kit.Limiter.{Limits}
use secret_rotation_kit.Manager.{Manager, RotationManagerConfig, rotate_scheduled}

module _ {S O Ratio : Type 0} (ks : KeyStore S) (env : Env O Ratio) (print : ℕ → String)
    (limits : Limits) (config : RotationManagerConfig Ratio)
    (on_error : String → Error → Eff (Manager S O) (Unit {0}))
    (meanwhile : String → Manager S O → Manager S O) where
  -- The manager when the first `k` secrets have been rotated.
  abbrev pub after_first : ℕ → List String → Manager S O → Manager S O
  after_first zero ns m = m
  after_first (suc k) [] m = m
  after_first (suc k) (n ∷ ns) m =
      after_first k ns (rotate_scheduled ks env print limits config on_error meanwhile n m)

  -- The first `k` secrets are rotated, each while the schedule is active.
  pub record Rotates (k : ℕ) (names : List String) (m v : Manager S O) : Type 0 where
    pub in_order : v ≡ after_first k names m
    pub while_active : (j : ℕ) → j < k → (after_first j names m).schedule_active ≡ true

  abbrev pub Ends : Bool → ℕ → List String → Manager S O → Type 0
  Ends ended k names v =
      ((ended ≡ true) × (k ≡ length names))
      ⊎ ((ended ≡ false) × (k < length names) × (v.schedule_active ≡ false))

  -- The time at which a round starts, as the manager's clock then reads it.
  abbrev pub read_clock : Manager S O → Manager S O
  read_clock m = record m { world = record m.world { reads = suc m.world.reads } }
