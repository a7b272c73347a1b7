-- ===== src/Tests/Windowed.antt =====
-- The key windows at concrete stores.
use secret_rotation_kit.Prelude.{ℕ, ◌≡◌, ◌↔◌, some, List, map, In, ◌+◌}
use secret_rotation_kit.Effect.{returned}
use secret_rotation_kit.Types.{SecretKey, expired}
use secret_rotation_kit.KeyStore.InMemory.{Store, get}
use secret_rotation_kit.KeyStore.InMemory.Laws.{in_memory, in_memory-KeyStoreLaws}
use secret_rotation_kit.Windows.{default_config, cleanup_expired}
use secret_rotation_kit.Windows.Revocation.{Revoked, GraceOver, cleanup_expired-Revoked}
use secret_rotation_kit.Tests.Samples.{key_with}
use secret_rotation_kit.Tests.Keys.{single_of, single_of-Inv}

abbrev stale : SecretKey
stale = key_with "db" "k0" expired

abbrev late : ℕ → ℕ
late n = 5000000 + n

cleanup_expired-Revoked_example :
    (t : Store) × (due : List SecretKey) × (cleanup_expired in_memory late default_config "db"
        (single_of stale)
      ≡ returned (map (λ k. k.key_id) due) t)
    × Revoked in_memory in_memory-KeyStoreLaws late (single_of stale) t due
    × ((k : SecretKey)
        → In k due ↔ (
            (get (single_of stale) "db" k.key_id ≡ some k)
            × (k.status ≡ expired)
            × GraceOver default_config 5000000 k.valid_until))
cleanup_expired-Revoked_example =
    cleanup_expired-Revoked in_memory in_memory-KeyStoreLaws late default_config "db"
      (single_of stale) (single_of-Inv stale).valid (λ e. cc)
