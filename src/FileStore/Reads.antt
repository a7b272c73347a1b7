-- ===== src/FileStore/Reads.antt =====
-- The file store reads what the store in memory reads.

use secret_rotation_kit.Prelude.{string_eq}
use secret_rotation_kit.Map
use secret_rotation_kit.KeyStore.InMemory
