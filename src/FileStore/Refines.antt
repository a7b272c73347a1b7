-- ===== src/FileStore/Refines.antt =====
-- The file store keeps what the store in memory keeps.
use mathlib.Core.Option
use secret_rotation_kit.Prelude.{◌≡◌, Option, String, string_eq}
use secret_rotation_kit.Map
use secret_rotation_kit.Map.{Map}
use secret_rotation_kit.Types.{SecretKey}
use secret_rotation_kit.Effect.{Eff, Outcome, returned, Holds}
use secret_rotation_kit.KeyStore.InMemory
use secret_rotation_kit.KeyStore.InMemory.{Store, keys_of, values}
use secret_rotation_kit.FileStore.{save, update, delete, loaded, key}
use secret_rotation_kit.FileStore.Format.{
  SerializedKey, SecretFile, Runtime, Disk, serialize_key, file_path, digest,
}
use secret_rotation_kit.FileStore.Sealing.{SealingLaws}
use secret_rotation_kit.FileStore.Paths.{PathLaws}
use secret_rotation_kit.FileStore.Writing.{DiskLaws}
use secret_rotation_kit.FileStore.Entries.{IsFile, JsonLaws, keys_by_id}

-- The operations that write.
pub data KeyWrite : Type 0 where
  saves : SecretKey → KeyWrite
  updates : SecretKey → KeyWrite
  deletes : String → String → KeyWrite

abbrev pub in_memory_write : KeyWrite → Eff Store (Unit {0})
in_memory_write (saves k) s = returned tt (InMemory.save k s)
in_memory_write (updates k) s = InMemory.update k s
in_memory_write (deletes n i) s = returned tt (InMemory.delete n i s)

abbrev pub in_files_write :
    {D : Type 0} → Runtime → Disk D → Option String → KeyWrite → Eff D (Unit {0})
in_files_write r disk e (saves k) = save r disk e k
in_files_write r disk e (updates k) = update r disk e k
in_files_write r disk e (deletes n i) = delete r disk e n i

-- A write to one of the names `P`, of a key that makes an entry in `IsEntry`.
abbrev pub IsAllowed :
    Runtime → (P : String → Type 0) (IsEntry : String → SerializedKey → Type 0) → KeyWrite → Type 0
IsAllowed r P IsEntry (saves k) = P k.secret_name × IsEntry k.key_id (serialize_key r k)
IsAllowed r P IsEntry (updates k) = P k.secret_name × IsEntry k.key_id (serialize_key r k)
IsAllowed r P IsEntry (deletes n i) = P n

-- Names of which no two have the same digest.
abbrev pub Tells : Runtime → (String → Type 0) → Type 0
Tells r P = (n m : String) → P n → P m → digest r n ≡ digest r m → n ≡ m

module _ {D : Type 0} (r : Runtime) (disk : Disk D) (encryption_key : Option String)
    (P : String → Type 0) (IsEntry : String → SerializedKey → Type 0) where
  -- The key file of a secret reads as `f`.
  abbrev pub HasFile : D → String → SecretFile → Type 0
  HasFile d n f =
      (u : D)
      → loaded r disk (key r disk encryption_key) (disk.read_file d (file_path r n)) u
        ≡ returned f u

  -- The files hold, for each name, the keys that the store in memory holds, in the same order.
  abbrev pub Represents : D → Store → Type 0
  Represents d s =
      (n : String)
      → P n
      → (f : SecretFile) × HasFile d n f
        × IsFile IsEntry f
        × (keys_by_id r f ≡ keys_of (Map.get s n))

  module _ (sealing : SealingLaws r disk) (paths : PathLaws r) (files : DiskLaws disk)
      (json : JsonLaws r IsEntry) (tells : Tells r P) where
    Outcomes : KeyWrite → Store → Outcome D (Unit {0}) → Type 0
    Outcomes w s =
        Holds (λ _ t. (s' : Store) × (in_memory_write w s ≡ returned tt s') × Represents t s')
          (λ e t. Represents t s)
