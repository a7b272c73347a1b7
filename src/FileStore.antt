-- ===== src/FileStore.antt =====
-- packages/core/src/filesystem-key-store.ts: the operations. The file system, JSON, the cipher, dates
-- and digests are parameters (`Format`). Each method runs under the lock of its secret (`Lock`).
-- Logging is left out.
pub mod Format
pub mod Sealing
pub mod Paths
pub mod Writing
pub mod Entries
pub mod Refines
pub mod Reads
use mathlib.Core.Option
use secret_rotation_kit.Prelude.{
  ℕ, zero, suc, ◌+◌, ◌<>◌, Bool, true, false, not, ◌&&◌, ◌||◌, Option, none, some, List, [], ◌∷◌,
  ◌++◌, String, ◌==◌, string_eq, if◌then◌else◌, ltb, nat_beq, length, take, drop, map, filter,
  head?,
}
use secret_rotation_kit.Map
use secret_rotation_kit.Map.{Map}
use secret_rotation_kit.Sort.{sort}
use secret_rotation_kit.Js.{codes}
use secret_rotation_kit.Effect.{
  Error, plain_error, Eff, Outcome, returned, thrown, ◌>>=◌, ◌>>◌, pure, throw, try_catch,
}
use secret_rotation_kit.Types.{SecretKey, KeyFormat, KeyStatus, Metadata, is_active, key_not_found}
use secret_rotation_kit.Rollback.{truthy}
use secret_rotation_kit.Validation.{is_alphanumeric}
use secret_rotation_kit.FileStore.Format.{
  FilePath, Bytes, SerializedKey, SecretFile, ReadResult, contents, enoent, unreadable, Disk,
  Runtime, json_ending, tmp_ending, ends_with, serialize_key, deserialize_key, file_path,
  unique_temp_path,
}
use secret_rotation_kit.KeyStore.InMemory.{newest_first, is_valid_at}

abbrev pub bad_key_length : Error
bad_key_length = plain_error "Encryption key must be 32 bytes"

abbrev pub too_short : Error
too_short = plain_error "Encrypted data is too short"

abbrev pub not_authentic : Error
not_authentic = plain_error "Unsupported state or unable to authenticate data"

abbrev pub syntax_error : Error
syntax_error = plain_error "Unexpected token in JSON"

module _ {D : Type 0} (r : Runtime) (disk : Disk D) where
  -- The messages quote the length too. An absent key and an empty one are falsy.
  seal_with : Bytes → Bytes → Eff D Bytes
  seal_with key plaintext = do
    iv ← disk.random_bytes 12
    let sealed = r.seal key iv plaintext
    pure (iv ++ (sealed.1 ++ sealed.0))

  unfoldable pub encrypt_file : Option String → Bytes → Eff D Bytes
  unfolding seal_with
  encrypt_file none plaintext = pure plaintext
  encrypt_file (some k) plaintext =
      if nat_beq (length (r.from_base64 k)) 32
      then seal_with (r.from_base64 k) plaintext
      else throw bad_key_length

  abbrev opened : Option Bytes → Eff D Bytes
  opened none = throw not_authentic
  opened (some b) = pure b

  unfoldable pub decrypt_file : Option String → Bytes → Eff D Bytes
  decrypt_file none bytes = pure bytes
  decrypt_file (some k) bytes =
      if not (nat_beq (length (r.from_base64 k)) 32)
      then throw bad_key_length
      else if ltb (length bytes) 28
      then throw too_short
      else opened
          (r.unseal (r.from_base64 k) (take 12 bytes) (take 16 (drop 12 bytes)) (drop 28 bytes))

  abbrev pub parsed : Option SecretFile → Eff D SecretFile
  parsed none = throw syntax_error
  parsed (some f) = pure f

  abbrev pub loaded : Option String → ReadResult → Eff D SecretFile
  loaded key enoent = pure []
  loaded key (unreadable e) = throw e
  loaded key (contents bytes) = do plain ← decrypt_file key bytes; parsed (r.parse plain)

  module _ (encryption_key : Option String) where
    abbrev pub key : Option String
    key = truthy encryption_key

    unfoldable pub read_secret_file : String → Eff D SecretFile
    unfolding decrypt_file
    read_secret_file name d = loaded key (disk.read_file d (file_path r name)) d

    -- A failed `rename` is thrown again after the cleanup, whose own failure is not.
    unfoldable pub write_secret_file : String → SecretFile → Eff D (Unit {0})
    unfolding encrypt_file
    write_secret_file name keys = do
      disk.make_dir
      sealed ← encrypt_file key (r.stringify keys)
      t ← λ d. returned (disk.clock d) d
      suffix ← disk.random_bytes 4
      let temp = unique_temp_path r (file_path r name) t suffix
      disk.write_file temp sealed
      try_catch (disk.rename temp (file_path r name))
          (λ e. do try_catch (disk.unlink temp) (λ x. pure tt); throw e)

    unfoldable pub save : SecretKey → Eff D (Unit {0})
    save k = do
      keys ← read_secret_file k.secret_name
      write_secret_file k.secret_name (Map.set keys k.key_id (serialize_key r k))

    unfoldable pub get : String → String → Eff D (Option SecretKey)
    get name id = do
      keys ← read_secret_file name
      pure (Option.map (deserialize_key r) (Map.get keys id))

    -- `Object.values(keys).map((k) => this.deserializeKey(k))`.
    abbrev pub keys_in : SecretFile → List SecretKey
    keys_in f = map (λ e. deserialize_key r e.1) f

    unfoldable pub get_active : String → Eff D (Option SecretKey)
    get_active name = do
      keys ← read_secret_file name
      pure (head? (sort newest_first (filter (λ k. is_active k.status) (keys_in keys))))

    unfoldable pub get_valid : String → ℕ → Eff D (List SecretKey)
    get_valid name at = do
      keys ← read_secret_file name
      pure (sort newest_first (filter (is_valid_at at) (keys_in keys)))

    update_in : SecretFile → Option SerializedKey → SecretKey → Eff D (Unit {0})
    update_in keys none k = throw (key_not_found k.secret_name k.key_id)
    update_in keys (some old) k =
        write_secret_file k.secret_name (Map.set keys k.key_id (serialize_key r k))

    unfoldable pub update : SecretKey → Eff D (Unit {0})
    unfolding update_in
    update k = do keys ← read_secret_file k.secret_name; update_in keys (Map.get keys k.key_id) k

    unfoldable pub delete : String → String → Eff D (Unit {0})
    delete name id = do keys ← read_secret_file name; write_secret_file name (Map.delete keys id)

    -- One entry of the directory: what is not a key file, or cannot be read, is skipped.
    abbrev keys_of_entry : FilePath → Eff D (List SecretKey)
    keys_of_entry entry d =
        if not (ends_with json_ending entry) || ends_with tmp_ending entry
        then returned [] d
        else try_catch (do f ← loaded key (disk.read_file d (r.base ++ entry)); pure (keys_in f))
            (λ e. pure []) d

    keys_of_entries : List FilePath → Eff D (List SecretKey)
    keys_of_entries [] = pure []
    keys_of_entries (e ∷ es) = do ks ← keys_of_entry e; rest ← keys_of_entries es; pure (ks ++ rest)

    list_all : Option (List FilePath) → Eff D (List SecretKey)
    unfolding keys_of_entries
    list_all none = pure []
    list_all (some entries) = keys_of_entries entries

    pub list_of : Option String → Eff D (List SecretKey)
    unfolding list_all
    list_of none d = list_all (disk.read_dir d) d
    list_of (some name) d = (do keys ← read_secret_file name; pure (keys_in keys)) d

    -- An empty name is falsy, as an absent one.
    unfoldable pub list : Option String → Eff D (List SecretKey)
    unfolding list_of
    list name = list_of (truthy name)
