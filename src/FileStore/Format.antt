-- ===== src/FileStore/Format.antt =====
-- packages/core/src/filesystem-key-store.ts: what the file store takes from outside, the form of its
-- files, and their paths. Texts of paths and buffers are lists of their units and bytes; an object with
-- key ids is a `Map`, and no id is the name of a member of Object.prototype.
use mathlib.Core.Option
use secret_rotation_kit.Prelude.{
  ℕ, Bool, true, false, ◌&&◌, ◌||◌, Option, List, [], ◌∷◌, ◌++◌, String, string_eq, if◌then◌else◌,
  ltb, nat_beq, take,
}
use secret_rotation_kit.Map.{Map}
use secret_rotation_kit.Js.{codes}
use secret_rotation_kit.Effect.{Error, Eff}
use secret_rotation_kit.Types.{SecretKey, KeyFormat, KeyStatus, Metadata}
use secret_rotation_kit.Validation.{is_alphanumeric}

-- A path as its characters, and a buffer as its bytes.
abbrev pub FilePath : Type 0
FilePath = List ℕ

abbrev pub Bytes : Type 0
Bytes = List ℕ

pub record SerializedKey : Type 0 where
  pub key_id : String
  pub secret_name : String
  pub encrypted_material : String
  pub format : KeyFormat
  pub valid_from : String
  pub valid_until : Option String
  pub status : KeyStatus
  pub created_at : String
  pub rotated_at : Option String
  pub revoked_at : Option String
  pub metadata : Option Metadata

abbrev pub SecretFile : Type 0
SecretFile = Map String SerializedKey

-- What `readFile` gives.
pub data ReadResult : Type 0 where
  contents : Bytes → ReadResult
  enoent : ReadResult
  unreadable : Error → ReadResult

-- node:fs/promises, `randomBytes` and the clock, on a state of their own.
pub record Disk (D : Type 0) : Type 0 where
  pub read_file : D → FilePath → ReadResult
  -- The names in the directory, or nothing where it cannot be read.
  pub read_dir : D → Option (List FilePath)
  pub make_dir : Eff D (Unit {0})
  pub write_file : FilePath → Bytes → Eff D (Unit {0})
  pub rename : FilePath → FilePath → Eff D (Unit {0})
  pub unlink : FilePath → Eff D (Unit {0})
  pub random_bytes : ℕ → Eff D Bytes
  pub clock : D → ℕ

-- node:crypto, node:path, JSON, Date and Buffer. `seal` gives the ciphertext and the tag; `unseal`
-- takes the key, the nonce, the tag and the ciphertext.
pub record Runtime : Type 0 where
  pub iso : ℕ → String
  pub date : String → ℕ
  pub stringify : SecretFile → Bytes
  pub parse : Bytes → Option SecretFile
  pub from_base64 : String → Bytes
  pub seal : Bytes → Bytes → Bytes → Bytes × Bytes
  pub unseal : Bytes → Bytes → Bytes → Bytes → Option Bytes
  pub sha256_hex : String → List ℕ
  pub hex : Bytes → List ℕ
  pub print : ℕ → List ℕ
  -- What `join(baseDir, name)` puts before the name.
  pub base : FilePath

abbrev pub json_ending : List ℕ
json_ending = b'.' ∷ b'j' ∷ b's' ∷ b'o' ∷ b'n' ∷ []

abbrev pub tmp_ending : List ℕ
tmp_ending = b'.' ∷ b't' ∷ b'm' ∷ b'p' ∷ []

abbrev pub same_codes : List ℕ → List ℕ → Bool
same_codes [] [] = true
same_codes (c ∷ cs) (d ∷ ds) = nat_beq c d && same_codes cs ds
same_codes cs ds = false

-- `endsWith`.
abbrev pub ends_with : List ℕ → List ℕ → Bool
ends_with ending [] = same_codes [] ending
ends_with ending (c ∷ cs) = same_codes (c ∷ cs) ending || ends_with ending cs

module _ (r : Runtime) where
  unfoldable pub serialize_key : SecretKey → SerializedKey
  serialize_key k = record {
    key_id = k.key_id;
    secret_name = k.secret_name;
    encrypted_material = k.encrypted_material;
    format = k.format;
    valid_from = r.iso k.valid_from;
    valid_until = Option.map r.iso k.valid_until;
    status = k.status;
    created_at = r.iso k.created_at;
    rotated_at = Option.map r.iso k.rotated_at;
    revoked_at = Option.map r.iso k.revoked_at;
    metadata = k.metadata;
  }

  unfoldable pub deserialize_key : SerializedKey → SecretKey
  deserialize_key s = record {
    key_id = s.key_id;
    secret_name = s.secret_name;
    encrypted_material = s.encrypted_material;
    format = s.format;
    valid_from = r.date s.valid_from;
    valid_until = Option.map r.date s.valid_until;
    status = s.status;
    created_at = r.date s.created_at;
    rotated_at = Option.map r.date s.rotated_at;
    revoked_at = Option.map r.date s.revoked_at;
    metadata = s.metadata;
  }

  -- `replace(/[^a-zA-Z0-9_-]/g, '_')`, unit by unit.
  abbrev pub is_safe : ℕ → Bool
  is_safe c = is_alphanumeric c || nat_beq c b'_' || nat_beq c b'-'

  abbrev pub sanitized : List ℕ → List ℕ
  sanitized [] = []
  sanitized (c ∷ cs) =
      let rest = sanitized cs in
      if is_safe c then c ∷ rest else if ltb c 65536 then b'_' ∷ rest else b'_' ∷ b'_' ∷ rest

  abbrev pub digest : String → List ℕ
  digest name = take 16 (r.sha256_hex name)

  unfoldable pub file_path : String → FilePath
  file_path name =
      (r.base ++ take 64 (sanitized (codes name)) ++ (b'.' ∷ [])) ++ (digest name ++ json_ending)

  unfoldable pub unique_temp_path : FilePath → ℕ → Bytes → FilePath
  unique_temp_path path t bytes =
      (path ++ tmp_ending ++ (b'.' ∷ []) ++ r.print t ++ (b'.' ∷ [])) ++ r.hex bytes
