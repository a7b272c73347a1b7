-- ===== src/Generator.antt =====
-- packages/core/src/crypto-key-generator.ts. The cipher, random bytes, the clock and the codecs of
-- buffers are parameters; a buffer is the list of its bytes. Overwriting a buffer that is not read
-- again is left out.
pub mod RoundTrip
use Prim.Native.Char.{Char, code}
use Prim.Native.String
use secret_rotation_kit.Prelude.{
  ℕ, zero, suc, ◌<>◌, Bool, true, false, not, ◌&&◌, ◌||◌, Option, none, some, List, [], ◌∷◌, String,
  ◌==◌, string_eq, if◌then◌else◌, leb, nat_beq, length,
}
use secret_rotation_kit.Effect.{
  Error, plain_error, Eff, Outcome, returned, thrown, ◌>>=◌, ◌>>◌, pure, throw,
}
use secret_rotation_kit.Types.{SecretKey, KeyFormat, base64, hex, pem, raw, pending}
use secret_rotation_kit.World.{KeyGenerationOptions}
use secret_rotation_kit.Workflow.{or_else}

abbrev pub Bytes : Type 0
Bytes = List ℕ

-- `seal` and `unseal` are AES-256-GCM, with the ciphertext before the tag; `base36` prints a number.
pub record Crypto (O : Type 0) : Type 0 where
  pub random_bytes : ℕ → Eff O Bytes
  pub clock : O → ℕ
  pub seal : Bytes → Bytes → Bytes → Bytes × Bytes
  pub unseal : Bytes → Bytes → Bytes → Bytes → Option Bytes
  pub to_base64 : Bytes → String
  pub from_base64 : String → Bytes
  pub to_hex : Bytes → String
  pub to_utf8 : Bytes → String
  pub from_utf8 : String → Bytes
  pub base36 : ℕ → String

-- `Math.ceil(bits / 8)`.
abbrev pub eighths : ℕ → ℕ → ℕ
eighths left zero = 0
eighths zero (suc bits) = suc (eighths 7 bits)
eighths (suc left) (suc bits) = eighths left bits

-- `match(/.{1,64}/g)` and `join('\n')`: a line break after each 64 characters that more follow.
abbrev pub wrapped : ℕ → String → String
wrapped left String.[] = ""
wrapped zero (String.◌∷◌ c s) = "\n" <> String.◌∷◌ c (wrapped 63 s)
wrapped (suc left) (String.◌∷◌ c s) = String.◌∷◌ c (wrapped left s)

abbrev pub push : Char → List String → List String
push c [] = String.◌∷◌ c "" ∷ []
push c (s ∷ ss) = String.◌∷◌ c s ∷ ss

-- `split(':')`.
unfoldable pub split_colons : String → List String
split_colons String.[] = "" ∷ []
split_colons (String.◌∷◌ c s) =
    let rest = split_colons s in if nat_beq (code c) b':' then "" ∷ rest else push c rest

abbrev pub bad_length : Error
bad_length = plain_error "Encryption key must be 32 bytes when base64-decoded"

abbrev pub bad_parts : Error
bad_parts = plain_error "Invalid encrypted material format: expected 3 parts separated by ':'"

abbrev pub bad_iv : Error
bad_iv = plain_error "Invalid IV length: expected 12"

abbrev pub bad_tag : Error
bad_tag = plain_error "Invalid auth tag length: expected 16"

abbrev pub not_authentic : Error
not_authentic = plain_error "Unsupported state or unable to authenticate data"

abbrev ends_after : Option ℕ → ℕ → Bool
ends_after none t = true
ends_after (some u) t = not (leb u t)

-- The format and the creation time of a `SecretKey` are always such.
unfoldable pub validate : SecretKey → Bool
validate k =
    not (k.key_id == "")
    && not (k.secret_name == "")
    && not (k.encrypted_material == "")
    && ends_after k.valid_until k.valid_from

module _ {O : Type 0} (c : Crypto O) where
  abbrev pub to_pem : Bytes → String
  to_pem b =
      "-----BEGIN SECRET KEY-----\n" <> wrapped 64 (c.to_base64 b) <> "\n-----END SECRET KEY-----"

  abbrev pub format_key : Bytes → KeyFormat → String
  format_key b base64 = c.to_base64 b
  format_key b hex = c.to_hex b
  format_key b pem = to_pem b
  format_key b raw = c.to_utf8 b

  abbrev pub generate_key_id : Eff O String
  generate_key_id = do
    now ← λ o. returned (c.clock o) o
    suffix ← c.random_bytes 8
    pure (c.base36 now <> "-" <> c.to_hex suffix)

  unfoldable pub generate : ℕ → KeyGenerationOptions → Eff O SecretKey
  generate key_length_bits options = do
    material ← c.random_bytes (eighths 0 key_length_bits)
    now ← λ o. returned (c.clock o) o
    id ← generate_key_id
    pure (record {
      key_id = id;
      secret_name = options.secret_name;
      encrypted_material = format_key material (or_else options.format base64);
      format = or_else options.format base64;
      valid_from = now;
      valid_until = none;
      status = pending;
      created_at = now;
      rotated_at = none;
      revoked_at = none;
      metadata = options.metadata;
    })

  abbrev pub sealed_text : Bytes → Bytes × Bytes → String
  sealed_text iv sealed =
      c.to_base64 iv <> ":" <> (c.to_base64 sealed.0 <> ":" <> c.to_base64 sealed.1)

  -- The message of a key of the wrong length quotes the length too.
  unfoldable pub encrypt : SecretKey → String → Eff O SecretKey
  encrypt k encryption_key =
      if nat_beq (length (c.from_base64 encryption_key)) 32
      then (do
        iv ← c.random_bytes 12
        pure (record k {
          encrypted_material =
              sealed_text iv
                (c.seal (c.from_base64 encryption_key) iv (c.from_utf8 k.encrypted_material));
        }))
      else throw bad_length

  abbrev pub decrypted : SecretKey → Option Bytes → Eff O SecretKey
  decrypted k none = throw not_authentic
  decrypted k (some b) = pure (record k { encrypted_material = c.to_utf8 b })

  abbrev pub open_parts : SecretKey → Bytes → List String → Eff O SecretKey
  open_parts k key (iv ∷ ct ∷ tag ∷ []) =
      if not (nat_beq (length (c.from_base64 iv)) 12)
      then throw bad_iv
      else if not (nat_beq (length (c.from_base64 tag)) 16)
      then throw bad_tag
      else decrypted k (c.unseal key (c.from_base64 iv) (c.from_base64 tag) (c.from_base64 ct))
  open_parts k key parts = throw bad_parts

  unfoldable pub decrypt : SecretKey → String → Eff O SecretKey
  unfolding split_colons
  decrypt k encryption_key =
      if nat_beq (length (c.from_base64 encryption_key)) 32
      then open_parts k (c.from_base64 encryption_key) (split_colons k.encrypted_material)
      else throw bad_length

  unfoldable pub is_valid_encryption_key : String → Bool
  is_valid_encryption_key encryption_key = nat_beq (length (c.from_base64 encryption_key)) 32

  unfoldable pub generate_encryption_key : Eff O String
  generate_encryption_key = do key ← c.random_bytes 32; pure (c.to_base64 key)
