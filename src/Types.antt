-- ===== src/Types.antt =====
-- packages/types/src/rotation.ts: keys, sessions and events. A `Date` is its number of milliseconds
-- since the epoch; an optional property is an `Option`.
use secret_rotation_kit.Prelude.{
  ℕ, ◌<>◌, Bool, true, false, Option, none, some, List, [], String, string_eq,
}
use secret_rotation_kit.Prelude.Int.{ℤ}
use secret_rotation_kit.Map
use secret_rotation_kit.Map.{Map}
use secret_rotation_kit.Effect.{Error, plain_error, RotationStage}

pub data KeyStatus : Type 0 where
  pending active expired revoked failed : KeyStatus

pub KeyStatus-discrete : Discrete KeyStatus
KeyStatus-discrete = hlevel

-- `status === '...'`.
abbrev pub is_pending : KeyStatus → Bool
is_pending pending = true
is_pending _ = false

abbrev pub is_active : KeyStatus → Bool
is_active active = true
is_active _ = false

abbrev pub is_expired : KeyStatus → Bool
is_expired expired = true
is_expired _ = false

abbrev pub is_revoked : KeyStatus → Bool
is_revoked revoked = true
is_revoked _ = false

abbrev pub is_failed : KeyStatus → Bool
is_failed failed = true
is_failed _ = false

-- The status as the text that error messages quote.
abbrev pub status_text : KeyStatus → String
status_text pending = "pending"
status_text active = "active"
status_text expired = "expired"
status_text revoked = "revoked"
status_text failed = "failed"

pub data KeyFormat : Type 0 where
  base64 hex pem raw : KeyFormat

-- The metadata values that the program itself writes; a caller's are texts.
pub data Value : Type 0 where
  text : String → Value
  number : ℤ → Value
  time : ℕ → Value
  status : KeyStatus → Value
  flag : Bool → Value

abbrev pub Metadata : Type 0
Metadata = Map String Value

-- `{ ...metadata, key: value }`, where `metadata` may be undefined.
abbrev pub spread : Option Metadata → Metadata
spread none = []
spread (some m) = m

abbrev pub with_entry : Metadata → String → Value → Metadata
with_entry m k v = Map.set m k v

pub record SecretKey : Type 0 where
  pub key_id : String
  pub secret_name : String
  pub encrypted_material : String
  pub format : KeyFormat
  pub valid_from : ℕ
  pub valid_until : Option ℕ
  pub status : KeyStatus
  pub created_at : ℕ
  pub rotated_at : Option ℕ
  pub revoked_at : Option ℕ
  pub metadata : Option Metadata

pub record ProviderState : Type 0 where
  pub version_id : Option String
  pub version_stages : Option (List String)
  pub metadata : Option Metadata

pub record RotationState : Type 0 where
  pub secret_name : String
  pub active_key : Option SecretKey
  pub pending_keys : List SecretKey
  pub expired_keys : List SecretKey
  pub revoked_keys : List SecretKey
  pub failed_keys : List SecretKey
  pub last_rotation_at : Option ℕ
  pub rotation_count : ℕ

pub record RotationSession : Type 0 where
  pub session_id : String
  pub secret_name : String
  pub provider : String
  pub state : ProviderState
  pub started_at : ℕ

pub record KeyGeneratedEvent : Type 0 where
  pub secret_name : String
  pub key_id : String
  pub timestamp : ℕ
  pub metadata : Option Metadata

pub record KeyPropagatedEvent : Type 0 where
  pub secret_name : String
  pub key_id : String
  pub provider : String
  pub timestamp : ℕ
  pub propagation_time : ℤ
  pub metadata : Option Metadata

pub record KeyVerifiedEvent : Type 0 where
  pub secret_name : String
  pub key_id : String
  pub consumer_count : ℕ
  pub verification_time : ℕ
  pub timestamp : ℕ
  pub metadata : Option Metadata

pub record KeyActivatedEvent : Type 0 where
  pub secret_name : String
  pub key_id : String
  pub previous_key_id : Option String
  pub timestamp : ℕ
  pub metadata : Option Metadata

pub record KeyRevokedEvent : Type 0 where
  pub secret_name : String
  pub key_id : String
  pub reason : String
  pub timestamp : ℕ

pub record RotationFailedEvent : Type 0 where
  pub secret_name : String
  pub key_id : Option String
  pub error : String
  pub stage : RotationStage
  pub timestamp : ℕ
  pub can_retry : Bool
  pub metadata : Option Metadata

pub data RotationEvent : Type 0 where
  key_generated : KeyGeneratedEvent → RotationEvent
  key_propagated : KeyPropagatedEvent → RotationEvent
  key_verified : KeyVerifiedEvent → RotationEvent
  key_activated : KeyActivatedEvent → RotationEvent
  key_revoked : KeyRevokedEvent → RotationEvent
  rotation_failed : RotationFailedEvent → RotationEvent

-- `new Error(`Key not found: ${secretName}/${keyId}`)`.
abbrev pub key_not_found : String → String → Error
key_not_found n i = plain_error ("Key not found: " <> n <> "/" <> i)
