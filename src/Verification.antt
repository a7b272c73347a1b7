-- ===== src/Verification.antt =====
-- packages/types/src/verification.ts: consumers, and what a verification takes and gives. A ratio
-- (coverage, usage, error rate, multiplier) is of a type `Ratio` of its own.
use secret_rotation_kit.Prelude.{ℕ, Bool, Option, List, String}
use secret_rotation_kit.Types.{Metadata}

pub record RetryPolicy (Ratio : Type 0) : Type 0 where
  pub max_retries : ℕ
  pub backoff_multiplier : Ratio
  pub initial_delay_ms : ℕ
  pub max_delay_ms : ℕ

pub record ConsumerCapabilities : Type 0 where
  pub supports_version_check : Bool
  pub supports_health_check : Bool
  pub supports_callback : Bool

pub data AuthType : Type 0 where
  bearer mtls api_key : AuthType

pub record ConsumerAuthConfig : Type 0 where
  pub auth_type : AuthType
  pub credentials : List (String × String)

pub record Consumer : Type 0 where
  pub id : String
  pub endpoint : String
  pub interested_secrets : List String
  pub groups : Option (List String)
  pub capabilities : ConsumerCapabilities
  pub auth : Option ConsumerAuthConfig

pub record ConsumerVerificationResult : Type 0 where
  pub consumer_id : String
  pub success : Bool
  pub current_version : Option String
  pub verified_at : Option ℕ
  pub error : Option String
  pub can_retry : Bool

pub record ConsumerVerificationFailure : Type 0 where
  pub consumer_id : String
  pub reason : String
  pub can_retry : Bool

pub record VerificationResult (Ratio : Type 0) : Type 0 where
  pub success : Bool
  pub consumer_count : ℕ
  pub verified_count : ℕ
  pub coverage : Ratio
  pub duration : ℕ
  pub failures : List ConsumerVerificationFailure
  pub can_retry : Bool
  pub metadata : Option Metadata

pub record VerificationOptions (Ratio : Type 0) : Type 0 where
  pub timeout : Option ℕ
  pub per_consumer_timeout : Option ℕ
  pub min_consumer_coverage : Option Ratio
  pub min_new_key_usage : Option Ratio
  pub error_threshold : Option Ratio
  pub retry_policy : Option (RetryPolicy Ratio)
  pub metadata : Option Metadata
