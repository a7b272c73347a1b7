-- ===== src/Active/Checks.antt =====
-- packages/core/src/active-verifier.ts: the check of one consumer. What is fetched is arbitrary, on a
-- state of its own.
use secret_rotation_kit.Prelude.{
  ◌⊎◌, inl, inr, ℕ, ◌<>◌, Bool, true, not, ◌&&◌, Option, none, some, [], ◌∷◌, String, ◌==◌,
  string_eq, if◌then◌else◌, leb,
}
use secret_rotation_kit.Map
use secret_rotation_kit.Map.{Map}
use secret_rotation_kit.Effect.{
  Error, plain_error, staged_error, Eff, thrown, ◌>>=◌, pure, throw, verification,
}
use secret_rotation_kit.Workflow.{or_else}
use secret_rotation_kit.Verification.{Consumer, ConsumerAuthConfig, bearer, mtls, api_key}
use secret_rotation_kit.Retry.{Operation}

-- A response: `ok`, `status`, and the fields of its body, where it is JSON.
pub record Response : Type 0 where
  pub ok : Bool
  pub status : ℕ
  pub body : Option (Option String × Option String)

abbrev pub Headers : Type 0
Headers = Map String String

-- `fetch`, the pause between attempts, the clock, and `encodeURIComponent`.
pub record Network (E : Type 0) : Type 0 where
  pub fetch : String → Headers → Eff E Response
  pub pause : ℕ → E → E
  pub clock : E → ℕ
  pub encode : String → String

abbrev credential : Map String String → String → Option String
credential m k = Map.get m k

abbrev or_credential : Option String → Option String → Option String
or_credential none o = o
or_credential (some v) o = some v

abbrev auth_headers : String → Option ConsumerAuthConfig → Headers → Headers ⊎ Error
auth_headers id none headers = inl headers
auth_headers id (some a) headers = elim a.auth_type [
  | bearer ↦
      inl (
        Map.set headers "Authorization"
          ("Bearer " <> or_else (credential a.credentials "token") ""))
  | mtls ↦ inr (
      plain_error (
        "Consumer " <> id
        <> ": mTLS auth is not yet supported. Use \"bearer\" or \"api-key\" instead."))
  | api_key ↦ inl (
      Map.set headers (or_else (credential a.credentials "header") "X-API-Key") (
        or_else
          (or_credential (credential a.credentials "api-key") (credential a.credentials "key")) ""))
]

unfoldable pub build_auth_headers : Consumer → Headers ⊎ Error
build_auth_headers c = auth_headers c.id c.auth (("Accept", "application/json") ∷ [])

module _ {E : Type 0} (net : Network E) (print : ℕ → String) where
  abbrev pub fetch_with : Headers ⊎ Error → String → Eff E Response
  fetch_with (inl headers) url = net.fetch url headers
  fetch_with (inr e) url = throw e

  abbrev pub reported : Option (Option String × Option String) → Option String
  reported none = none
  reported (some (version, version_id)) = some (or_else version (or_else version_id ""))

  abbrev compared : Consumer → String → Option String → Eff E String
  compared c expected none = throw (plain_error "Unexpected token in JSON")
  compared c expected (some v) =
      if v == ""
      then throw
          (staged_error ("Consumer " <> c.id <> " did not report a version") verification true)
      else if not (expected == "") && not (v == expected)
      then throw (
          staged_error ("Consumer " <> c.id <> " has version " <> v <> ", expected " <> expected)
            verification true)
      else pure v

  unfoldable pub check_consumer_version : Consumer → String → String → Eff E String
  unfolding build_auth_headers
  check_consumer_version c name expected = do
    response ←
        fetch_with (build_auth_headers c)
          (c.endpoint <> "/secret/" <> net.encode name <> "/version")
    if not response.ok
        then throw (
            staged_error ("Consumer " <> c.id <> " returned HTTP " <> print response.status)
              verification true)
        else compared c expected (reported response.body)

  unfoldable pub check_consumer_health : Consumer → Eff E String
  unfolding build_auth_headers
  check_consumer_health c = do
    response ← fetch_with (build_auth_headers c) (c.endpoint <> "/health")
    if not response.ok
        then throw (
            staged_error
              ("Consumer " <> c.id <> " health check returned HTTP " <> print response.status)
              verification true)
        else pure "healthy"

  -- The check that the consumer supports; without one it counts as verified.
  unfoldable pub check_consumer : Consumer → String → String → Eff E String
  unfolding check_consumer_version check_consumer_health
  check_consumer c name expected =
      if c.capabilities.supports_version_check
      then check_consumer_version c name expected
      else if c.capabilities.supports_health_check
      then check_consumer_health c
      else pure expected

  -- The timer of `withTimeout` has gone off, and the controller is aborted.
  abbrev pub is_aborted : ℕ → E → Bool
  is_aborted deadline e = leb deadline (net.clock e)

  abbrev pub aborted : Error
  aborted = plain_error "Consumer verification aborted"

  -- What is retried, until the deadline.
  abbrev pub guarded_check : Consumer → String → String → ℕ → Operation E String
  guarded_check c name expected deadline = record {
    fn = λ e. if is_aborted deadline e then thrown aborted e else check_consumer c name expected e;
    should_retry = λ x e. not (is_aborted deadline e);
    clock = net.clock;
    pause = net.pause;
  }
