-- ===== src/Active.antt =====
-- packages/core/src/active-verifier.ts. The states of verifications are those of `Polling`. What is
-- fetched is arbitrary, on a state of its own. The checks of the consumers, which run side by side, are
-- taken one after another, each with its own readings of the clock. Logging is left out.
-- A timer goes off as soon as its time is reached.
pub mod Checks
pub mod Covered
use secret_rotation_kit.Prelude.{
  ◌⊎◌, inl, inr, ℕ, zero, suc, ◌+◌, ◌-◌, ◌<>◌, Bool, true, false, not, ◌&&◌, ◌||◌, Option, none,
  some, List, [], ◌∷◌, ◌++◌, String, ◌==◌, string_eq, if◌then◌else◌, leb, nat_beq, length, filter,
  map,
}
use secret_rotation_kit.Map
use secret_rotation_kit.Map.{Map}
use secret_rotation_kit.Effect.{
  Error, plain_error, staged_error, Eff, Outcome, returned, thrown, after, ◌>>=◌, ◌>>◌, pure, throw,
  verification,
}
use secret_rotation_kit.Types.{RotationSession}
use secret_rotation_kit.Workflow.{or_else}
use secret_rotation_kit.Verification.{
  RetryPolicy, Consumer, ConsumerAuthConfig, bearer, mtls, api_key, ConsumerVerificationResult,
  ConsumerVerificationFailure, VerificationOptions, VerificationResult,
}
use secret_rotation_kit.Retry.{RetryResult, Operation, retry}
use secret_rotation_kit.Consumers.{
  ConsumerRegistry, RegistryOptions, get_consumers, record_success, record_failure,
}
use secret_rotation_kit.Active.Checks.{Network, is_aborted, guarded_check}
use secret_rotation_kit.Polling.{
  Verifier, VerificationState, Surroundings, completed, failed, already_in_progress, busy,
  begin_verification, deactivate, set_at,
}

-- What the verifier works on besides its map of verifications.
pub record Consuming (E : Type 0) : Type 0 where
  pub registry : ConsumerRegistry
  pub network : E

-- The ratio of two numbers, the comparison `>=`, and the default for the coverage.
pub record Ratios (Ratio : Type 0) : Type 0 where
  pub ratio : ℕ → ℕ → Ratio
  pub at_least : Ratio → Ratio → Bool
  pub default_coverage : Ratio

-- `setTimeout` takes a delay of 0 for one of 1.
abbrev pub timer_delay : ℕ → ℕ
timer_delay zero = 1
timer_delay (suc n) = suc n

module _ {E : Type 0} (net : Network E) (print : ℕ → String) (policy : RetryPolicy ℕ)
    (options : RegistryOptions) where
  abbrev pub passed : Consumer → ℕ → String → ℕ → ConsumerVerificationResult
  passed c start version t = record {
    consumer_id = c.id;
    success = true;
    current_version = some version;
    verified_at = some t;
    error = none;
    can_retry = false;
  }

  abbrev pub not_passed : Consumer → String → Bool → ConsumerVerificationResult
  not_passed c message can_retry = record {
    consumer_id = c.id;
    success = false;
    current_version = none;
    verified_at = none;
    error = some message;
    can_retry = can_retry;
  }

  abbrev pub failing :
      Consumer → String → Bool → ConsumerRegistry → E → ConsumerVerificationResult × Consuming E
  failing c message can_retry r e = (
    not_passed c message can_retry,
    record { registry = record_failure options c.id (net.clock e) r; network = e },
  )

  -- The race of `withTimeout` is decided by the time at which the retried check ends.
  abbrev pub judged :
      Consumer
      → ℕ
      → ℕ
      → ConsumerRegistry
      → Outcome E (RetryResult String)
      → ConsumerVerificationResult × Consuming E
  judged c start timeout r o =
      if is_aborted net print (start + timer_delay timeout) (after o)
      then failing c ("Consumer verification timed out after " <> print timeout <> "ms") false r
          (after o)
      else elim o [
        | thrown x e ↦ failing c x.message true r e
        | returned a e ↦ (
          passed c start a.result (net.clock e),
          record {
            registry = record_success c.id (net.clock e - start) (net.clock e) (net.clock e) r;
            network = e;
          },
        )
      ]

  unfoldable pub verify_consumer :
      Consumer → String → String → ℕ → Consuming E → ConsumerVerificationResult × Consuming E
  verify_consumer c name expected timeout s =
      let start = net.clock s.network in
      judged c start timeout s.registry (
        retry policy (guarded_check net print c name expected (start + timer_delay timeout))
          s.network)

  -- The results, in the order of the consumers.
  unfoldable pub verify_consumers :
      List Consumer
      → String
      → String
      → ℕ
      → Consuming E
      → List ConsumerVerificationResult × Consuming E
  verify_consumers [] name expected timeout s = ([], s)
  verify_consumers (c ∷ cs) name expected timeout s =
      let (r, t) = verify_consumer c name expected timeout s in
      let (rs, u) = verify_consumers cs name expected timeout t in (r ∷ rs, u)

  abbrev pub is_failure : ConsumerVerificationResult → Bool
  is_failure r = not r.success

  abbrev pub mapped_failure : ConsumerVerificationResult → ConsumerVerificationFailure
  mapped_failure r = record {
    consumer_id = r.consumer_id;
    reason = or_else r.error "Unknown failure";
    can_retry = r.can_retry;
  }

  abbrev pub some_can_retry : List ConsumerVerificationResult → Bool
  some_can_retry [] = false
  some_can_retry (r ∷ rs) = r.can_retry || some_can_retry rs

  module _ {Ratio : Type 0} (x : Surroundings (Consuming E) Ratio) (q : Ratios Ratio) where
    abbrev pub without_consumers : ℕ → VerificationResult Ratio
    without_consumers duration = record {
      success = true;
      consumer_count = 0;
      verified_count = 0;
      coverage = x.one_ratio;
      duration = duration;
      failures = [];
      can_retry = false;
      metadata = none;
    }

    abbrev pub coverage_of : List ConsumerVerificationResult → Ratio
    coverage_of rs = q.ratio (length rs - length (filter is_failure rs)) (length rs)

    -- The result of checks, of which there is at least one.
    abbrev pub result_of : List ConsumerVerificationResult → Ratio → ℕ → VerificationResult Ratio
    result_of rs min_coverage duration =
        let failures = filter is_failure rs in
        let enough = q.at_least (coverage_of rs) min_coverage in
        record {
          success = enough;
          consumer_count = length rs;
          verified_count = length rs - length failures;
          coverage = coverage_of rs;
          duration = duration;
          failures = map mapped_failure failures;
          can_retry = not enough && some_can_retry failures;
          metadata = none;
        }

    abbrev pub finished_state :
        List ConsumerVerificationResult → Ratio → VerificationState Ratio → VerificationState Ratio
    finished_state rs min_coverage s = record s {
      progress = x.one_ratio;
      state = if q.at_least (coverage_of rs) min_coverage then completed else failed;
      checked_consumers = map (λ r. r.consumer_id) rs;
      failed_consumers = map (λ r. r.consumer_id) (filter is_failure rs);
    }

    -- The `try` block, once the verification has begun: nothing in it throws.
    unfoldable pub run_checks :
        RotationSession
        → VerificationOptions Ratio
        → ℕ
        → ℕ
        → List Consumer
        → Verifier (Consuming E) Ratio
        → VerificationResult Ratio × Verifier (Consuming E) Ratio
    run_checks session o start id [] v =
        (without_consumers (net.clock v.outside.network - start), v)
    run_checks session o start id (c ∷ cs) v =
        let min_coverage = or_else o.min_consumer_coverage q.default_coverage in
        let timeout = (start + or_else o.timeout 30000) - net.clock v.outside.network in
        let (rs, s) =
          verify_consumers (c ∷ cs) session.secret_name (or_else session.state.version_id "")
            timeout v.outside in
        (
          result_of rs min_coverage (net.clock s.network - start),
          set_at x print id (finished_state rs min_coverage) (record v { outside = s }),
        )

    unfoldable pub verify :
        RotationSession
        → VerificationOptions Ratio
        → Eff (Verifier (Consuming E) Ratio) (VerificationResult Ratio)
    verify session o v =
        if busy x print (Map.get v.active_verifications session.session_id) v
        then thrown already_in_progress v
        else (let start = net.clock v.outside.network in
            let cs = get_consumers options v.outside.registry session.secret_name start in
            let (a, t) =
              run_checks session o start (length v.heap) cs
                (begin_verification x print session.session_id v) in
            returned a (deactivate x print session.session_id (length v.heap) t))
