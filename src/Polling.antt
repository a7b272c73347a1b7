-- ===== src/Polling.antt =====
-- packages/core/src/polling-verifier.ts. The states of verifications are objects that a running
-- `verify` and the map of active ones share: they stand in a heap, by their number. What is awaited,
-- the provider and the pause, may do anything to all of the verifier meanwhile, such as a cancellation
-- or another verification; the code between takes no time. Logging is left out.
pub mod Guard
pub mod Outcomes
pub mod Ending
use secret_rotation_kit.Prelude.{
  ℕ, zero, suc, ◌+◌, ◌-◌, ◌<>◌, Bool, true, false, not, Option, none, some, List, [], ◌∷◌, ◌++◌,
  String, ◌==◌, string_eq, if◌then◌else◌, ltb, nat_beq, length,
}
use secret_rotation_kit.Prelude.Int.{pos}
use secret_rotation_kit.Map
use secret_rotation_kit.Map.{Map}
use secret_rotation_kit.Effect.{Error, staged_error, Eff, Outcome, returned, thrown, verification}
use secret_rotation_kit.Types.{RotationSession, text, number}
use secret_rotation_kit.World.{SecretValue}
use secret_rotation_kit.Workflow.{or_else}
use secret_rotation_kit.Verification.{VerificationOptions, VerificationResult}

pub data Status : Type 0 where
  in_progress completed failed cancelled : Status

abbrev pub is_in_progress : Status → Bool
is_in_progress in_progress = true
is_in_progress s = false

abbrev pub is_cancelled : Status → Bool
is_cancelled cancelled = true
is_cancelled s = false

-- The resolver of the pause is part of the pause.
pub record VerificationState (Ratio : Type 0) : Type 0 where
  pub state : Status
  pub progress : Ratio
  pub checked_consumers : List String
  pub failed_consumers : List String
  pub started_at : ℕ

pub record Verifier (E Ratio : Type 0) : Type 0 where
  pub heap : List (VerificationState Ratio)
  pub active_verifications : Map String ℕ
  pub outside : E

module _ {A : Type 0} where
  abbrev pub at : List A → ℕ → Option A
  at [] n = none
  at (x ∷ xs) zero = some x
  at (x ∷ xs) (suc n) = at xs n

  abbrev pub change : ℕ → (A → A) → List A → List A
  change n f [] = []
  change zero f (x ∷ xs) = f x ∷ xs
  change (suc n) f (x ∷ xs) = x ∷ change n f xs

-- `provider.getSecret`, the pause of a verification, `Date.now`, the numbers 0 and 1, and
-- `Math.min(elapsed / timeout, 0.99)`.
pub record Surroundings (E Ratio : Type 0) : Type 0 where
  pub get_secret : String → Option String → Eff (Verifier E Ratio) SecretValue
  pub pause : ℕ → ℕ → Verifier E Ratio → Verifier E Ratio
  pub clock : E → ℕ
  pub zero_ratio : Ratio
  pub one_ratio : Ratio
  pub progress_of : ℕ → ℕ → Ratio

abbrev pub already_in_progress : Error
already_in_progress =
    staged_error "Verification already in progress for this session" verification true

abbrev pub was_cancelled : Error
was_cancelled = staged_error "Verification cancelled" verification false

module _ {E Ratio : Type 0} (x : Surroundings E Ratio) (print : ℕ → String) where
  abbrev pub timed_out : ℕ → Error
  timed_out t =
      staged_error ("Propagation verification timed out after " <> print t <> "ms") verification
        true

  abbrev is_cancelled_in : Option (VerificationState Ratio) → Bool
  is_cancelled_in none = false
  is_cancelled_in (some s) = is_cancelled s.state

  -- `state.state === 'cancelled'`, of the state with a number.
  abbrev pub cancelled_at : ℕ → Verifier E Ratio → Bool
  cancelled_at id v = is_cancelled_in (at v.heap id)

  abbrev pub set_at :
      ℕ → (VerificationState Ratio → VerificationState Ratio) → Verifier E Ratio → Verifier E Ratio
  set_at id f v = record v { heap = change id f v.heap }

  abbrev checks_of : Option (VerificationState Ratio) → ℕ
  checks_of none = 0
  checks_of (some s) = length s.checked_consumers

  abbrev pub same_version : Option String → String → Bool
  same_version none i = false
  same_version (some j) i = i == j

  -- Whether the provider has the version, an error counting as not.
  unfoldable pub check_propagation : RotationSession → Verifier E Ratio → Bool × Verifier E Ratio
  check_propagation session v = elim (x.get_secret session.secret_name session.state.version_id v) [
    | returned secret t ↦ (same_version session.state.version_id secret.version_id, t)
    | thrown e t ↦ (false, t)
  ]

  abbrev pub begin_check : ℕ → ℕ → ℕ → Verifier E Ratio → Verifier E Ratio
  begin_check id start timeout v =
      set_at id
        (λ s. record s {
          progress = x.progress_of (x.clock v.outside - start) timeout;
          checked_consumers = s.checked_consumers ++ "provider_poll" ∷ [];
        })
        v

  abbrev pub verified :
      ℕ → ℕ → Verifier E Ratio → Outcome (Verifier E Ratio) (Option (VerificationResult Ratio))
  verified id start v =
      returned
        (some (record {
          success = true;
          consumer_count = 1;
          verified_count = 1;
          coverage = x.one_ratio;
          duration = x.clock v.outside - start;
          failures = [];
          can_retry = false;
          metadata = some (
              ("method", text "provider_poll")
              ∷ ("attempts", number (pos (checks_of (at v.heap id))))
              ∷ []);
        }))
        (set_at id (λ s. record s { progress = x.one_ratio; state = completed }) v)

  module _ (poll_interval : ℕ) (session : RotationSession) (id start timeout : ℕ) where
    abbrev pub time_over :
        Verifier E Ratio → Outcome (Verifier E Ratio) (Option (VerificationResult Ratio))
    time_over v = elim (cancelled_at id v) [
      | true ↦ thrown was_cancelled v
      | false ↦ thrown (timed_out timeout) (set_at id (λ s. record s { state = failed }) v)
    ]

    -- The loop, with a bound on its rounds; `none` says that it was not enough.
    unfoldable pub poll : ℕ → Eff (Verifier E Ratio) (Option (VerificationResult Ratio))
    poll zero v = returned none v
    poll (suc rounds) v = elim (ltb (x.clock v.outside) (start + timeout)) [
      | false ↦ time_over v
      | true ↦ elim (cancelled_at id v) [
        | true ↦ thrown was_cancelled v
        | false ↦
            let (found, u) = check_propagation session (begin_check id start timeout v) in
            elim found [
              | true ↦ verified id start u
              | false ↦ poll rounds (x.pause id poll_interval u)
            ]
      ]
    ]

  abbrev pub fail_unless_cancelled : VerificationState Ratio → VerificationState Ratio
  fail_unless_cancelled s = elim (is_cancelled s.state) [
    | true ↦ s
    | false ↦ record s { state = failed }
  ]

  abbrev pub is_own : Option ℕ → ℕ → Bool
  is_own none id = false
  is_own (some j) id = nat_beq j id

  -- The `finally` block: the entry is removed if it is still that of this call.
  unfoldable pub deactivate : String → ℕ → Verifier E Ratio → Verifier E Ratio
  deactivate name id v =
      if is_own (Map.get v.active_verifications name) id
      then record v { active_verifications = Map.delete v.active_verifications name }
      else v

  abbrev pub busy : Option ℕ → Verifier E Ratio → Bool
  busy none v = false
  busy (some id) v = elim (at v.heap id) [ none ↦ false | some s ↦ is_in_progress s.state ]

  abbrev pub new_state : ℕ → VerificationState Ratio
  new_state t = record {
    state = in_progress;
    progress = x.zero_ratio;
    checked_consumers = [];
    failed_consumers = [];
    started_at = t;
  }

  abbrev pub begin_verification : String → Verifier E Ratio → Verifier E Ratio
  begin_verification name v = record v {
    heap = v.heap ++ new_state (x.clock v.outside) ∷ [];
    active_verifications = Map.set v.active_verifications name (length v.heap);
  }

  unfoldable pub verify :
      ℕ
      → ℕ
      → RotationSession
      → VerificationOptions Ratio
      → Eff (Verifier E Ratio) (Option (VerificationResult Ratio))
  verify rounds poll_interval session options v =
      if busy (Map.get v.active_verifications session.session_id) v
      then thrown already_in_progress v
      else (let id = length v.heap in
          elim (poll poll_interval session id (x.clock v.outside) (or_else options.timeout 30000)
            rounds (begin_verification session.session_id v)) [
              | returned a t ↦ returned a (deactivate session.session_id id t)
              | thrown e t ↦
                  thrown e (deactivate session.session_id id (set_at id fail_unless_cancelled t))
            ])

  abbrev status_of : Option (VerificationState Ratio) → ℕ → VerificationState Ratio
  status_of none t = record (new_state t) { state = completed; progress = x.one_ratio }
  status_of (some s) t = s

  abbrev found_state : Option ℕ → Verifier E Ratio → Option (VerificationState Ratio)
  found_state none v = none
  found_state (some id) v = at v.heap id

  unfoldable pub get_verification_status :
      RotationSession → Verifier E Ratio → VerificationState Ratio
  get_verification_status session v =
      status_of (found_state (Map.get v.active_verifications session.session_id) v)
        (x.clock v.outside)

  abbrev cancel_found : Option ℕ → Verifier E Ratio → Verifier E Ratio
  cancel_found none v = v
  cancel_found (some id) v = set_at id (λ s. record s { state = cancelled }) v

  unfoldable pub cancel_verification : RotationSession → Verifier E Ratio → Verifier E Ratio
  cancel_verification session v = cancel_found (Map.get v.active_verifications session.session_id) v
