-- ===== src/Manager.antt =====
-- packages/core/src/rotation-manager.ts: the entry point, which validates a name, refuses a second
-- rotation of a secret, takes a token of the rate limiter, and runs the workflow; and the loop of
-- automatic rotations. Logging is left out. Rotations that overlap are in `Overlap`.
pub mod Admission
pub mod Overlap
pub mod Whole
pub mod Schedule
use secret_rotation_kit.Prelude.{
  ℕ, ◌+◌, ◌-◌, ◌<>◌, Bool, true, false, not, ◌&&◌, ◌||◌, Option, none, some, List, [], ◌∷◌, ◌++◌,
  String, ◌==◌, string_eq, if◌then◌else◌, nat_beq, filter,
}
use secret_rotation_kit.Effect.{
  Error, ErrorClass, plain, rotation_error, plain_error, staged_error, Eff, Outcome, returned,
  thrown, ◌>>=◌, ◌>>◌, pure, throw, try_catch, generation,
}
use secret_rotation_kit.Js.{text}
use secret_rotation_kit.Types.{KeyFormat, Metadata, RotationState}
use secret_rotation_kit.Validation.{validate_secret_name, assert_valid}
use secret_rotation_kit.KeyStore.{KeyStore}
use secret_rotation_kit.Lifecycle.{get_state}
use secret_rotation_kit.World.{Env, World, now}
use secret_rotation_kit.Limiter.{Limits, Buckets, consume}
use secret_rotation_kit.Workflow.{RotationRequest, RotationResult, Setup, or_else}
use secret_rotation_kit.Workflow.Execute.{execute}

-- `Partial<RotationRequest>`.
pub record RotationOptions (Ratio : Type 0) : Type 0 where
  pub secret_name : Option String
  pub key_format : Option KeyFormat
  pub force : Bool
  pub overlap_period_ms : Option ℕ
  pub verification_timeout : Option ℕ
  pub min_consumer_coverage : Option Ratio
  pub metadata : Option Metadata

pub record RollbackConfig : Type 0 where
  pub enabled : Option Bool
  pub max_entries : Option ℕ

-- The settings; an interval is not negative.
pub record RotationManagerConfig (Ratio : Type 0) : Type 0 where
  pub rotation_interval_ms : Option ℕ
  pub verification_timeout_ms : Option ℕ
  pub min_consumer_coverage : Option Ratio
  pub validate_inputs : Option Bool
  pub rollback : Option RollbackConfig

-- `createRotationConfig`, with 1.0 as a parameter.
unfoldable pub create_rotation_config :
    {Ratio : Type 0} → Ratio → RotationManagerConfig Ratio → RotationManagerConfig Ratio
create_rotation_config full c = record c {
  verification_timeout_ms = some (or_else c.verification_timeout_ms 30000);
  min_consumer_coverage = some (or_else c.min_consumer_coverage full);
}

abbrev rollback_of : RollbackConfig → Option ℕ
rollback_of r = if or_else r.enabled true then some (or_else r.max_entries 100) else none

-- What the constructor passes on to the workflow.
abbrev pub setup_of : {Ratio : Type 0} → RotationManagerConfig Ratio → Setup
setup_of c = record {
  has_emitter = true;
  rollback = rollback_of (or_else c.rollback (record { enabled = none; max_entries = none }));
}

-- What decides whether a rotation may begin: the limiter's buckets, and the set `rotatingSecrets`.
pub record Gate : Type 0 where
  pub buckets : Buckets
  pub rotating : List String

abbrev pub has_name : String → List String → Bool
has_name n [] = false
has_name n (m ∷ ms) = (m == n) || has_name n ms

-- `Set.add` and `Set.delete`.
abbrev pub add_name : String → List String → List String
add_name n ms = if has_name n ms then ms else ms ++ n ∷ []

unfoldable pub remove_name : String → List String → List String
remove_name n ms = filter (λ m. not (m == n)) ms

abbrev pub in_progress : String → Error
in_progress n = staged_error ("Rotation already in progress for secret: " <> n) generation true

-- `if (error instanceof RotationError) throw error; throw new RotationError(error.message, …)`.
abbrev pub wrapped_class : ErrorClass → ErrorClass
wrapped_class plain = rotation_error (some generation) true
wrapped_class (rotation_error s r) = rotation_error s r

abbrev pub as_rotation_error : Error → Error
as_rotation_error e = record e { class = wrapped_class e.class }

module _ (print : ℕ → String) where
  -- `assertValid(validateSecretName(name), context)`, where names are validated.
  abbrev pub check_name : {S : Type 0} → Bool → String → String → Eff S (Unit {0})
  check_name validates name context s =
      if validates
      then assert_valid (validate_secret_name print (text name)) (some context) s
      else returned tt s

  -- `rotate` up to the call of the workflow, at a reading of the clock.
  unfoldable pub admit : Limits → Bool → String → Bool → ℕ → Eff Gate (Unit {0})
  admit limits validates name force t = do
    check_name validates name "secretName"
    λ g.
        if has_name name g.rotating && not force
        then thrown (in_progress name) g
        else elim (consume limits name t g.buckets) [
          | thrown e b ↦ thrown (as_rotation_error e) (record g { buckets = b })
          | returned _ b ↦
              returned (tt {0}) (record { buckets = b; rotating = add_name name g.rotating })
        ]

-- The `finally` block.
abbrev pub leave : String → Gate → Gate
leave name g = record g { rotating = remove_name name g.rotating }

-- The manager: `scheduleActive`, and `scheduleTimer` as the delay of the timer that is set.
pub record Manager (S O : Type 0) : Type 0 where
  pub gate : Gate
  pub world : World S O
  pub schedule_active : Bool
  pub schedule_timer : Option ℕ

module _ {S O A : Type 0} where
  abbrev pub in_gate : Eff Gate A → Eff (Manager S O) A
  in_gate c m = elim (c m.gate) [
    | returned a g ↦ returned a (record m { gate = g })
    | thrown e g ↦ thrown e (record m { gate = g })
  ]

  abbrev pub in_world : Eff (World S O) A → Eff (Manager S O) A
  in_world c m = elim (c m.world) [
    | returned a w ↦ returned a (record m { world = w })
    | thrown e w ↦ thrown e (record m { world = w })
  ]

  -- `try { c } finally { f }`, with an `f` that does not throw.
  abbrev pub finally : Eff (Manager S O) A → (Manager S O → Manager S O) → Eff (Manager S O) A
  finally c f m = elim (c m) [ returned a t ↦ returned a (f t) | thrown e t ↦ thrown e (f t) ]

module _ {S O Ratio : Type 0} (ks : KeyStore S) (env : Env O Ratio) (print : ℕ → String)
    (limits : Limits) (config : RotationManagerConfig Ratio) where
  abbrev pub validates : Bool
  validates = or_else config.validate_inputs true

  -- The request, in which an option replaces what stands before it: also `secretName`.
  abbrev pub request_of : String → RotationOptions Ratio → RotationRequest Ratio
  request_of name o = record {
    secret_name = or_else o.secret_name name;
    key_format = o.key_format;
    overlap_period_ms = o.overlap_period_ms;
    verification_timeout =
        some (or_else o.verification_timeout (or_else config.verification_timeout_ms 30000));
    min_consumer_coverage =
        some (
          or_else o.min_consumer_coverage (or_else config.min_consumer_coverage env.full_coverage));
    metadata = o.metadata;
  }

  unfoldable pub rotate : String → RotationOptions Ratio → Eff (Manager S O) RotationResult
  rotate name o = do
    t ← in_world (now env)
    in_gate (admit print limits validates name o.force t)
    finally (in_world (execute ks env (setup_of config) (request_of name o)))
        (λ m. record m { gate = leave name m.gate })

  unfoldable pub get_rotation_state : String → Eff (Manager S O) RotationState
  unfolding get_state
  get_rotation_state name = do
    check_name print validates name "secretName"
    λ m. returned (get_state ks m.world.store name) m

  abbrev pub no_options : RotationOptions Ratio
  no_options = record {
    secret_name = none;
    key_format = none;
    force = false;
    overlap_period_ms = none;
    verification_timeout = none;
    min_consumer_coverage = none;
    metadata = none;
  }

  -- `on_error` is the callback for a rotation that failed; `meanwhile` is what else the program has
  -- done with the manager when the rotation of a secret is over.
  module _ (on_error : String → Error → Eff (Manager S O) (Unit {0}))
      (meanwhile : String → Manager S O → Manager S O) where
    -- One secret of the loop: neither the rotation nor the callback lets an error out.
    unfoldable pub rotate_scheduled : String → Manager S O → Manager S O
    rotate_scheduled name m = elim (rotate name no_options m) [
      | returned r t ↦ meanwhile name t
      | thrown e t ↦ elim (on_error name e (meanwhile name t)) [ returned _ v ↦ v | thrown _ v ↦ v ]
    ]

    -- The loop over the secrets: whether it reached the end, and the manager then.
    unfoldable pub pass_over : List String → Manager S O → Bool × Manager S O
    pass_over [] m = (true, m)
    pass_over (n ∷ ns) m = elim m.schedule_active [
      | false ↦ (false, m)
      | true ↦ pass_over ns (rotate_scheduled n m)
    ]

    unfoldable pub reschedule : ℕ → Manager S O → Manager S O
    reschedule deadline m = elim (now env m.world) [
      | returned t w ↦ record m { world = w; schedule_timer = some (deadline - t) }
      | thrown e w ↦ record m { world = w }
    ]

    unfoldable pub schedule_loop : List String → ℕ → Manager S O → Manager S O
    schedule_loop names interval m = elim (now env m.world) [
      | returned t w ↦
          let (ended, v) = pass_over names (record m { world = w }) in
          elim ended [ true ↦ reschedule (t + interval) v | false ↦ v ]
      | thrown e w ↦ record m { world = w }
    ]

    abbrev pub check_names : List String → Eff (Manager S O) (Unit {0})
    check_names [] = pure tt
    check_names (n ∷ ns) = do
      check_name print validates n ("secretName \"" <> n <> "\"")
      check_names ns

    abbrev begin_schedule : List String → ℕ → Eff (Manager S O) (Unit {0})
    begin_schedule names interval = do
      check_names names
      λ m. returned (tt {0}) (schedule_loop names interval (record m { schedule_active = true }))

    -- `start`, with the first round of the loop that it leaves running.
    unfoldable pub start : List String → Eff (Manager S O) (Unit {0})
    start [] m = thrown (plain_error "At least one secret name must be provided") m
    start (n ∷ ns) m = elim config.rotation_interval_ms [
      | none ↦ thrown (plain_error "rotationIntervalMs must be set to start automatic rotation") m
      | some interval ↦
          if nat_beq interval 0
          then thrown (plain_error "rotationIntervalMs must be set to start automatic rotation") m
          else if m.schedule_active
          then thrown (plain_error "Automatic rotation already started") m
          else begin_schedule (n ∷ ns) interval m
    ]

    unfoldable pub stop : Manager S O → Manager S O
    stop m = record m { schedule_active = false; schedule_timer = none }
