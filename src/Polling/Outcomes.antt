-- ===== src/Polling/Outcomes.antt =====
-- How a verification by polling ends.
use secret_rotation_kit.Prelude.{
  ℕ, zero, suc, ◌+◌, ◌≤◌, ◌≡◌, ◌≢◌, refl, sym, ap, subst, ◌⊎◌, inl, inr, true, Option, none, some,
  String, string_eq, ltb, length, ltb_false→le, Bool-cases, eq_of_beq, nat_beq_iff, beq_self,
}
use secret_rotation_kit.Map
use secret_rotation_kit.Effect.{
  Error, returned, Holds, on_return, on_throw, Holds-after, Outcome-cases,
}
use secret_rotation_kit.Types.{RotationSession}
use secret_rotation_kit.World.{SecretValue}
use secret_rotation_kit.Workflow.{or_else}
use secret_rotation_kit.Verification.{VerificationOptions, VerificationResult}
use secret_rotation_kit.Polling.{
  Verifier, Surroundings, already_in_progress, was_cancelled, timed_out, cancelled_at, begin_check,
  same_version, check_propagation, time_over, poll, deactivate, is_own, begin_verification,
  fail_unless_cancelled, set_at, verify,
}
use secret_rotation_kit.Polling.Guard.{
  InProgress, IsFree, CancelledAt, busy-cases, cancelled-At, deactivate-CancelledAt,
  outside-deactivate,
}

module _ {E Ratio : Type 0} (x : Surroundings E Ratio) (print : ℕ → String) (poll_interval : ℕ)
    (session : RotationSession) where
  -- The provider reported the version of the session, in some state of the verifier.
  abbrev pub Reported : Type 0
  Reported =
      (u t : Verifier E Ratio) × (secret : SecretValue) × (x.get_secret session.secret_name
          session.state.version_id u
        ≡ returned secret t)
      × (session.state.version_id ≡ some secret.version_id)

  -- The verification has been cancelled, or its deadline has passed.
  abbrev pub Stopped : ℕ → ℕ → ℕ → Error → Verifier E Ratio → Type 0
  Stopped id start timeout e t =
      ((e ≡ was_cancelled) × CancelledAt id t)
      ⊎ ((e ≡ timed_out x print timeout) × (start + timeout ≤ x.clock t.outside))

  abbrev pub Confirmed : Option (VerificationResult Ratio) → Type 0
  Confirmed none = Unit
  Confirmed (some r) = (r.success ≡ true) × Reported

  checked : (v : Verifier E Ratio) → (check_propagation x print session v).0 ≡ true → Reported
  unfolding check_propagation
  checked v h = elim (Outcome-cases (x.get_secret session.secret_name session.state.version_id v)) [
    | inl (secret, t, q) ↦ (
      v,
      t,
      secret,
      q,
      same session.state.version_id secret.version_id (rw (check_propagation, q) at h),
    )
    | inr (e, t, q) ↦ absurd (let r = rw (check_propagation, q) at h in cc)
  ]
    where
      same : (o : Option String) (i : String) → same_version x print o i ≡ true → o ≡ some i
      same none i e = absurd cc
      same (some j) i e = ap some (sym (eq_of_beq i j e))

  module _ (id start timeout : ℕ) where
    over :
        (v : Verifier E Ratio)
        → start + timeout ≤ x.clock v.outside
        → Holds
            (λ a _. Confirmed a)
            (λ e t. Stopped id start timeout e t)
            (time_over x print poll_interval session id start timeout v)
    over v l = elim (Bool-cases (cancelled_at x print id v)) [
      | inl c ↦ rw (time_over, c) (on_throw (inl (refl, cancelled-At x print id v c)))
      | inr c ↦ rw (time_over, c) (on_throw (inr (refl, l)))
    ]

    poll-Confirmed :
        (rounds : ℕ) (v : Verifier E Ratio)
        → Holds
            (λ a _. Confirmed a)
            (λ e t. Stopped id start timeout e t)
            (poll x print poll_interval session id start timeout rounds v)
    unfolding poll
    poll-Confirmed zero v = on_return tt
    poll-Confirmed (suc rounds) v = elim (Bool-cases (ltb (x.clock v.outside) (start + timeout))) [
      | inr e ↦ rw (poll, e) (over v (ltb_false→le (x.clock v.outside) (start + timeout) e))
      | inl e ↦ elim (Bool-cases (cancelled_at x print id v)) [
        | inl c ↦ rw (poll, e, c) (on_throw (inl (refl, cancelled-At x print id v c)))
        | inr c ↦
            let (found, u) =
              check_propagation x print session (begin_check x print id start timeout v) in
            elim (Bool-cases found) [
              | inl f ↦
                  rw (poll, e, c, f)
                    (on_return (refl, checked (begin_check x print id start timeout v) f))
              | inr f ↦ rw (poll, e, c, f) (poll-Confirmed rounds (x.pause id poll_interval u))
            ]
      ]
    ]

  -- The entry of the session in the map of active verifications is not that of this call.
  abbrev pub IsInactive : ℕ → Verifier E Ratio → Type 0
  IsInactive id v = Map.get v.active_verifications session.session_id ≢ some id

  deactivated :
      (id : ℕ) (v : Verifier E Ratio) → IsInactive id (deactivate x print session.session_id id v)
  unfolding deactivate
  deactivated id v =
      elim (Bool-cases (is_own x print (Map.get v.active_verifications session.session_id) id)) [
        | inl b ↦ rw (deactivate, b) (gone v.active_verifications)
        | inr b ↦ rw (deactivate, b) (λ q. let r = rw (q, (nat_beq_iff id id).1 refl) at b in cc)
      ]
    where
      gone :
          (m : Map.Map String ℕ)
          → Map.get (Map.delete m session.session_id) session.session_id ≢ some id
      gone m q =
          let r =
            rw (Map.get-delete m session.session_id session.session_id, beq_self session.session_id)
              at q in
          cc

  -- The end of a verification leaves what it stopped at.
  stopped :
      (id start timeout : ℕ) (e : Error) (t : Verifier E Ratio)
      → Stopped id start timeout e t
      → Stopped id start timeout e (
          deactivate x print session.session_id id
            (set_at x print id (fail_unless_cancelled x print) t))
  stopped id start timeout e t (inl (q, c)) =
      inl (q, deactivate-CancelledAt x print session.session_id id t c)
  stopped id start timeout e t (inr (q, l)) = inr (
    q,
    subst (λ z. start + timeout ≤ x.clock z)
        (sym (
          outside-deactivate x print session.session_id id
            (set_at x print id (fail_unless_cancelled x print) t)))
        l,
  )

  module _ (options : VerificationOptions Ratio) where
    abbrev timeout : ℕ
    timeout = or_else options.timeout 30000

    -- Whatever the provider, the passing time and other calls do meanwhile, and for every bound on the
    -- rounds: where an active verification of the session is in progress, a verification throws that it is,
    -- and changes nothing. Otherwise it returns a result only if that reports success and the provider has
    -- reported the version of the session when it was asked for it; and it throws only that it was
    -- cancelled, with its state left as cancelled, or that it timed out, with its deadline in the past.
    -- After it, it is not among the active verifications.
    pub verify-Confirmed :
        (rounds : ℕ) (v : Verifier E Ratio)
        → Holds
            (λ a t. IsFree session.session_id v × Confirmed a × IsInactive (length v.heap) t)
            (λ e t.
              ((e ≡ already_in_progress) × InProgress session.session_id v × (t ≡ v))
              ⊎ (IsFree session.session_id v
                  × Stopped (length v.heap) (x.clock v.outside) timeout e t
                  × IsInactive (length v.heap) t))
            (verify x print rounds poll_interval session options v)
    unfolding verify
    verify-Confirmed rounds v =
        let id = length v.heap in
        let begun = begin_verification x print session.session_id v in
        elim (busy-cases x print session.session_id v) [
          | inl (b, active) ↦ rw (verify, b) (on_throw (inl (refl, active, refl)))
          | inr (b, free) ↦
              rw (verify, b)
                (Holds-after (deactivate x print session.session_id id)
                  (λ t.
                    deactivate x print session.session_id id
                      (set_at x print id (fail_unless_cancelled x print) t))
                  (poll-Confirmed id (x.clock v.outside) timeout rounds begun)
                  (λ a t h. (free, h, deactivated id t))
                  (λ e t h. inr (
                    free,
                    stopped id (x.clock v.outside) timeout e t h,
                    deactivated id (set_at x print id (fail_unless_cancelled x print) t),
                  )))
        ]
