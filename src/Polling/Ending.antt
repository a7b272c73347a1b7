-- ===== src/Polling/Ending.antt =====
-- That a verification by polling ends.
use secret_rotation_kit.Prelude.{
  ℕ, zero, suc, ◌+◌, ◌≤◌, ◌<◌, ◌≢◌, inl, inr, none, String, string_eq, ltb, length, arith, ltb→lt,
  ◌-◌, Bool-cases,
}
use secret_rotation_kit.Map
use secret_rotation_kit.Effect.{Holds, on_return, on_throw, Holds-after}
use secret_rotation_kit.Types.{RotationSession}
use secret_rotation_kit.Workflow.{or_else}
use secret_rotation_kit.Verification.{VerificationOptions}
use secret_rotation_kit.Polling.{
  Verifier, Surroundings, cancelled_at, begin_check, check_propagation, time_over, poll, deactivate,
  busy, begin_verification, fail_unless_cancelled, set_at, verify,
}

module _ {E Ratio : Type 0} (x : Surroundings E Ratio) (print : ℕ → String) (poll_interval : ℕ)
    (session : RotationSession) where
  module _ (id start timeout : ℕ)
      (steady : (u : Verifier E Ratio)
        → x.clock u.outside ≤ x.clock (check_propagation x print session u).1.outside)
      (ticks : (id : ℕ) (u : Verifier E Ratio)
        → x.clock u.outside < x.clock (x.pause id poll_interval u).outside) where
    poll_ends :
        (rounds : ℕ) (v : Verifier E Ratio)
        → (start + timeout) - x.clock v.outside < rounds
        → Holds
            (λ a t. a ≢ none)
            (λ e t. Unit {0})
            (poll x print poll_interval session id start timeout rounds v)
    unfolding poll
    poll_ends zero v l = absurd (omega arith)
    poll_ends (suc rounds) v l = elim (Bool-cases (ltb (x.clock v.outside) (start + timeout))) [
      | inr e ↦ elim (Bool-cases (cancelled_at x print id v)) [
        | inl c ↦ rw (poll, e, time_over, c) (on_throw tt)
        | inr c ↦ rw (poll, e, time_over, c) (on_throw tt)
      ]
      | inl e ↦ elim (Bool-cases (cancelled_at x print id v)) [
        | inl c ↦ rw (poll, e, c) (on_throw tt)
        | inr c ↦
            let asked = begin_check x print id start timeout v in
            let (found, u) = check_propagation x print session asked in
            elim (Bool-cases found) [
              | inl f ↦ rw (poll, e, c, f) (on_return (λ q. cc))
              | inr f ↦
                  rw (poll, e, c, f)
                    (poll_ends rounds (x.pause id poll_interval u) (
                      omega (
                        arith,
                        steady asked,
                        ticks id u,
                        ltb→lt (x.clock v.outside) (start + timeout) e,
                        l,
                      )))
            ]
      ]
    ]

  -- A verification ends: if the clock never goes back while the provider is asked, and moves on in
  -- each pause, then with more rounds allowed than its timeout has milliseconds it does not run out of
  -- them, and so returns a result or throws.
  pub verify-ends :
      (options : VerificationOptions Ratio) (rounds : ℕ) (v : Verifier E Ratio)
      → ((u : Verifier E Ratio)
          → x.clock u.outside ≤ x.clock (check_propagation x print session u).1.outside)
      → ((id : ℕ) (u : Verifier E Ratio)
          → x.clock u.outside < x.clock (x.pause id poll_interval u).outside)
      → or_else options.timeout 30000 < rounds
      → Holds
          (λ a t. a ≢ none)
          (λ e t. Unit {0})
          (verify x print rounds poll_interval session options v)
  unfolding verify
  verify-ends options rounds v steady ticks enough =
      let id = length v.heap in
      let begun = begin_verification x print session.session_id v in
      elim (Bool-cases (busy x print (Map.get v.active_verifications session.session_id) v)) [
        | inl b ↦ rw (verify, b) (on_throw tt)
        | inr b ↦
            rw (verify, b)
              (Holds-after (deactivate x print session.session_id id)
                (λ t.
                  deactivate x print session.session_id id
                    (set_at x print id (fail_unless_cancelled x print) t))
                (poll_ends id (x.clock v.outside) (or_else options.timeout 30000) steady ticks
                  rounds begun (omega arith))
                (λ a t h. h) (λ e t h. tt))
      ]
