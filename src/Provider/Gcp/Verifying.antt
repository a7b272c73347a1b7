-- ===== src/Provider/Gcp/Verifying.antt =====
-- The verification by polling (packages/core/src/polling-verifier.ts) of what this provider has stored.
use secret_rotation_kit.Prelude.{
  ℕ, ◌≤◌, ◌<◌, ◌≡◌, ◌≢◌, refl, ◌⊎◌, inl, inr, true, Option, none, some, String, length,
}
use secret_rotation_kit.Effect.{
  returned, Holds, on_return, on_throw, Outcome-cases, Holds-value, Holds-error,
}
use secret_rotation_kit.Types.{RotationSession}
use secret_rotation_kit.World.{SecretValue, pending}
use secret_rotation_kit.Workflow.{or_else, propagated_session}
use secret_rotation_kit.Workflow.Triples.{Holds-bind}
use secret_rotation_kit.Verification.{VerificationOptions, VerificationResult}
use secret_rotation_kit.Polling.{
  Verifier, Surroundings, already_in_progress, check_propagation, verify,
}
use secret_rotation_kit.Polling.Outcomes.{Stopped, Confirmed, verify-Confirmed}
use secret_rotation_kit.Polling.Guard.{InProgress, IsFree}
use secret_rotation_kit.Polling.Ending.{verify-ends}
use secret_rotation_kit.Provider.{Host, non_empty}
use secret_rotation_kit.Provider.Gcp.{
  SecretManagerClient, has_slash, version_path, get_secret, store_secret_value,
}

slash_non_empty : (n : String) → has_slash n ≡ true → non_empty (some n) ≡ some n
slash_non_empty String.[] h = cc
slash_non_empty (String.◌∷◌ c s) h = refl

module _ {O : Type 0} (host : Host O) (client : SecretManagerClient O) (project_id : String) where
  -- What is documented: the name of a new version is a path, and what stands for a version in a path is
  -- no path itself.
  pub record GcpLaws : Type 0 where
    pub adds :
        (parent value : String) (s : O)
        → Holds
            (λ r t. (n : String) × (r.name ≡ some n) × (has_slash n ≡ true))
            (λ e t. Unit {0})
            (client.add_secret_version parent (client.to_bytes value) s)
    pub accesses :
        (name version : String) (s : O)
        → has_slash version ≡ true
        → Holds
            (λ r t. ⊥)
            (λ e t. Unit {0})
            (client.access_secret_version (version_path host client project_id name version) s)

  -- What the verifier is told comes from this provider; whatever else happens while it is asked.
  abbrev pub Answers : {E Ratio : Type 0} → Surroundings E Ratio → Type 0
  Answers {E} {Ratio} x =
      (name : String) (version : Option String) (v u : Verifier E Ratio) (w : SecretValue)
      → x.get_secret name version v ≡ returned w u
      → (s t : O) × (get_secret host client project_id name version s ≡ returned w t)

  module _ (laws : GcpLaws) where
    stored_path :
        (name value : String) (s : O)
        → Holds
            (λ w t. has_slash w.version_id ≡ true)
            (λ e t. Unit {0})
            (store_secret_value host client project_id name value pending s)
    unfolding store_secret_value
    stored_path name value s =
        Holds-bind (laws.adds _ value s) (λ r t (n, e, h). rw e (on_return h))

    never_read :
        (name version : String) (s : O)
        → has_slash version ≡ true
        → Holds
            (λ w t. ⊥)
            (λ e t. Unit {0})
            (get_secret host client project_id name (some version) s)
    unfolding get_secret
    never_read name version s h =
        rw (slash_non_empty version h)
          (Holds-bind (laws.accesses name version s h) (λ r t b. absurd b))

    module _ {E Ratio : Type 0} (x : Surroundings E Ratio) (print : ℕ → String) (poll_interval : ℕ)
        (answers : Answers x) (name value : String) (s t : O) (w : SecretValue)
        (written : store_secret_value host client project_id name value pending s ≡ returned w t)
        (session : RotationSession) where
      unconfirmed :
          (a : Option (VerificationResult Ratio))
          → a ≢ none
          → Confirmed x print poll_interval (propagated_session session w) a
          → ⊥
      unconfirmed none n c = n refl
      unconfirmed (some r) n (k, (u, u', secret, q, same)) =
          let (s', t', e) = answers session.secret_name (some w.version_id) u u' secret q in
          Holds-value
            (never_read session.secret_name w.version_id s'
              (Holds-value (stored_path name value s) written))
            e

      -- With the service as documented, what this provider has stored is never verified by polling, whatever
      -- else happens to the verifier while it waits: on a clock that never goes back while the provider is
      -- asked, and moves on in each pause, a verification of a session with the version that a write returned,
      -- with more rounds allowed than its timeout has milliseconds, throws. It throws that another one is in
      -- progress exactly where an active verification of the session is, and then changes nothing; and
      -- otherwise that it was cancelled, with its state left as cancelled, or that it timed out, with its
      -- deadline in the past.
      pub verify-Stopped :
          (options : VerificationOptions Ratio) (rounds : ℕ) (v : Verifier E Ratio)
          → ((u : Verifier E Ratio)
              → x.clock u.outside
                ≤ x.clock (check_propagation x print (propagated_session session w) u).1.outside)
          → ((id : ℕ) (u : Verifier E Ratio)
              → x.clock u.outside < x.clock (x.pause id poll_interval u).outside)
          → or_else options.timeout 30000 < rounds
          → Holds
              (λ a u. ⊥)
              (λ e u.
                ((e ≡ already_in_progress) × InProgress session.session_id v × (u ≡ v))
                ⊎ (IsFree session.session_id v
                    × Stopped x print poll_interval
                        (propagated_session session w)
                        (length v.heap)
                        (x.clock v.outside)
                        (or_else options.timeout 30000)
                        e
                        u))
              (verify x print rounds poll_interval (propagated_session session w) options v)
      verify-Stopped options rounds v steady ticks enough =
          let ends =
            verify-ends x print poll_interval (propagated_session session w) options rounds v steady
              ticks enough in
          let confirmed =
            verify-Confirmed x print poll_interval (propagated_session session w) options rounds
              v in
          elim (Outcome-cases
            (verify x print rounds poll_interval (propagated_session session w) options v)) [
              | inl (a, u, e) ↦
                  absurd (unconfirmed a (Holds-value ends e) (Holds-value confirmed e).1)
              | inr (y, u, e) ↦ rw e (
                  on_throw
                    (elim (Holds-error confirmed e) [ inl q ↦ inl q | inr q ↦ inr (q.0, q.1) ]))
            ]
