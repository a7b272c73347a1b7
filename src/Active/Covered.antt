-- ===== src/Active/Covered.antt =====
-- What the result of an active verification says of the consumers.
use secret_rotation_kit.Prelude.{
  ℕ, suc, ◌≤◌, ◌<◌, false, subst, leb→le, leb_false→lt, ◌+◌, ◌-◌, ◌≡◌, refl, ap, ◌⊎◌, inl, inr,
  true, some, List, [], ◌∷◌, String, if◌then◌else◌, string_eq, length, filter, map, arith,
  Bool-cases,
}
use secret_rotation_kit.Effect.{
  returned, Error, Holds, on_return, on_throw, Holds-value, Holds-error, Outcome-cases,
}
use secret_rotation_kit.Types.{RotationSession}
use secret_rotation_kit.Workflow.{or_else}
use secret_rotation_kit.Verification.{
  RetryPolicy, Consumer, ConsumerVerificationResult, VerificationOptions, VerificationResult,
}
use secret_rotation_kit.Retry.{RetryResult, Operation, retry}
use secret_rotation_kit.Retry.Attempts.{Succeeds, GivesUp, retry-Tries}
use secret_rotation_kit.Consumers.{RegistryOptions, get_consumers}
use secret_rotation_kit.Polling.{Verifier, Surroundings, already_in_progress, begin_verification}
use secret_rotation_kit.Polling.Guard.{InProgress, IsFree, busy-cases}
use secret_rotation_kit.Active.Checks.{Network, is_aborted, check_consumer, guarded_check}
use secret_rotation_kit.Active.{
  Consuming, Ratios, judged, timer_delay, is_failure, verify_consumer, verify_consumers, run_checks,
  verify,
}

module _ {E : Type 0} (net : Network E) (print : ℕ → String) (policy : RetryPolicy ℕ)
    (options : RegistryOptions) (name expected : String) where
  -- What is retried for a consumer, until the deadline.
  abbrev pub asked : Consumer → ℕ → E → Operation E String
  asked c timeout s = guarded_check net print c name expected (net.clock s + timer_delay timeout)

  -- How the retried check of a consumer, from `s` to `t`, gives its result: it is a success if the check
  -- returned a version before the deadline; a failure with the error of the last attempt if that was before
  -- the deadline; and a failure if it ended later.
  pub data IsResult (timeout : ℕ) (c : Consumer) (s : E) (r : ConsumerVerificationResult) (t : E)
      : Type 0 where
    passed :
        (a : RetryResult String) (u : E)
        → Succeeds policy (asked c timeout s) policy.max_retries s a t
        → check_consumer net print c name expected u ≡ returned a.result t
        → net.clock t < net.clock s + timer_delay timeout
        → r.success ≡ true
        → r.current_version ≡ some a.result
        → IsResult timeout c s r t
    gave_up :
        (x : Error)
        → GivesUp policy (asked c timeout s) policy.max_retries s x t
        → net.clock t < net.clock s + timer_delay timeout
        → r.success ≡ false
        → r.error ≡ some x.message
        → IsResult timeout c s r t
    timed_out :
        ((a : RetryResult String) × Succeeds policy (asked c timeout s) policy.max_retries s a t)
          ⊎ ((x : Error) × GivesUp policy (asked c timeout s) policy.max_retries s x t)
        → net.clock s + timer_delay timeout ≤ net.clock t
        → r.success ≡ false
        → IsResult timeout c s r t

  -- One result for each consumer, in their order, each check beginning where the one before ended.
  abbrev pub AreResults : ℕ → E → List Consumer → List ConsumerVerificationResult → Type 0
  AreResults timeout s [] [] = Unit
  AreResults timeout s (c ∷ cs) (r ∷ rs) =
      (r.consumer_id ≡ c.id) × ((t : E) × IsResult timeout c s r t × AreResults timeout t cs rs)
  AreResults timeout s cs rs = ⊥

  unguarded :
      (c : Consumer) (deadline : ℕ) (u t : E) (v : String)
      → (guarded_check net print c name expected deadline).fn u ≡ returned v t
      → check_consumer net print c name expected u ≡ returned v t
  unguarded c deadline u t v h = elim (Bool-cases (is_aborted net print deadline u)) [
    | inl e ↦ absurd (let r = rw e at h in cc)
    | inr e ↦ rw e at h
  ]

  verify_consumer-IsResult :
      (c : Consumer) (timeout : ℕ) (s : Consuming E)
      → ((verify_consumer net print policy options c name expected timeout s).0.consumer_id ≡ c.id)
        × IsResult timeout c s.network
            (verify_consumer net print policy options c name expected timeout s).0
            (verify_consumer net print policy options c name expected timeout s).1.network
  unfolding verify_consumer
  verify_consumer-IsResult c timeout s =
      let start = net.clock s.network in
      let op = asked c timeout s.network in
      let o = retry policy op s.network in
      let tries = retry-Tries policy op s.network in
      elim (Outcome-cases o) [
        | inl (a, t, q) ↦
            let (u, ts, f, l) = Holds-value tries q in
            elim (Bool-cases (is_aborted net print (start + timer_delay timeout) t)) [
              | inl e ↦
                  rw (judged, q, e)
                    (
                      refl,
                      timed_out (inl (a, (u, ts, f, l)))
                          (leb→le (start + timer_delay timeout) (net.clock t) e) refl,
                    )
              | inr e ↦
                  rw (judged, q, e)
                    (
                      refl,
                      passed a u (u, ts, f, l)
                          (unguarded c (start + timer_delay timeout) u t a.result f)
                          (leb_false→lt (start + timer_delay timeout) (net.clock t) e) refl refl,
                    )
            ]
        | inr (x, t, q) ↦
            let g = Holds-error tries q in
            elim (Bool-cases (is_aborted net print (start + timer_delay timeout) t)) [
              | inl e ↦
                  rw (judged, q, e)
                    (
                      refl,
                      timed_out (inr (x, g)) (leb→le (start + timer_delay timeout) (net.clock t) e)
                          refl,
                    )
              | inr e ↦
                  rw (judged, q, e)
                    (
                      refl,
                      gave_up x g (leb_false→lt (start + timer_delay timeout) (net.clock t) e) refl
                          refl,
                    )
            ]
      ]

  verify_consumers-AreResults :
      (cs : List Consumer) (timeout : ℕ) (s : Consuming E)
      → AreResults timeout s.network cs
          (verify_consumers net print policy options cs name expected timeout s).0
  unfolding verify_consumers
  verify_consumers-AreResults [] timeout s = tt
  verify_consumers-AreResults (c ∷ cs) timeout s =
      let (i, r) = verify_consumer-IsResult c timeout s in
      let next = (verify_consumer net print policy options c name expected timeout s).1 in
      (i, (next.network, r, verify_consumers-AreResults cs timeout next))

  length-AreResults :
      (cs : List Consumer) (rs : List ConsumerVerificationResult) (timeout : ℕ) (s : E)
      → AreResults timeout s cs rs
      → length rs ≡ length cs
  length-AreResults [] [] timeout s h = refl
  length-AreResults (c ∷ cs) (r ∷ rs) timeout s h =
      omega (arith, length-AreResults cs rs timeout h.1.0 h.1.2)
  length-AreResults [] (r ∷ rs) timeout s h = absurd h
  length-AreResults (c ∷ cs) [] timeout s h = absurd h

-- How many results are successes.
unfoldable pub passes : List ConsumerVerificationResult → ℕ
passes [] = 0
passes (r ∷ rs) = (if r.success then 1 else 0) + passes rs

module _ {E : Type 0} (net : Network E) (print : ℕ → String) (policy : RetryPolicy ℕ)
    (options : RegistryOptions) where
  passes-failures :
      (rs : List ConsumerVerificationResult)
      → passes rs + length (filter (is_failure net print policy options) rs) ≡ length rs
  unfolding passes
  passes-failures [] = refl
  passes-failures (r ∷ rs) = elim (Bool-cases r.success) [
    | inl e ↦ rw e (omega (arith, passes-failures rs))
    | inr e ↦ rw e (omega (arith, passes-failures rs))
  ]

  length-map : {A B : Type 0} (f : A → B) (xs : List A) → length (map f xs) ≡ length xs
  length-map f [] = refl
  length-map f (x ∷ xs) = ap suc (length-map f xs)

  module _ {Ratio : Type 0} (x : Surroundings (Consuming E) Ratio) (q : Ratios Ratio)
      (session : RotationSession) (o : VerificationOptions Ratio) where
    -- What the result of the verification of some consumers, from a state of the network on, promises: it
    -- counts all of them, those with a success as verified, and the others as failures; and it is a success
    -- where there are none, or else exactly if the verified ones among them are at least the wanted part.
    pub record Covers (timeout : ℕ) (s : E) (cs : List Consumer) (a : VerificationResult Ratio)
        : Type 0 where
      pub results : List ConsumerVerificationResult
      pub are_results :
          AreResults net print policy options session.secret_name
            (or_else session.state.version_id "")
            timeout
            s
            cs
            results
      pub counted : a.consumer_count ≡ length cs
      pub verified : a.verified_count ≡ passes results
      pub failed_rest : a.verified_count + length a.failures ≡ a.consumer_count
      pub decided :
          ((cs ≡ []) × (a.success ≡ true))
          ⊎ ((0 < length cs)
              × (a.success
                  ≡ q.at_least
                      (q.ratio a.verified_count a.consumer_count)
                      (or_else o.min_consumer_coverage q.default_coverage)))

    run_checks-Covers :
        (start id : ℕ) (cs : List Consumer) (v : Verifier (Consuming E) Ratio)
        → Covers
            ((start + or_else o.timeout 30000) - net.clock v.outside.network)
            v.outside.network
            cs
            (run_checks net print policy options x q session o start id cs v).0
    unfolding run_checks passes
    run_checks-Covers start id [] v = record {
      results = [];
      are_results = tt;
      counted = refl;
      verified = refl;
      failed_rest = refl;
      decided = inl (refl, refl);
    }
    run_checks-Covers start id (c ∷ cs) v =
        let timeout = (start + or_else o.timeout 30000) - net.clock v.outside.network in
        let rs =
          (verify_consumers net print policy options (c ∷ cs) session.secret_name
            (or_else session.state.version_id "") timeout v.outside).0 in
        let all =
          verify_consumers-AreResults net print policy options session.secret_name
            (or_else session.state.version_id "") (c ∷ cs) timeout v.outside in
        let l =
          length-AreResults net print policy options session.secret_name
            (or_else session.state.version_id "") (c ∷ cs) rs timeout v.outside.network all in
        let p = passes-failures rs in
        record {
          results = rs;
          are_results = all;
          counted = l;
          verified = omega (arith, p);
          failed_rest =
              rw (length-map _ (filter (is_failure net print policy options) rs))
                (omega (arith, p));
          decided = inr (omega arith, refl);
        }

    -- Whatever the consumers answer and the registry holds: where an active verification of the session is
    -- in progress, a verification throws that it is, and changes nothing. Otherwise it returns a result that
    -- counts all consumers of the secret that are worth polling: as verified those whose check, retried at
    -- most maxRetries times, returned before the timeout (1 ms if that is 0), and as failures those for
    -- which the last attempt threw or which ended later; and that is a success where there are none, or
    -- else exactly if the verified ones are at least the wanted part.
    pub verify-Covers :
        (v : Verifier (Consuming E) Ratio)
        → Holds
            (λ a t.
              IsFree session.session_id v
              × Covers
                  (or_else o.timeout 30000)
                  v.outside.network
                  (get_consumers options v.outside.registry session.secret_name
                    (net.clock v.outside.network))
                  a)
            (λ e t. (e ≡ already_in_progress) × InProgress session.session_id v × (t ≡ v))
            (verify net print policy options x q session o v)
    unfolding verify
    verify-Covers v =
        let now = net.clock v.outside.network in
        let cs = get_consumers options v.outside.registry session.secret_name now in
        let begun = begin_verification x print session.session_id v in
        let whole : (now + or_else o.timeout 30000) - now ≡ or_else o.timeout 30000 = omega arith in
        elim (busy-cases x print session.session_id v) [
          | inl (b, active) ↦ rw (verify, b) (on_throw (refl, active, refl))
          | inr (b, free) ↦
              rw (verify, b)
                (on_return (
                  free,
                  subst
                      (λ z.
                        Covers z v.outside.network cs
                          (run_checks net print policy options x q session o now (length v.heap) cs
                            begun).0)
                      whole (run_checks-Covers now (length v.heap) cs begun),
                ))
        ]
