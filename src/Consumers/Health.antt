-- ===== src/Consumers/Health.antt =====
-- How a consumer's health follows its checks.
use secret_rotation_kit.Prelude.{
  of_some, ℕ, zero, suc, ◌+◌, ◌<◌, ◌≤◌, ◌≡◌, refl, sym, ap, ◌∙◌, subst, inl, inr, true, some, List,
  [], ◌∷◌, String, ◌==◌, string_eq, if◌then◌else◌, leb, arith, Bool-cases, Option-cases, In,
  In-filter, length, map, false,
}
use secret_rotation_kit.Map
use secret_rotation_kit.Verification.{Consumer}
use secret_rotation_kit.Consumers.{
  HealthState, healthy, degraded, unhealthy, ConsumerHealthStatus, ConsumerRegistry,
  RegistryOptions, register, deregister, record_success, record_failure, get_consumers, is_worth,
  failed_check,
}

-- What happens to a registry.
pub data Action : Type 0 where
  registers : Consumer → ℕ → ℕ → Action
  deregisters : String → Action
  succeeds : String → ℕ → ℕ → ℕ → Action
  fails : String → ℕ → Action

module _ (o : RegistryOptions) where
  unfoldable pub act : Action → ConsumerRegistry → ConsumerRegistry
  act (registers c t₁ t₂) r = register c t₁ t₂ r
  act (deregisters id) r = deregister id r
  act (succeeds id latency t₁ t₂) r = record_success id latency t₁ t₂ r
  act (fails id t) r = record_failure o id t r

  unfoldable pub acts : List Action → ConsumerRegistry → ConsumerRegistry
  acts [] r = r
  acts (a ∷ rest) r = acts rest (act a r)

  -- The health that a number of failures in a row stands for.
  abbrev pub grade : ℕ → HealthState
  grade zero = healthy
  grade (suc n) = if leb o.max_failures (suc n) then unhealthy else degraded

  pub record IsGraded (r : ConsumerRegistry) : Type 0 where
    pub graded :
        (id : String) {h : ConsumerHealthStatus}
        → Map.get r.health id ≡ some h
        → h.status ≡ grade h.failures

  -- An entry that is written with its grade keeps all entries graded.
  set_graded :
      (r : ConsumerRegistry) (id : String) (h : ConsumerHealthStatus)
      → h.status ≡ grade h.failures
      → IsGraded r
      → (j : String) {k : ConsumerHealthStatus} → Map.get (Map.set r.health id h) j ≡ some k
      → k.status ≡ grade k.failures
  set_graded r id h e g j {k} q = elim (Bool-cases (id == j)) [
    | inl u ↦
        let same : h ≡ k = of_some (rw (Map.get-set r.health id j h, u) at q) in
        subst (λ z. z.status ≡ grade z.failures) same e
    | inr u ↦ g.graded j (rw (Map.get-set r.health id j h, u) at q)
  ]

  act-IsGraded : (a : Action) (r : ConsumerRegistry) → IsGraded r → IsGraded (act a r)
  unfolding act register deregister record_success record_failure
  act-IsGraded (registers c t₁ t₂) r g = record { graded = set_graded r c.id _ refl g }
  act-IsGraded (deregisters id) r g = record {
    graded = λ j q. elim (Bool-cases (id == j)) [
      | inl u ↦ absurd (ground (arith, Map.get-delete r.health id j))
      | inr u ↦ g.graded j (rw (Map.get-delete r.health id j, u) at q)
    ];
  }
  act-IsGraded (succeeds id latency t₁ t₂) r g = elim (Option-cases (Map.get r.health id)) [
    | inl e ↦ rw e g
    | inr (h, e) ↦ rw e (record { graded = set_graded r id _ refl g })
  ]
  act-IsGraded (fails id t) r g = elim (Option-cases (Map.get r.health id)) [
    | inl e ↦ rw e g
    | inr (h, e) ↦ rw e (record { graded = set_graded r id _ refl g })
  ]

  pub acts-IsGraded :
      (actions : List Action) (r : ConsumerRegistry) → IsGraded r → IsGraded (acts actions r)
  unfolding acts
  acts-IsGraded [] r g = g
  acts-IsGraded (a ∷ rest) r g = acts-IsGraded rest (act a r) (act-IsGraded a r g)

  -- Failures in a row are counted, and the time of the last success stays.
  run_of_failures :
      (id : String) (ts : List ℕ) (r : ConsumerRegistry) (h : ConsumerHealthStatus)
      → Map.get r.health id ≡ some h
      → (k : ConsumerHealthStatus) × (Map.get (acts (map (fails id) ts) r).health id ≡ some k)
        × (k.failures ≡ h.failures + length ts)
        × (k.last_healthy ≡ h.last_healthy)
  unfolding acts act record_failure
  run_of_failures id [] r h e = (h, e, omega arith, refl)
  run_of_failures id (t ∷ ts) r h e =
      let h' = failed_check o h t in
      let q : Map.get (record_failure o id t r).health id ≡ some h' =
        rw e (Map.get-set_self r.health id h') in
      let (k, f, n, l) = run_of_failures id ts (record_failure o id t r) h' q in
      (k, f, omega (arith, n), l)

  not_worth :
      (now : ℕ) (k : ConsumerHealthStatus)
      → k.status ≡ unhealthy
      → now < k.last_healthy + o.unhealthy_retry_interval_ms
      → is_worth o now (some k) ≡ false
  not_worth now k e l = ground arith

  -- In a registry with graded health, a registered consumer whose checks failed at least once and
  -- `maxFailures` times in a row is not polled, for any secret, until the retry interval has passed
  -- since its last success.
  pub get_consumers-fails :
      (c : Consumer) (t : ℕ) (ts : List ℕ) (r : ConsumerRegistry) (h : ConsumerHealthStatus)
      (name : String) (now : ℕ)
      → IsGraded r
      → Map.get r.health c.id ≡ some h
      → o.max_failures ≤ suc (length ts)
      → now < h.last_healthy + o.unhealthy_retry_interval_ms
      → ¬ In c (get_consumers o (acts (map (fails c.id) (t ∷ ts)) r) name now)
  unfolding get_consumers
  get_consumers-fails c t ts r h name now g e m l i =
      let (k, f, n, q) = run_of_failures c.id (t ∷ ts) r h e in
      let st = (acts-IsGraded (map (fails c.id) (t ∷ ts)) r g).graded c.id f in
      let bad : k.status ≡ unhealthy =
        st ∙ graded_bad k.failures (omega (arith, n)) (omega (arith, n)) in
      let w =
        (In-filter (λ d. is_worth o now (Map.get (acts (map (fails c.id) (t ∷ ts)) r).health d.id))
          _ c i).1 in
      true_not_false (
        sym w
        ∙ ap (is_worth o now) f
        ∙ not_worth now k bad (subst (λ z. now < z + o.unhealthy_retry_interval_ms) (sym q) l))
    where
      graded_bad : (n : ℕ) → 0 < n → o.max_failures ≤ n → grade n ≡ unhealthy
      graded_bad zero p m = absurd (omega arith)
      graded_bad (suc n) p m = ground arith

      true_not_false : true ≡ false → ⊥
      true_not_false h = cc
