-- ===== src/Circuit/Calls.antt =====
-- What holds of a breaker at any time, and `execute` as a sequence of events.
use secret_rotation_kit.Prelude.{
  ℕ, ◌<◌, ◌≡◌, refl, sym, ap, ◌∙◌, ◌⊎◌, inl, inr, ◌+◌, leb, leb→le, leb_false→lt, Bool-cases, true,
  false, Option, none, some, List, [], ◌∷◌, ◌++◌, String, arith,
}
use secret_rotation_kit.Effect.{Error, Eff, Outcome, returned, thrown, after, Outcome-cases}
use secret_rotation_kit.Circuit.{
  CircuitBreakerOptions, Breaker, closed, CircuitEvent, begins, succeeds, fails, resets, happen,
  run, admit, on_success, on_failure, reset, Shared, execute, dispatch, readings, circuit_open,
  opened, half_open, CircuitState,
}

-- A closed circuit has seen fewer failures in a row than the threshold, and a circuit on trial fewer
-- successes than it needs to close.
pub record Bounded (o : CircuitBreakerOptions) (b : Breaker) : Type 0 where
  pub failures : b.state ≡ closed → b.failure_count < o.failure_threshold
  pub successes : b.success_count < o.success_threshold

module _ (o : CircuitBreakerOptions) (f : 0 < o.failure_threshold)
    (s : 0 < o.success_threshold) where
  happen-failures :
      (e : CircuitEvent) (b : Breaker)
      → Bounded o b
      → (happen o e b).state ≡ closed
      → (happen o e b).failure_count < o.failure_threshold
  unfolding happen admit on_success on_failure reset
  happen-failures (begins t) b h q = ground (arith, h.failures)
  happen-failures succeeds b h q = ground (arith, h.failures)
  happen-failures (fails t) b h q = ground (arith, h.failures)
  happen-failures resets b h q = ground (arith, h.failures)

  happen-successes :
      (e : CircuitEvent) (b : Breaker)
      → Bounded o b
      → (happen o e b).success_count < o.success_threshold
  unfolding happen admit on_success on_failure reset
  happen-successes (begins t) b h = ground (arith, h.successes)
  happen-successes succeeds b h = ground (arith, h.successes)
  happen-successes (fails t) b h = ground (arith, h.successes)
  happen-successes resets b h = ground (arith, h.successes)

  -- With positive thresholds, from a breaker where it holds, such as a new one, after any events, in any
  -- order and overlapping in any way, a closed circuit has counted fewer failures than the threshold, and the successes on trial are fewer than
  -- those that close it.
  pub run-Bounded : (es : List CircuitEvent) (b : Breaker) → Bounded o b → Bounded o (run o es b)
  unfolding run
  run-Bounded [] b h = h
  run-Bounded (e ∷ es) b h =
      run-Bounded es (happen o e b)
        (record { failures = happen-failures e b h; successes = happen-successes e b h })

run-append :
    (o : CircuitBreakerOptions) (es fs : List CircuitEvent) (b : Breaker)
    → run o (es ++ fs) b ≡ run o fs (run o es b)
unfolding run
run-append o [] fs b = refl
run-append o (e ∷ es) fs b = run-append o es fs (happen o e b)

module _ {O : Type 0} (o : CircuitBreakerOptions) (clock : ℕ → ℕ) where
  -- The circuit is open, and its timeout has not passed.
  abbrev pub Rejects : Shared O → Type 0
  Rejects s =
      (s.breaker.state ≡ opened)
      × (clock s.reads < s.breaker.last_failure_time + o.reset_timeout_ms)

  admit-cases :
      (s : Shared O)
      → (((admit o (clock s.reads) s.breaker).0 ≡ true) × (Rejects s → ⊥))
        ⊎ (((admit o (clock s.reads) s.breaker).0 ≡ false) × Rejects s)
  unfolding admit
  admit-cases s = go s.breaker.state refl
    where
      go :
          (c : CircuitState)
          → s.breaker.state ≡ c
          → (((admit o (clock s.reads) s.breaker).0 ≡ true) × (Rejects s → ⊥))
            ⊎ (((admit o (clock s.reads) s.breaker).0 ≡ false) × Rejects s)
      go closed e = inl (rw (admit, e) refl, λ r. cc (sym e ∙ r.0))
      go half_open e = inl (rw (admit, e) refl, λ r. cc (sym e ∙ r.0))
      go opened e =
          elim (Bool-cases
            (leb (s.breaker.last_failure_time + o.reset_timeout_ms) (clock s.reads))) [
              | inl l ↦ inl (rw (admit, e, l) refl, λ r. omega (arith, leb→le _ _ l, r.1))
              | inr l ↦ inr (rw (admit, e, l) refl, (e, leb_false→lt _ _ l))
            ]

module _ {O A : Type 0} (o : CircuitBreakerOptions) (clock : ℕ → ℕ) (print : ℕ → String) where
  -- An operation that may itself use the breaker: the events that it makes happen.
  abbrev pub Makes : (Shared O → List CircuitEvent) → Eff (Shared O) A → Type 0
  Makes es fn = (s : Shared O) → run o (es s) s.breaker ≡ (after (fn s)).breaker

  -- How a call goes on from `t`, by which events, and how it ends.
  pub data Goes (fn : Eff (Shared O) A) (fallback : Option (Eff (Shared O) A))
      (es fs : Shared O → List CircuitEvent) (s t : Shared O)
      : List CircuitEvent → Outcome (Shared O) A → Type 0 where
    succeeded :
        (Rejects o clock s → ⊥)
        → (a : A) (u v : Shared O) → fn t ≡ returned a u
        → v.outside ≡ u.outside
        → Goes fn fallback es fs s t (es t ++ succeeds ∷ []) (returned a v)
    failed :
        (Rejects o clock s → ⊥)
        → (e : Error) (u v : Shared O) → fn t ≡ thrown e u
        → v.outside ≡ u.outside
        → Goes fn fallback es fs s t (es t ++ fails (clock u.reads) ∷ []) (thrown e v)
    fell_back :
        Rejects o clock s
        → (g : Eff (Shared O) A) → fallback ≡ some g
        → Goes fn fallback es fs s t (fs t) (g t)
    rejected :
        Rejects o clock s
        → fallback ≡ none
        → Goes fn fallback es fs s t [] (thrown (circuit_open o.reset_timeout_ms print) t)

  -- The call begins, which is an event, and goes on from there.
  pub record Executes (fn : Eff (Shared O) A) (fallback : Option (Eff (Shared O) A))
      (es fs : Shared O → List CircuitEvent) (s : Shared O) (r : Outcome (Shared O) A)
      : Type 0 where
    pub begun : Shared O
    pub untouched : begun.outside ≡ s.outside
    pub admitted : run o (begins (clock s.reads) ∷ []) s.breaker ≡ begun.breaker
    pub events : List CircuitEvent
    pub goes : Goes fn fallback es fs s begun events r
    pub ended : run o (begins (clock s.reads) ∷ events) s.breaker ≡ (after r).breaker

  -- `execute` moves the breaker by events only, and by just these: one where the call begins; then, where
  -- the circuit is not open, or its timeout has passed, those that the operation makes happen, and last a
  -- success if it returned, or a failure at the time if it threw, with the result or the error of the
  -- operation; where the circuit is open and its timeout has not passed, those of the fallback, which gives
  -- the result, or none, and an error that the circuit is open.
  pub execute-Executes :
      (fn : Eff (Shared O) A) (fallback : Option (Eff (Shared O) A))
      (es fs : Shared O → List CircuitEvent)
      → Makes es fn
      → ((g : Eff (Shared O) A) → fallback ≡ some g → Makes fs g)
      → (s : Shared O) → Executes fn fallback es fs s (execute o clock print fn fallback s)
  unfolding execute happen run
  execute-Executes fn fallback es fs m n s = elim (admit-cases o clock s) [
    | inl (e, free) ↦ elim (Outcome-cases (fn t)) [
      | inl (a, u, q) ↦
          rw (execute, e, q)
            (record {
              begun = t;
              untouched = refl;
              admitted = refl;
              events = es t ++ succeeds ∷ [];
              goes = succeeded free a u _ q refl;
              ended =
                  run-append o (es t) (succeeds ∷ []) t.breaker
                  ∙ ap (on_success o)
                      (m t ∙ ap (λ (r : Outcome (Shared O) A). (after r).breaker) q);
            })
      | inr (x, u, q) ↦
          rw (execute, e, q)
            (record {
              begun = t;
              untouched = refl;
              admitted = refl;
              events = es t ++ fails (clock u.reads) ∷ [];
              goes = failed free x u _ q refl;
              ended =
                  run-append o (es t) (fails (clock u.reads) ∷ []) t.breaker
                  ∙ ap (on_failure o (clock u.reads))
                      (m t ∙ ap (λ (r : Outcome (Shared O) A). (after r).breaker) q);
            })
    ]
    | inr (e, shut) ↦ rw (execute, e) (turned_away fallback n shut)
  ]
    where
      t : Shared O
      t = record s {
        breaker = (admit o (clock s.reads) s.breaker).1;
        reads = s.reads + readings s.breaker.state;
      }

      turned_away :
          (g : Option (Eff (Shared O) A))
          → ((h : Eff (Shared O) A) → g ≡ some h → Makes fs h)
          → Rejects o clock s
          → Executes fn g es fs s (dispatch o clock print false fn g t)
      turned_away none n shut = record {
        begun = t;
        untouched = refl;
        admitted = refl;
        events = [];
        goes = rejected shut refl;
        ended = refl;
      }
      turned_away (some g) n shut = record {
        begun = t;
        untouched = refl;
        admitted = refl;
        events = fs t;
        goes = fell_back shut g refl;
        ended = n g refl t;
      }
