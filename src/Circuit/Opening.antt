-- ===== src/Circuit/Opening.antt =====
-- When a circuit opens, and for how long it stays open.
use secret_rotation_kit.Prelude.{
  ℕ, suc, ◌+◌, ◌<◌, ◌≤◌, ◌≡◌, refl, ap, ◌∙◌, false, List, [], ◌∷◌, ◌++◌, arith, length, map,
}
use secret_rotation_kit.Circuit.{
  CircuitBreakerOptions, Breaker, closed, opened, CircuitEvent, begins, succeeds, fails, resets,
  happen, run, admit, on_success, on_failure,
}

module _ (o : CircuitBreakerOptions) where
  one_failure :
      (t : ℕ) (b : Breaker)
      → b.state ≡ closed
      → suc b.failure_count < o.failure_threshold
      → ((on_failure o t b).state ≡ closed)
        × ((on_failure o t b).failure_count ≡ suc b.failure_count)
  unfolding on_failure
  one_failure t b c h = (ground arith, ground arith)

  last_failure :
      (t : ℕ) (b : Breaker)
      → b.state ≡ closed
      → o.failure_threshold ≤ suc b.failure_count
      → (on_failure o t b).state ≡ opened
  unfolding on_failure
  last_failure t b c h = ground arith

  -- A closed circuit with fewer failures than the threshold stays closed while further failures in a
  -- row leave it below the threshold, and counts them all.
  pub run-fails_below :
      (ts : List ℕ) (b : Breaker)
      → b.state ≡ closed
      → b.failure_count + length ts < o.failure_threshold
      → ((run o (map fails ts) b).state ≡ closed)
        × ((run o (map fails ts) b).failure_count ≡ b.failure_count + length ts)
  unfolding run happen on_failure
  run-fails_below [] b c h = (c, omega arith)
  run-fails_below (t ∷ ts) b c h =
      let (c', n) = one_failure t b c (omega arith) in
      let (q, m) = run-fails_below ts (on_failure o t b) c' (omega (arith, n)) in
      (q, omega (arith, n, m))

  run-append_fails :
      (ts : List ℕ) (t : ℕ) (b : Breaker)
      → run o (map fails (ts ++ t ∷ [])) b ≡ on_failure o t (run o (map fails ts) b)
  unfolding run happen
  run-append_fails [] t b = refl
  run-append_fails (u ∷ ts) t b = run-append_fails ts t (on_failure o u b)

  -- The failure in a row that reaches the threshold opens a closed circuit, and none before it does.
  run-fails_open :
      (ts : List ℕ) (t : ℕ) (b : Breaker)
      → b.state ≡ closed
      → b.failure_count + suc (length ts) ≡ o.failure_threshold
      → ((run o (map fails ts) b).state ≡ closed)
        × ((run o (map fails (ts ++ t ∷ [])) b).state ≡ opened)
  run-fails_open ts t b c h =
      let (q, m) = run-fails_below ts b c (omega arith) in
      (
        q,
        ap (λ z. z.state) (run-append_fails ts t b)
            ∙ last_failure t (run o (map fails ts) b) q (omega (arith, m)),
      )

  -- What cannot bring an open circuit back before the time `d`: no reset, no call at `d` or later, and
  -- no failure whose own timeout ends before `d`.
  abbrev pub IsEarly : ℕ → CircuitEvent → Type 0
  IsEarly d (begins t) = t < d
  IsEarly d succeeds = Unit
  IsEarly d (fails t) = d ≤ t + o.reset_timeout_ms
  IsEarly d resets = ⊥

  abbrev pub AllEarly : ℕ → List CircuitEvent → Type 0
  AllEarly d [] = Unit
  AllEarly d (e ∷ es) = IsEarly d e × AllEarly d es

  stays :
      (d : ℕ) (e : CircuitEvent) (b : Breaker)
      → b.state ≡ opened
      → d ≤ b.last_failure_time + o.reset_timeout_ms
      → IsEarly d e
      → ((happen o e b).state ≡ opened)
        × (d ≤ (happen o e b).last_failure_time + o.reset_timeout_ms)
  unfolding happen admit on_success on_failure
  stays d (begins t) b s l h = ground arith
  stays d succeeds b s l h = ground arith
  stays d (fails t) b s l h = ground arith
  stays d resets b s l h = absurd h

  -- An open circuit stays open until its timeout has passed, whatever calls of before end meanwhile,
  -- and at each earlier time it rejects every call.
  pub run-open :
      (d : ℕ) (es : List CircuitEvent) (b : Breaker) (t : ℕ)
      → b.state ≡ opened
      → d ≤ b.last_failure_time + o.reset_timeout_ms
      → AllEarly d es
      → t < d
      → ((run o es b).state ≡ opened) × (admit o t (run o es b) ≡ (false, run o es b))
  unfolding run admit
  run-open d [] b t s l h e = (s, ground arith)
  run-open d (e ∷ es) b t s l h u =
      let (p, q) = stays d e b s l h.0 in run-open d es (happen o e b) t p q h.1 u
