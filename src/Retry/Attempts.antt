-- ===== src/Retry/Attempts.antt =====
-- Which attempts a retried operation makes.
use secret_rotation_kit.Prelude.{
  ℕ, zero, suc, ◌+◌, ◌≤◌, ◌≡◌, refl, ◌⊎◌, inl, inr, true, false, arith, Bool-cases,
}
use secret_rotation_kit.Effect.{Error, returned, thrown, Holds, on_return, on_throw, Outcome-cases}
use secret_rotation_kit.Verification.{RetryPolicy}
use secret_rotation_kit.Retry.{RetryResult, Operation, delay_bound, finished, attempt_from, retry}

module _ {S A : Type 0} (p : RetryPolicy ℕ) (o : Operation S A) where
  -- From one attempt to a later one: each attempt between throws a transient error, and is followed by
  -- a pause.
  pub data Tries : ℕ → S → ℕ → S → Type 0 where
    same : {n : ℕ} {s : S} → Tries n s n s
    again :
        {n k : ℕ} {s t u : S} (e : Error)
        → o.fn s ≡ thrown e t
        → o.should_retry e t ≡ true
        → Tries (suc n) (o.pause (delay_bound p n) t) k u
        → Tries n s k u

  -- What a retried operation does: the attempts up to `k` fail with transient errors; attempt `k`
  -- succeeds, or its error is final.
  abbrev pub Succeeds : ℕ → S → RetryResult A → S → Type 0
  Succeeds bound s x t =
      (u : S) × Tries 0 s x.attempts u × (o.fn u ≡ returned x.result t) × (x.attempts ≤ bound)

  abbrev pub GivesUp : ℕ → S → Error → S → Type 0
  GivesUp bound s e t =
      (k : ℕ) × (u : S) × Tries 0 s k u
      × (o.fn u ≡ thrown e t)
      × (k ≤ bound)
      × ((k ≡ bound) ⊎ (o.should_retry e t ≡ false))

  then_Tries : {n k m : ℕ} {s t u : S} → Tries n s k t → Tries k t m u → Tries n s m u
  then_Tries same r = r
  then_Tries (again e a b q) r = again e a b (then_Tries q r)

  Tries-le : {n k : ℕ} {s u : S} → Tries n s k u → n ≤ k
  Tries-le same = omega arith
  Tries-le (again e a b t) = omega (arith, Tries-le t)

  attempts :
      (start r n m : ℕ) (s u : S)
      → n + r ≡ m
      → Tries 0 s n u
      → Holds (Succeeds m s) (GivesUp m s) (attempt_from p o start n r u)
  unfolding attempt_from
  attempts start zero n m s u b tries = elim (Outcome-cases (o.fn u)) [
    | inl (a, t, e) ↦ rw (e, attempt_from) (on_return (u, tries, e, omega arith))
    | inr (e, t, q) ↦
        rw (q, attempt_from) (on_throw (n, u, tries, q, omega arith, inl (omega arith)))
  ]
  attempts start (suc r) n m s u b tries = elim (Outcome-cases (o.fn u)) [
    | inl (a, t, e) ↦ rw (e, attempt_from) (on_return (u, tries, e, omega arith))
    | inr (e, t, q) ↦ elim (Bool-cases (o.should_retry e t)) [
      | inl y ↦
          rw (q, y, attempt_from)
            (attempts start r (suc n) m s (o.pause (delay_bound p n) t) (omega arith)
              (then_Tries tries (again e q y same)))
      | inr y ↦ rw (q, y, attempt_from) (on_throw (n, u, tries, q, omega arith, inr y))
    ]
  ]

  -- A retried operation always ends. It returns the result of an attempt, the number `attempts` from 0
  -- and at most `maxRetries`, before which all attempts threw transient errors; or it throws the error
  -- of an attempt, before which all attempts threw transient errors, and which is the last one allowed
  -- or threw an error that is not transient.
  pub retry-Tries :
      (s : S) → Holds (Succeeds p.max_retries s) (GivesUp p.max_retries s) (retry p o s)
  unfolding retry
  retry-Tries s = attempts (o.clock s) p.max_retries 0 p.max_retries s s (omega arith) same

  tried_on :
      (start r n k m : ℕ) (s u v : S) (a : A)
      → n + r ≡ m
      → k ≤ m
      → Tries n s k u
      → o.fn u ≡ returned a v
      → attempt_from p o start n r s ≡ returned (finished p o start k a v) v
  unfolding attempt_from
  tried_on start zero n k m s u v a b l same e = rw (e, attempt_from) refl
  tried_on start (suc r) n k m s u v a b l same e = rw (e, attempt_from) refl
  tried_on start zero n k m s u v a b l (again x q y t) e = absurd (omega (arith, Tries-le t))
  tried_on start (suc r) n k m s u v a b l (again {t = w} x q y t) e =
      rw (q, y, attempt_from)
        (tried_on start r (suc n) k m (o.pause (delay_bound p n) w) u v a (omega arith) l t e)

  -- An operation that succeeds within `maxRetries` retries is never given up: if the attempts before
  -- attempt `k` throw transient errors and attempt `k` returns, then so does the whole, with `k` as the
  -- number of attempts.
  retry-returned :
      (k : ℕ) (s u v : S) (a : A)
      → k ≤ p.max_retries
      → Tries 0 s k u
      → o.fn u ≡ returned a v
      → retry p o s ≡ returned (finished p o (o.clock s) k a v) v
  unfolding retry
  retry-returned k s u v a l t e =
      tried_on (o.clock s) p.max_retries 0 k p.max_retries s u v a (omega arith) l t e
