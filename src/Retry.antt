-- ===== src/Retry.antt =====
-- packages/core/src/retry-handler.ts. The operation, its test for transient errors and the pause are
-- functions on a state of the caller's; the pause is given the bound of its random length. The
-- multiplier is a whole number.
pub mod Attempts
use secret_rotation_kit.Prelude.{
  ℕ, zero, suc, ◌*◌, ◌^◌, Bool, true, false, Option, none, some, if◌then◌else◌, ltb,
}
use secret_rotation_kit.Prelude.Int.{ℤ, sub_ℕ}
use secret_rotation_kit.Effect.{Error, Eff, Outcome, returned, thrown}
use secret_rotation_kit.Verification.{RetryPolicy}

abbrev pub default_policy : RetryPolicy ℕ
default_policy = record {
  max_retries = 3;
  backoff_multiplier = 2;
  initial_delay_ms = 1000;
  max_delay_ms = 30000;
}

pub record RetryResult (A : Type 0) : Type 0 where
  pub result : A
  pub attempts : ℕ
  pub total_duration : ℤ

-- `Math.min(initialDelayMs * backoffMultiplier ** attempt, maxDelayMs)`.
unfoldable pub delay_bound : RetryPolicy ℕ → ℕ → ℕ
delay_bound p attempt =
    let base = p.initial_delay_ms * p.backoff_multiplier ^ attempt in
    if ltb base p.max_delay_ms then base else p.max_delay_ms

-- `fn`, `shouldRetry`, `Date.now` and the pause.
pub record Operation (S A : Type 0) : Type 0 where
  pub fn : Eff S A
  pub should_retry : Error → S → Bool
  pub clock : S → ℕ
  pub pause : ℕ → S → S

module _ {S A : Type 0} (p : RetryPolicy ℕ) (o : Operation S A) where
  abbrev pub finished : ℕ → ℕ → A → S → RetryResult A
  finished start attempt a t = record {
    result = a;
    attempts = attempt;
    total_duration = sub_ℕ (o.clock t) start;
  }

  -- The loop at an attempt, with so many retries left.
  unfoldable pub attempt_from : ℕ → ℕ → ℕ → Eff S (RetryResult A)
  attempt_from start attempt zero s = elim (o.fn s) [
    | returned a t ↦ returned (finished start attempt a t) t
    | thrown e t ↦ thrown e t
  ]
  attempt_from start attempt (suc left) s = elim (o.fn s) [
    | returned a t ↦ returned (finished start attempt a t) t
    | thrown e t ↦ elim (o.should_retry e t) [
      | true ↦ attempt_from start (suc attempt) left (o.pause (delay_bound p attempt) t)
      | false ↦ thrown e t
    ]
  ]

  unfoldable pub retry : Eff S (RetryResult A)
  unfolding attempt_from
  retry s = attempt_from (o.clock s) 0 p.max_retries s
