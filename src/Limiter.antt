-- ===== src/Limiter.antt =====
-- packages/core/src/rate-limiter.ts. A number of tokens is kept in parts of which `window_ms` make one
-- token, so that a refill is a whole number of parts; the rounding of floating-point numbers is left
-- out. The timer calls `cleanup`.
pub mod Rate
use secret_rotation_kit.Prelude.{
  ℕ, ◌+◌, ◌-◌, ◌*◌, ◌<>◌, Bool, true, false, not, Option, none, some, List, [], ◌∷◌, String,
  string_eq, if◌then◌else◌, leb, ltb, filter,
}
use secret_rotation_kit.Prelude.Int.{ℤ, pos, pos_part, neg_part, sub_ℕ, ◌+ℤ◌, ◌-ℤ◌, min_ℤ}
use secret_rotation_kit.Map
use secret_rotation_kit.Map.{Map}
use secret_rotation_kit.Effect.{Error, plain_error, Eff, Outcome, returned, thrown}

pub record Limits : Type 0 where
  pub max_tokens : ℕ
  pub window_ms : ℕ

pub record TokenBucket : Type 0 where
  pub tokens : ℤ
  pub last_refill : ℕ

abbrev pub Buckets : Type 0
Buckets = Map String TokenBucket

abbrev pub capacity : Limits → ℤ
capacity l = pos (l.max_tokens * l.window_ms)

abbrev pub one_token : Limits → ℤ
one_token l = pos l.window_ms

-- `tokens < 1e-9`.
abbrev pub is_below_epsilon : Limits → ℤ → Bool
is_below_epsilon l t = ltb (1000000000 * pos_part t) (l.window_ms + 1000000000 * neg_part t)

abbrev pub rate_limited : String → Error
rate_limited name = plain_error ("Rate limit exceeded for \"" <> name <> "\". Try again later.")

unfoldable pub refill : Limits → ℕ → TokenBucket → TokenBucket
refill l now b = if leb now b.last_refill then b else record {
  tokens = min_ℤ (capacity l) (b.tokens +ℤ pos ((now - b.last_refill) * l.max_tokens));
  last_refill = now;
}

-- The bucket of a first request.
abbrev pub first_bucket : Limits → ℕ → TokenBucket
first_bucket l now = record { tokens = capacity l -ℤ one_token l; last_refill = now }

-- Whether a request is let through, and its bucket then.
abbrev pub take_filled : Limits → TokenBucket → Bool × TokenBucket
take_filled l b =
    if is_below_epsilon l b.tokens
    then (false, b)
    else (true, record b { tokens = b.tokens -ℤ one_token l })

unfoldable pub take_token : Limits → ℕ → TokenBucket → Bool × TokenBucket
take_token l now b = take_filled l (refill l now b)

abbrev consume_found : Limits → String → ℕ → Option TokenBucket → Eff Buckets (Unit {0})
consume_found l name now none s = returned tt (Map.set s name (first_bucket l now))
consume_found l name now (some b) s =
    let taken = take_token l now b in
    let t = Map.set s name taken.1 in
    if taken.0 then returned tt t else thrown (rate_limited name) t

unfoldable pub consume : Limits → String → ℕ → Eff Buckets (Unit {0})
consume l name now s = consume_found l name now (Map.get s name) s

-- `canConsume` refills the bucket too.
abbrev can_consume_found : Limits → String → ℕ → Option TokenBucket → Buckets → Bool × Buckets
can_consume_found l name now none s = (true, s)
can_consume_found l name now (some b) s =
    let filled = refill l now b in (not (is_below_epsilon l filled.tokens), Map.set s name filled)

unfoldable pub can_consume : Limits → String → ℕ → Buckets → Bool × Buckets
can_consume l name now s = can_consume_found l name now (Map.get s name) s

unfoldable pub reset_buckets : Buckets → Buckets
reset_buckets s = []

-- Ten minutes.
unfoldable pub cleanup : ℕ → Buckets → Buckets
cleanup now s = filter (λ e. not (ltb (e.1.last_refill + 600000) now)) s
