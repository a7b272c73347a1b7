-- ===== src/Limiter/Rate.antt =====
-- How many requests a bucket lets through.
use native.Mathlib.Nat.{add-mul}
use secret_rotation_kit.Prelude.{
  ℕ, suc, ◌+◌, ◌-◌, ◌*◌, ◌≤◌, ◌<◌, ◌≡◌, sym, ap, ◌∙◌, false, List, [], ◌∷◌, if◌then◌else◌, leb, ltb,
  arith, inl, inr, Bool-cases,
}
use secret_rotation_kit.Prelude.Int.{ℤ, pos, negsuc, pos_part, neg_part, ◌+ℤ◌, ◌-ℤ◌, min_ℤ}
use secret_rotation_kit.Limiter.{Limits, TokenBucket, refill, take_token, is_below_epsilon}

-- Adding to an integer under a bound.
capped :
    (c g : ℕ) (t : ℤ)
    → (pos_part (min_ℤ (pos c) (t +ℤ pos g)) ≤ c)
      × (neg_part (min_ℤ (pos c) (t +ℤ pos g)) ≤ neg_part t)
      × (pos_part (min_ℤ (pos c) (t +ℤ pos g)) + neg_part t
          ≤ pos_part t + neg_part (min_ℤ (pos c) (t +ℤ pos g)) + g)
unfolding min_ℤ ◌+ℤ◌
capped c g (pos n) = (ground arith, ground arith, ground arith)
capped c g (negsuc n) = (ground arith, ground arith, ground arith)

-- Taking one token of `w` parts from a positive amount.
taken :
    (w : ℕ) (t : ℤ)
    → 0 < w
    → ltb (1000000000 * pos_part t) (w + 1000000000 * neg_part t) ≡ false
    → (pos_part (t -ℤ pos w) ≤ pos_part t)
      × (neg_part (t -ℤ pos w) < w)
      × (pos_part (t -ℤ pos w) + w ≡ pos_part t + neg_part (t -ℤ pos w))
unfolding ◌-ℤ◌
taken w (pos n) p h = (ground arith, ground arith, ground arith)
taken w (negsuc n) p h = absurd (ground arith)

module _ (l : Limits) where
  -- More than minus one token, and at most the capacity.
  pub record InRange (b : TokenBucket) : Type 0 where
    pub upper : pos_part b.tokens ≤ l.max_tokens * l.window_ms
    pub lower : neg_part b.tokens < l.window_ms

  -- A sequence of requests: how many are let through, and the bucket then.
  unfoldable pub takes : List ℕ → TokenBucket → ℕ × TokenBucket
  takes [] b = (0, b)
  takes (now ∷ rest) b =
      let (ok, c) = take_token l now b in
      let (n, d) = takes rest c in ((if ok then suc n else n), d)

  suc_times : (n w : ℕ) → suc n * w ≡ w + n * w
  suc_times n w = ground arith

  gain : (a b m : ℕ) → a ≤ b → (b - a) * m + a * m ≡ b * m
  gain a b m h = sym (add-mul (b - a) a m) ∙ ap (λ z. z * m) (omega arith)

  refill-InRange : (now : ℕ) (b : TokenBucket) → InRange b → InRange (refill l now b)
  unfolding refill
  refill-InRange now b h = elim (Bool-cases (leb now b.last_refill)) [
    | inl e ↦ rw e h
    | inr e ↦
        let (u, v, p) =
          capped (l.max_tokens * l.window_ms) ((now - b.last_refill) * l.max_tokens) b.tokens in
        rw e (record { upper = u; lower = omega (arith, v, h.lower) })
  ]

  refill_gain :
      (now : ℕ) (b : TokenBucket)
      → pos_part (refill l now b).tokens + neg_part b.tokens + b.last_refill * l.max_tokens
        ≤ pos_part b.tokens
          + neg_part (refill l now b).tokens
          + (refill l now b).last_refill * l.max_tokens
  unfolding refill
  refill_gain now b = elim (Bool-cases (leb now b.last_refill)) [
    | inl e ↦ rw e (omega arith)
    | inr e ↦
        let (u, v, p) =
          capped (l.max_tokens * l.window_ms) ((now - b.last_refill) * l.max_tokens) b.tokens in
        let q = gain b.last_refill now l.max_tokens (ground arith) in rw e (omega (arith, p, q))
  ]

  module _ (w : 0 < l.window_ms) where
    take_token-InRange : (now : ℕ) (b : TokenBucket) → InRange b → InRange (take_token l now b).1
    unfolding take_token
    take_token-InRange now b h =
        let c = refill l now b in
        let r = refill-InRange now b h in
        elim (Bool-cases (is_below_epsilon l c.tokens)) [
          | inl e ↦ rw e r
          | inr e ↦
              let (p, q, s) = taken l.window_ms c.tokens w e in
              rw e (record { upper = omega (arith, p, r.upper); lower = q })
        ]

    -- A bucket in range stays in range.
    takes-InRange : (ts : List ℕ) (b : TokenBucket) → InRange b → InRange (takes ts b).1
    unfolding takes
    takes-InRange [] b h = h
    takes-InRange (t ∷ ts) b h = takes-InRange ts (take_token l t b).1 (take_token-InRange t b h)

    -- What one request costs.
    take_token_cost :
        (now : ℕ) (b : TokenBucket)
        → (if (take_token l now b).0 then l.window_ms else 0)
            + pos_part (take_token l now b).1.tokens
            + neg_part b.tokens
            + b.last_refill * l.max_tokens
          ≤ pos_part b.tokens
            + neg_part (take_token l now b).1.tokens
            + (take_token l now b).1.last_refill * l.max_tokens
    unfolding take_token
    take_token_cost now b =
        let c = refill l now b in
        let g = refill_gain now b in
        elim (Bool-cases (is_below_epsilon l c.tokens)) [
          | inl e ↦ rw e (ground (arith, g))
          | inr e ↦ let (p, q, s) = taken l.window_ms c.tokens w e in rw e (ground (arith, g, s))
        ]

    takes_cost :
        (ts : List ℕ) (b : TokenBucket)
        → (takes ts b).0 * l.window_ms
            + pos_part (takes ts b).1.tokens
            + neg_part b.tokens
            + b.last_refill * l.max_tokens
          ≤ pos_part b.tokens
            + neg_part (takes ts b).1.tokens
            + (takes ts b).1.last_refill * l.max_tokens
    unfolding takes
    takes_cost [] b = ground arith
    takes_cost (t ∷ ts) b =
        let c = take_token l t b in
        let i = takes_cost ts c.1 in
        let k = take_token_cost t b in
        elim (Bool-cases c.0) [
          | inl e ↦
              let k' = rw e at k in
              rw e (omega (arith, i, k', suc_times (takes ts c.1).0 l.window_ms))
          | inr e ↦ let k' = rw e at k in rw e (omega (arith, i, k'))
        ]

    -- With a positive window, from a bucket in range (more than minus one token, at most the capacity),
    -- whatever the times of the requests: the bucket stays in range, and those let through are fewer
    -- than the capacity, one more, and what is refilled meanwhile together.
    pub takes-le :
        (ts : List ℕ) (b : TokenBucket)
        → InRange b
        → InRange (takes ts b).1
          × ((takes ts b).0 * l.window_ms + b.last_refill * l.max_tokens
              < l.max_tokens * l.window_ms
                + l.window_ms
                + (takes ts b).1.last_refill * l.max_tokens)
    takes-le ts b h =
        let r = takes-InRange ts b h in
        let k = takes_cost ts b in (r, omega (arith, k, h.upper, r.lower))
