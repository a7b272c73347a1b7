-- ===== src/Tests/Limiting.antt =====
-- The rate limiter at concrete requests.
use secret_rotation_kit.Prelude.{◌+◌, ◌*◌, ◌<◌, ◌≡◌, refl, [], ◌∷◌, arith}
use secret_rotation_kit.Prelude.Int.{pos, ◌+ℤ◌, ◌-ℤ◌, min_ℤ}
use secret_rotation_kit.Limiter.{Limits, TokenBucket, take_token, refill}
use secret_rotation_kit.Limiter.Rate.{InRange, takes, takes-le}

-- Two requests in a second.
abbrev limits : Limits
limits = record { max_tokens = 2; window_ms = 1000 }

abbrev full : TokenBucket
full = record { tokens = pos 2000; last_refill = 0 }

takes-le_example :
    InRange limits (takes limits (0 ∷ 0 ∷ 1 ∷ 2 ∷ []) full).1
    × ((takes limits (0 ∷ 0 ∷ 1 ∷ 2 ∷ []) full).0 * 1000 + 0 * 2
        < 2 * 1000 + 1000 + (takes limits (0 ∷ 0 ∷ 1 ∷ 2 ∷ []) full).1.last_refill * 2)
takes-le_example =
    takes-le limits (omega arith) (0 ∷ 0 ∷ 1 ∷ 2 ∷ []) full
      (record { upper = omega arith; lower = omega arith })

-- The third request comes one millisecond after the bucket was emptied, and is let through.
fraction : (takes limits (0 ∷ 0 ∷ 1 ∷ []) full).0 ≡ 3
unfolding takes take_token refill ◌+ℤ◌ ◌-ℤ◌ min_ℤ
fraction = refl
