-- ===== src/Management/RateLimit.antt =====
-- management/internal/grpcserver/ratelimit.go: a token bucket for each source address. Times are
-- nanoseconds of one clock that does not run backwards. The source's tokens are `float64`; here they
-- are exact, in units of a nanosecond's refill: at 5 tokens in 60 seconds, a token is 12 * 10 ^ 9.
pub mod Bound
use blinex.Prelude.{
  ℕ, ◌+◌, ◌-◌, ◌*◌, Bool, true, false, Option, none, some, List, [], ◌∷◌, ltb, if◌then◌else◌,
}
use blinex.Prelude.Text.{Text, text_eq}
use blinex.Prelude.Dict.{Dict, get, put, evict}

pub record TokenBucket : Type 0 where
  pub tokens : ℕ
  pub last_time : ℕ

pub record RateLimiter : Type 0 where
  pub buckets : Dict Text TokenBucket
  pub cleaned : ℕ

abbrev pub second : ℕ
second = 1_000_000_000

abbrev pub token : ℕ
token = 12 * second

-- `rlCapacity`
abbrev pub rl_capacity : ℕ
rl_capacity = 5 * token

unfoldable pub new_rate_limiter : ℕ → RateLimiter
new_rate_limiter now = record { buckets = []; cleaned = now }

-- Idle buckets are evicted from time to time.
unfoldable pub clean : RateLimiter → ℕ → RateLimiter
clean r now =
    if ltb (120 * second) (now - r.cleaned)
    then record {
      buckets = evict (λ b. ltb (300 * second) (now - b.last_time)) r.buckets;
      cleaned = now;
    }
    else r

-- The tokens after the refill for the time passed.
refilled : TokenBucket → ℕ → ℕ
refilled b now =
    let tokens = b.tokens + (now - b.last_time) in
    if ltb rl_capacity tokens then rl_capacity else tokens

spend : RateLimiter → Text → Option TokenBucket → ℕ → Bool × RateLimiter
spend r key none now = (
  true,
  record r {
    buckets = put r.buckets key (record { tokens = rl_capacity - token; last_time = now });
  },
)
spend r key (some b) now =
    let tokens = refilled b now in
    if ltb tokens token
    then (
      false,
      record r { buckets = put r.buckets key (record { tokens = tokens; last_time = now }) },
    )
    else (
      true,
      record r {
        buckets = put r.buckets key (record { tokens = tokens - token; last_time = now });
      },
    )

-- `Allow`
unfoldable pub allow : RateLimiter → Text → ℕ → Bool × RateLimiter
unfolding clean spend refilled
allow r key now = let r' = clean r now in spend r' key (get r'.buckets key) now
