-- ===== src/Gateway/Rate.antt =====
-- internal/coreapi/rate.go: one token bucket for each agent. Tokens, rate and burst are float64.
pub mod Burst
pub mod Isolated
use signalyard.Common.{ℕ, ◌-◌, Bool, true, false, Option, none, some, ◌==◌, ℕ_eq, if◌then◌else◌}
use signalyard.Platform.Float64.{Float64}
use signalyard.Platform.World.{Env}

pub record Bucket : Type 0 where
  pub tokens : ℕ
  pub last : ℕ

pub record RateLimiter : Type 0 where
  pub buckets : ℕ → Option Bucket
  pub rps : ℕ
  pub burst : ℕ

-- A new agent starts with a full bucket.
abbrev pub bucket_or_full : ℕ → ℕ → Option Bucket → Bucket
bucket_or_full burst now none = record { tokens = burst; last = now }
bucket_or_full burst now (some b) = b

module _ ⦃env : Env⦄ where
  abbrev f64 : Float64
  f64 = env.float64

  abbrev or_default : ℕ → ℕ → ℕ
  or_default x d = if f64.le x (f64.of_nat 0) then f64.of_nat d else x

  -- newRateLimiter
  unfoldable pub new_rate_limiter : (rps burst : ℕ) → RateLimiter
  new_rate_limiter rps burst = record {
    buckets = λ id. none;
    rps = or_default rps 50;
    burst = or_default burst 100;
  }

  abbrev capped : ℕ → ℕ → ℕ
  capped burst tokens = if f64.lt burst tokens then burst else tokens

  -- Go's clock is monotonic: `now` is not before `last`.
  unfoldable pub refill : (rps burst now : ℕ) → Bucket → Bucket
  refill rps burst now b = record {
    tokens = capped burst (f64.add b.tokens (f64.mul (f64.seconds (now - b.last)) rps));
    last = now;
  }

  unfoldable pub take_token : Bucket → Bool × Bucket
  take_token b =
      if f64.lt b.tokens (f64.of_nat 1)
      then (false, b)
      else (true, record b { tokens = f64.sub b.tokens (f64.of_nat 1) })

  unfoldable pub allow : (now id : ℕ) → RateLimiter → Bool × RateLimiter
  unfolding refill take_token
  allow now id l =
      let (granted, b) =
        take_token (refill l.rps l.burst now (bucket_or_full l.burst now (l.buckets id))) in
      (granted, record l { buckets = λ k. if k == id then some b else l.buckets k })
