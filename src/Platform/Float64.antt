-- ===== src/Platform/Float64.antt =====
-- float64 as internal/coreapi/rate.go uses it. A float64 is its 64 bits; the operations of IEEE 754 on them,
-- with their rounding, infinities and NaN, are a parameter.
use signalyard.Common.{ℕ, Bool}

pub record Float64 : Type 0 where
  pub of_nat : ℕ → ℕ  -- a whole constant
  pub add : ℕ → ℕ → ℕ
  pub sub : ℕ → ℕ → ℕ
  pub mul : ℕ → ℕ → ℕ
  pub lt : ℕ → ℕ → Bool
  pub le : ℕ → ℕ → Bool
  pub seconds : ℕ → ℕ  -- Duration.Seconds, of nanoseconds
