-- ===== src/Gateway/Rate/Burst.antt =====
-- The requests of an agent that come all at once, before the rate limiter.
use signalyard.Common.{
  ℕ, zero, suc, ◌-◌, ◌≤◌, ◌≡◌, refl, ap, ◌∙◌, Bool, true, false, Option, none, some, List, [], ◌∷◌,
  ltb, arith, ℕ_eq,
}
use signalyard.Platform.Float64.{Float64}
use signalyard.Platform.World.{Env}
use signalyard.Gateway.Rate.{Bucket, RateLimiter, refill, take_token, bucket_or_full}
use signalyard.Gateway.Rate.Isolated.{
  Requests, times_of, answers, bucket_answers, answers-bucket_answers,
}

-- What IEEE 754 says of the whole numbers up to `n` where n is at most 2^53 and `rps` is finite: they are
-- exact.
pub record AreExact (f : Float64) (n rps : ℕ) : Type 0 where
  pub no_time : f.mul (f.seconds 0) rps ≡ f.of_nat 0
  pub add_zero : (m : ℕ) → m ≤ n → f.add (f.of_nat m) (f.of_nat 0) ≡ f.of_nat m
  pub sub_one : (m : ℕ) → suc m ≤ n → f.sub (f.of_nat (suc m)) (f.of_nat 1) ≡ f.of_nat m
  pub lt_nat : (a b : ℕ) → a ≤ n → b ≤ n → f.lt (f.of_nat a) (f.of_nat b) ≡ ltb a b

-- The requests of agent `k` come at time `t`.
abbrev pub AllAt : ℕ → List ℕ → Type 0
AllAt t [] = Unit {0}
AllAt t (now ∷ rest) = (now ≡ t) × AllAt t rest

-- The first `n` are granted.
unfoldable pub first_granted : ℕ → List ℕ → List Bool
first_granted n [] = []
first_granted zero (now ∷ rest) = false ∷ first_granted zero rest
first_granted (suc n) (now ∷ rest) = true ∷ first_granted n rest

nothing : (n : ℕ) → n - n ≡ 0
nothing n = omega arith

not_less : (n m : ℕ) → m ≤ n → ltb n m ≡ false
not_less n m h = ground arith

module _ ⦃env : Env⦄ (n rps t : ℕ) (x : AreExact env.float64 n rps) (one : 1 ≤ n) where
  abbrev with_tokens : ℕ → Bucket
  with_tokens m = record { tokens = env.float64.of_nat m; last = t }

  refill-same :
      (m : ℕ) → m ≤ n → refill rps (env.float64.of_nat n) t (with_tokens m) ≡ with_tokens m
  unfolding refill
  refill-same m h =
      rw (nothing t, x.no_time, x.add_zero m h, x.lt_nat n m (omega arith) h, not_less n m h) refl

  take_none : take_token (with_tokens 0) ≡ (false, with_tokens 0)
  unfolding take_token
  take_none = rw (x.lt_nat 0 1 (omega arith) one) refl

  take_one : (m : ℕ) → suc m ≤ n → take_token (with_tokens (suc m)) ≡ (true, with_tokens m)
  unfolding take_token
  take_one m h = rw (x.lt_nat (suc m) 1 h one, not_less (suc m) 1 (omega arith), x.sub_one m h) refl

  bucket_answers-first_granted :
      (m : ℕ) (o : Option Bucket) (times : List ℕ)
      → m ≤ n
      → bucket_or_full (env.float64.of_nat n) t o ≡ with_tokens m
      → AllAt t times
      → bucket_answers rps (env.float64.of_nat n) o times ≡ first_granted m times
  unfolding bucket_answers first_granted
  bucket_answers-first_granted m o [] h e a = refl
  bucket_answers-first_granted zero o (now ∷ rest) h e (p, a) =
      rw (p, e, refill-same 0 h, take_none)
        (ap (λ l. false ∷ l)
          (bucket_answers-first_granted zero (some (with_tokens 0)) rest h refl a))
  bucket_answers-first_granted (suc m) o (now ∷ rest) h e (p, a) =
      rw (p, e, refill-same (suc m) h, take_one m h)
        (ap (λ l. true ∷ l)
          (bucket_answers-first_granted m (some (with_tokens m)) rest (omega arith) refl a))

-- Of the requests of an agent that has no bucket yet, and that all come at one moment, the first n are granted
-- and the others refused, where the burst is n, whatever the other agents send before, after or in between.
-- The burst is a whole number, at least 1, up to which float64 is exact.
pub answers-first_granted :
    ⦃env : Env⦄ (k n t : ℕ) (reqs : Requests) (l : RateLimiter)
    → AreExact env.float64 n l.rps
    → 1 ≤ n
    → l.burst ≡ env.float64.of_nat n
    → l.buckets k ≡ none
    → AllAt t (times_of k reqs)
    → answers k reqs l ≡ first_granted n (times_of k reqs)
answers-first_granted ⦃env⦄ k n t reqs l x one b f a =
    answers-bucket_answers k reqs l
    ∙ rw (b, f)
        (bucket_answers-first_granted n l.rps t x one n none (times_of k reqs) (omega arith) refl a)
