-- ===== src/Gateway/Rate/Isolated.antt =====
-- The requests of one agent and those of the others, before the rate limiter.
use signalyard.Common.{
  ℕ, ◌≡◌, refl, sym, ap, subst, inl, inr, Bool-cases, nat_eq_iff, nat_eq, Bool, true, false, Option,
  some, List, [], ◌∷◌, ◌==◌, ℕ_eq, arith, if◌then◌else◌,
}
use signalyard.Platform.World.{Env}
use signalyard.Gateway.Rate.{Bucket, RateLimiter, refill, take_token, allow, bucket_or_full}

-- The requests as the limiter sees them, in order: the time and the agent of each.
abbrev pub Requests : Type 0
Requests = List (ℕ × ℕ)

-- The times of the requests of agent `k`.
unfoldable pub times_of : ℕ → Requests → List ℕ
times_of k [] = []
times_of k ((now, id) ∷ rest) =
    let later = times_of k rest in if id == k then now ∷ later else later

module _ ⦃env : Env⦄ where
  -- What is answered to the requests of agent `k`, in order.
  unfoldable pub answers : (k : ℕ) → Requests → RateLimiter → List Bool
  answers k [] l = []
  answers k ((now, id) ∷ rest) l =
      let (granted, l') = allow now id l in
      let later = answers k rest l' in if id == k then granted ∷ later else later

  -- The answers of one bucket to requests at these times.
  unfoldable pub bucket_answers : (rps burst : ℕ) → Option Bucket → List ℕ → List Bool
  bucket_answers rps burst o [] = []
  bucket_answers rps burst o (now ∷ rest) =
      let (granted, b) = take_token (refill rps burst now (bucket_or_full burst now o)) in
      granted ∷ bucket_answers rps burst (some b) rest

  Answered : ℕ → Requests → RateLimiter → Type 0
  Answered k reqs l =
      answers k reqs l ≡ bucket_answers l.rps l.burst (l.buckets k) (times_of k reqs)

  own :
      (k now : ℕ) (rest : Requests) (l : RateLimiter)
      → nat_eq k k ≡ true
      → Answered k rest (allow now k l).1
      → Answered k ((now, k) ∷ rest) l
  unfolding Answered answers bucket_answers times_of allow
  own k now rest l e again = rw e (ap (λ x. (allow now k l).0 ∷ x) (rw e at again))

  other :
      (k now id : ℕ) (rest : Requests) (l : RateLimiter)
      → nat_eq id k ≡ false
      → nat_eq k id ≡ false
      → Answered k rest (allow now id l).1
      → Answered k ((now, id) ∷ rest) l
  unfolding Answered answers bucket_answers times_of allow
  other k now id rest l e e' again = rw e (rw e' at again)

  -- However the requests of all agents are interleaved, an agent is answered as a bucket of its own, at
  -- the limiter's rate and burst, would answer its requests alone.
  pub answers-bucket_answers :
      (k : ℕ) (reqs : Requests) (l : RateLimiter)
      → answers k reqs l ≡ bucket_answers l.rps l.burst (l.buckets k) (times_of k reqs)
  unfolding answers bucket_answers times_of Answered
  answers-bucket_answers k [] l = refl
  answers-bucket_answers k ((now, id) ∷ rest) l =
      let again = answers-bucket_answers k rest (allow now id l).1 in
      elim (Bool-cases (nat_eq id k)) [
        | inl e ↦
            subst (λ i. Answered k rest (allow now i l).1 → Answered k ((now, i) ∷ rest) l)
              (sym ((nat_eq_iff id k).0 e)) (own k now rest l ((nat_eq_iff k k).1 refl)) again
        | inr e ↦ other k now id rest l e (ground arith) again
      ]
