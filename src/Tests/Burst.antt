-- ===== src/Tests/Burst.antt =====
-- Requests that come all at once, at the gateway.
use signalyard.Common.{◌≡◌, refl, true, false, [], ◌∷◌, arith}
use signalyard.Gateway.Rate.{new_rate_limiter}
use signalyard.Gateway.Rate.Burst.{AreExact, first_granted, answers-first_granted}
use signalyard.Gateway.Rate.Isolated.{Requests, times_of, answers}
use signalyard.Tests.Setup.{test_env}

-- Agent 2 comes in between, and later.
abbrev at_once : Requests
at_once = (7, 1) ∷ (7, 2) ∷ (7, 1) ∷ (7, 1) ∷ (9, 2) ∷ []

exact : AreExact test_env.float64 2 50
exact = record {
  no_time = refl;
  add_zero = λ m h. omega arith;
  sub_one = λ m h. omega arith;
  lt_nat = λ a b h g. refl;
}

answers-first_granted_example : answers 1 at_once (new_rate_limiter 50 2) ≡ true ∷ true ∷ false ∷ []
unfolding new_rate_limiter times_of first_granted
answers-first_granted_example =
    answers-first_granted 1 2 7 at_once (new_rate_limiter 50 2) exact (omega arith) refl refl
      (refl, (refl, (refl, tt)))
