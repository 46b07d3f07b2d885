-- ===== src/Platform/Keeps.antt =====
-- How an action changes a view of the state, whether it returns or fails: one rule for each way to
-- build an action, over any relation that is a preorder.
use signalyard.Common.{Bool, true, false, Option, none, some, if◌then◌else◌}
use signalyard.Platform.Exec.{
  Error, Result, ok, err, Exec, ◌>>=◌, pure, raise, gets, fail_if, or_fail, ◌or_else◌, ignore,
  attempt,
}

pub record Preorder {X : Type 0} (R : X → X → Type 0) : Type 0 where
  pub reflexive : (x : X) → R x x
  pub transitive : (x y z : X) → R x y → R y z → R x z

-- From any state, `m` leads to one whose view is related to the view before.
pub record Keeps {E S A X : Type 0} (view : S → X) (R : X → X → Type 0) (m : Exec E S A)
    : Type 0 where
  pub at : (s : S) → R (view s) (view (m s).1)

module _ {E S A X : Type 0} {view : S → X} {R : X → X → Type 0} (o : Preorder R) where
  pub Keeps-pure : (a : A) → Keeps view R (pure {E = E} a)
  unfolding pure
  Keeps-pure a = record { at = λ s. o.reflexive (view s) }

  pub Keeps-raise : (e : E) → Keeps view R (raise {A = A} e)
  unfolding raise
  Keeps-raise e = record { at = λ s. o.reflexive (view s) }

  pub Keeps-gets : (f : S → A) → Keeps view R (gets {E = E} f)
  unfolding gets
  Keeps-gets f = record { at = λ s. o.reflexive (view s) }

  pub Keeps-or_fail : (v : Option A) (e : E) → Keeps view R (or_fail v e)
  unfolding or_fail
  Keeps-or_fail none e = record { at = λ s. o.reflexive (view s) }
  Keeps-or_fail (some a) e = record { at = λ s. o.reflexive (view s) }

  pub Keeps-if :
      (b : Bool) (m n : Exec E S A)
      → Keeps view R m
      → Keeps view R n
      → Keeps view R (if b then m else n)
  Keeps-if true m n km kn = km
  Keeps-if false m n km kn = kn

module _ {E S X : Type 0} {view : S → X} {R : X → X → Type 0} (o : Preorder R) where
  pub Keeps-fail_if : (b : Bool) (e : E) → Keeps view R (fail_if b e)
  unfolding fail_if
  Keeps-fail_if true e = record { at = λ s. o.reflexive (view s) }
  Keeps-fail_if false e = record { at = λ s. o.reflexive (view s) }

module _ {E S A B X : Type 0} {view : S → X} {R : X → X → Type 0} (o : Preorder R) where
  after :
      (r : Result E A) (f : A → Exec E S B) (s : S) (t : S)
      → R (view s) (view t)
      → ((a : A) → Keeps view R (f a))
      → R (view s) (view (signalyard.Platform.Exec.continue r f t).1)
  after (ok a) f s t st k = o.transitive _ _ _ st ((k a).at t)
  after (err e) f s t st k = st

  pub Keeps-bind :
      (m : Exec E S A) (f : A → Exec E S B)
      → Keeps view R m
      → ((a : A) → Keeps view R (f a))
      → Keeps view R (m >>= f)
  unfolding ◌>>=◌
  Keeps-bind m f km kf = record { at = λ s. after (m s).0 f s (m s).1 (km.at s) kf }

module _ {E F S A X : Type 0} {view : S → X} {R : X → X → Type 0} where
  pub Keeps-or_else : (m : Exec E S A) (f : E → F) → Keeps view R m → Keeps view R (m or_else f)
  unfolding ◌or_else◌
  Keeps-or_else m f k = record { at = λ s. k.at s }

  pub Keeps-ignore : (m : Exec E S A) → Keeps view R m → Keeps view R (ignore {F = F} m)
  unfolding ignore
  Keeps-ignore m k = record { at = λ s. k.at s }

  pub Keeps-attempt : (m : Exec E S A) → Keeps view R m → Keeps view R (attempt {F = F} m)
  unfolding attempt
  Keeps-attempt m k = record { at = λ s. k.at s }

pub ruleset keeps_rules = (
  Keeps-pure, Keeps-raise, Keeps-gets, Keeps-or_fail, Keeps-if, Keeps-fail_if, Keeps-bind,
  Keeps-or_else, Keeps-ignore, Keeps-attempt,
)
