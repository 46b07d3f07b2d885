-- ===== src/Normalizer/Counts.antt =====
-- The counters of internal/normalizer/worker.go over a sequence of deliveries.
pub mod Consumed
use signalyard.Common.{
  ℕ, suc, ◌+◌, ◌≡◌, refl, sym, ◌∙◌, ap, String, String_eq, ◌==◌, Bool, true, false, Option, none,
  some, List, [], ◌∷◌, arith, if◌then◌else◌,
}
use signalyard.Platform.Exec.{
  Error, not_found, conflict, failed, Result, ok, err, Exec, ◌>>=◌, ◌>>◌, pure, raise, attempt,
  continue,
}
use signalyard.Platform.Messages.{Envelope}
use signalyard.Platform.World.{Env, World}
use signalyard.Platform.Keeps.{Preorder, Keeps, Keeps-bind, Keeps-raise, Keeps-pure, keeps_rules}
use signalyard.Normalizer.State.{RegistrySchema, Counters, Worker, Upstream, at_world, count_with}
use signalyard.Normalizer.RegistryClient.{get_schema}
use signalyard.Normalizer.Worker.{
  Outcome, ValidationResult, quarantine, after_validation, after_schema, process, bump_processed,
  bump_routed, bump_failed_valid, bump_quarantined,
}
use signalyard.Normalizer.Fetched.{get_schema-counts}

-- Processing that goes through settles one event.
abbrev pub settled : Counters → ℕ
settled c = c.routed + c.quarantined

abbrev pub successes : {A : Type 0} → Result Error A → ℕ
successes (ok a) = 1
successes (err e) = 0

unfoldable pub Same : ℕ → ℕ → Type 0
Same a b = b ≡ a

pub same : Preorder Same
unfolding Same
same = record { reflexive = λ x. refl; transitive = λ a b c p q. q ∙ p }

-- A measure of the counters that an action leaves alone, or raises by one where it succeeds.
module _ (μ : Counters → ℕ) where
  abbrev pub Leaves : {A : Type 0} → Exec Error Worker A → Type 0
  Leaves m = Keeps (λ s. μ s.counts) Same m

  record Raises {A : Type 0} (m : Exec Error Worker A) : Type 0 where
    by_one : (s : Worker) → μ (m s).1.counts ≡ μ s.counts + successes (m s).0

  module _ {A : Type 0} where
    pub at_world-Leaves : (m : Exec Error World A) → Leaves (at_world m)
    unfolding Same
    at_world-Leaves m = record { at = λ s. refl }

  pub count-Leaves :
      (f : Counters → Counters) → ((c : Counters) → μ (f c) ≡ μ c) → Leaves (count_with f)
  unfolding Same
  count-Leaves f h = record { at = λ s. h s.counts }

  count-Raises :
      (f : Counters → Counters) → ((c : Counters) → μ (f c) ≡ suc (μ c)) → Raises (count_with f)
  count-Raises f h = record { by_one = λ s. h s.counts ∙ omega arith }

  module _ {A : Type 0} where
    raise-Raises : (e : Error) → Raises {A = A} (raise e)
    unfolding raise
    raise-Raises e = record { by_one = λ s. omega arith }

    Raises-if :
        (b : Bool) (m n : Exec Error Worker A) → Raises m → Raises n → Raises (if b then m else n)
    Raises-if true m n k l = k
    Raises-if false m n k l = l

  module _ {A B : Type 0} where
    after :
        (r : Result Error A) (f : A → Exec Error Worker B) (s t : Worker)
        → μ t.counts ≡ μ s.counts
        → ((a : A) → Raises (f a))
        → μ (continue r f t).1.counts ≡ μ s.counts + successes (continue r f t).0
    after (ok a) f s t h k = (k a).by_one t ∙ ap (λ n. n + successes (f a t).0) h
    after (err e) f s t h k = h ∙ omega arith

    Raises-after :
        (m : Exec Error Worker A) (f : A → Exec Error Worker B)
        → Leaves m
        → ((a : A) → Raises (f a))
        → Raises (m >>= f)
    unfolding ◌>>=◌ Same
    Raises-after m f k l = record { by_one = λ s. after (m s).0 f s (m s).1 (k.at s) l }

    ended :
        (b : B) (r : Result Error A) (n : ℕ) (t : Worker)
        → μ t.counts ≡ n + successes r
        → μ (continue r (λ a. pure b) t).1.counts
          ≡ n + successes (continue {S = Worker} r (λ a. pure b) t).0
    unfolding pure
    ended b (ok a) n t h = h
    ended b (err e) n t h = h

    Raises-pure : (m : Exec Error Worker A) (b : B) → Raises m → Raises (m >>= λ a. pure b)
    unfolding ◌>>=◌
    Raises-pure m b k = record { by_one = λ s. ended b (m s).0 (μ s.counts) (m s).1 (k.by_one s) }

module _ ⦃env : Env⦄ ⦃up : Upstream⦄ where
  quarantine-Raises : (e : Envelope) (reason : String) → Raises settled (quarantine e reason)
  unfolding quarantine
  quarantine-Raises e reason = Raises-after settled _ _ (at_world-Leaves settled _) λ a.
      Raises-after settled _ _ (at_world-Leaves settled _)
        λ b. count-Raises settled bump_quarantined (λ c. omega arith)

  after_validation-Raises :
      (e : Envelope) (s : RegistrySchema) (v : Option ValidationResult)
      → Raises settled (after_validation e s v)
  unfolding after_validation
  after_validation-Raises e s none = raise-Raises settled failed
  after_validation-Raises e s (some v) =
      Raises-if settled v.valid _ _
        (Raises-after settled _ _ (at_world-Leaves settled _)
          λ a. Raises-pure settled _ _ (count-Raises settled bump_routed (λ c. omega arith)))
        (Raises-after settled _ _ (count-Leaves settled bump_failed_valid (λ c. refl))
          λ a. Raises-pure settled _ _ (quarantine-Raises e _))

  after_schema-Raises :
      (e : Envelope) (r : Result Error RegistrySchema) → Raises settled (after_schema e r)
  unfolding after_schema
  after_schema-Raises e (err not_found) = Raises-pure settled _ _ (quarantine-Raises e _)
  after_schema-Raises e (err conflict) = raise-Raises settled conflict
  after_schema-Raises e (err failed) = raise-Raises settled failed
  after_schema-Raises e (ok s) = after_validation-Raises e s _

  pub get_schema-Leaves :
      (μ : Counters → ℕ) (category : String) → Leaves μ (attempt (get_schema category))
  unfolding attempt Same
  get_schema-Leaves μ category = record { at = λ s. ap μ (get_schema-counts category s) }

  pub process-settled :
      (e : Envelope) (s : Worker)
      → settled (process e s).1.counts ≡ settled s.counts + successes (process e s).0
  unfolding process
  process-settled e s =
      (Raises-after settled _ _ (count-Leaves settled bump_processed (λ c. refl)) (λ a.
          Raises-after settled _ _ (get_schema-Leaves settled e.category)
            (after_schema-Raises e))).by_one
        s
