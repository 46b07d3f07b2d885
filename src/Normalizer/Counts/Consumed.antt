-- ===== src/Normalizer/Counts/Consumed.antt =====
-- Sequences of deliveries: each acknowledged one is settled.
use signalyard.Common.{
  ℕ, suc, ◌+◌, ◌≡◌, refl, ◌∙◌, ap, String, Option, none, some, List, [], ◌∷◌, arith,
}
use signalyard.Platform.Exec.{Error, not_found, conflict, failed, Result, ok, err, ◌>>=◌}
use signalyard.Platform.Messages.{Envelope}
use signalyard.Platform.World.{Env}
use signalyard.Platform.Keeps.{Keeps-bind, Keeps-if, Keeps-pure, keeps_rules}
use signalyard.Normalizer.State.{RegistrySchema, Counters, Worker, Upstream}
use signalyard.Normalizer.Worker.{
  ValidationResult, quarantine, after_validation, after_schema, process, handle_ingest, answer, Ack,
  ack, nak_with_delay, bump_quarantined, bump_routed, bump_failed_valid,
}
use signalyard.Normalizer.Counts.{
  settled, successes, Same, same, Leaves, at_world-Leaves, count-Leaves, get_schema-Leaves,
  process-settled,
}

abbrev processed : Counters → ℕ
processed c = c.processed

module _ ⦃env : Env⦄ ⦃up : Upstream⦄ where
  quarantine-Leaves : (e : Envelope) (reason : String) → Leaves processed (quarantine e reason)
  unfolding quarantine
  quarantine-Leaves e reason = Keeps-bind same _ _ (at_world-Leaves processed _) λ a.
      Keeps-bind same _ _ (at_world-Leaves processed _)
        λ b. count-Leaves processed bump_quarantined (λ c. refl)

  validation-Leaves :
      (e : Envelope) (s : RegistrySchema) (v : Option ValidationResult)
      → Leaves processed (after_validation e s v)
  unfolding after_validation
  validation-Leaves e s none = search (keeps_rules, same)
  validation-Leaves e s (some v) =
      Keeps-if same v.valid _ _
        (Keeps-bind same _ _ (at_world-Leaves processed _) λ a.
          Keeps-bind same _ _ (count-Leaves processed bump_routed (λ c. refl))
            λ b. Keeps-pure same _)
        (Keeps-bind same _ _ (count-Leaves processed bump_failed_valid (λ c. refl))
          λ a. Keeps-bind same _ _ (quarantine-Leaves e _) λ b. Keeps-pure same _)

  schema-Leaves :
      (e : Envelope) (r : Result Error RegistrySchema) → Leaves processed (after_schema e r)
  unfolding after_schema
  schema-Leaves e (err not_found) = search (keeps_rules, same, quarantine-Leaves)
  schema-Leaves e (err conflict) = search (keeps_rules, same)
  schema-Leaves e (err failed) = search (keeps_rules, same)
  schema-Leaves e (ok s) = validation-Leaves e s _

  process-processed :
      (e : Envelope) (s : Worker) → (process e s).1.counts.processed ≡ suc s.counts.processed
  unfolding process ◌>>=◌ Same
  process-processed e s =
      (Keeps-bind same _ _ (get_schema-Leaves processed e.category) (schema-Leaves e)).at
        (record s { counts = record s.counts { processed = suc s.counts.processed } })

  -- The consumer of the stream ingest hands the messages to handleIngest one by one.
  unfoldable pub consume : List (Option Envelope) → Worker → List Ack × Worker
  consume [] s = ([], s)
  consume (m ∷ rest) s =
      let (a, t) = handle_ingest m s in let (acks, u) = consume rest t in (a ∷ acks, u)

abbrev pub acks_in : List Ack → ℕ
acks_in [] = 0
acks_in (ack ∷ rest) = suc (acks_in rest)
acks_in (nak_with_delay t ∷ rest) = acks_in rest

abbrev pub envelopes_in : List (Option Envelope) → ℕ
envelopes_in [] = 0
envelopes_in (none ∷ rest) = envelopes_in rest
envelopes_in (some e ∷ rest) = suc (envelopes_in rest)

module _ ⦃env : Env⦄ ⦃up : Upstream⦄ where
  acks-answer :
      (r : Result Error signalyard.Normalizer.Worker.Outcome) (rest : List Ack)
      → acks_in (answer r ∷ rest) ≡ successes r + acks_in rest
  unfolding answer
  acks-answer (ok o) rest = omega arith
  acks-answer (err e) rest = omega arith

  consume-settled :
      (ms : List (Option Envelope)) (s : Worker)
      → settled (consume ms s).1.counts ≡ settled s.counts + acks_in (consume ms s).0
  unfolding consume handle_ingest
  consume-settled [] s = omega arith
  consume-settled (none ∷ rest) s =
      consume-settled rest (record s { counts = bump_quarantined s.counts }) ∙ omega arith
  consume-settled (some e ∷ rest) s =
      let (r, t) = process e s in
      let h = acks-answer r (consume rest t).0 in
      consume-settled rest t
      ∙ ap (λ n. n + acks_in (consume rest t).0) (process-settled e s)
      ∙ omega arith

  consume-processed :
      (ms : List (Option Envelope)) (s : Worker)
      → (consume ms s).1.counts.processed ≡ s.counts.processed + envelopes_in ms
  unfolding consume handle_ingest
  consume-processed [] s = omega arith
  consume-processed (none ∷ rest) s =
      consume-processed rest (record s { counts = bump_quarantined s.counts })
  consume-processed (some e ∷ rest) s =
      consume-processed rest (process e s).1
      ∙ ap (λ n. n + envelopes_in rest) (process-processed e s)
      ∙ omega arith

  -- Over any sequence of deliveries, whatever fails: the number of acknowledged messages is what was added
  -- to the counts of routed and quarantined events, and the number of messages that are envelopes is what
  -- was added to the count of processed events. A message that is no envelope is acknowledged.
  pub consume-counts :
      (ms : List (Option Envelope)) (s : Worker)
      → (settled (consume ms s).1.counts ≡ settled s.counts + acks_in (consume ms s).0)
        × ((consume ms s).1.counts.processed ≡ s.counts.processed + envelopes_in ms)
  consume-counts ms s = (consume-settled ms s, consume-processed ms s)
