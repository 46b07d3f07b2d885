-- ===== src/Normalizer/Replay.antt =====
-- internal/normalizer/worker.go: the replay of quarantined events and the approval listener.
use signalyard.Common.{
  ℕ, suc, String, String_eq, Bool, true, false, Option, none, some, List, [], ◌∷◌, ◌==◌,
  if◌then◌else◌,
}
use signalyard.Platform.Exec.{Error, Result, ok, err, Exec, ◌>>=◌, ◌>>◌, pure}
use signalyard.Platform.Messages.{Envelope}
use signalyard.Platform.Database.{QuarantineRow}
use signalyard.Platform.World.{Env}
use signalyard.Normalizer.State.{Counters, Worker, Upstream, at_world, count_with}
use signalyard.Normalizer.Store.{quarantined_by_category, mark_replayed, bump_attempts}
use signalyard.Normalizer.RegistryClient.{invalidate}
use signalyard.Normalizer.Worker.{Outcome, routed, quarantined, process, Ack, ack, nak_with_delay}

abbrev pub bump_replayed : Counters → Counters
bump_replayed c = record c { replayed = suc c.replayed }

module _ ⦃env : Env⦄ ⦃up : Upstream⦄ where
  unfoldable pub after_process : ℕ → Outcome → Exec Error Worker Bool
  after_process id routed = do count_with bump_replayed; at_world (mark_replayed id); pure true
  after_process id quarantined = pure false

  unfoldable pub replay_payload : ℕ → Option Envelope → Exec Error Worker Bool
  unfolding after_process
  replay_payload id none = do at_world (bump_attempts id "unparseable stored payload"); pure false
  replay_payload id (some e) = do result ← process e; after_process id result

  -- ReplayOne: true if the event now routes.
  unfoldable pub replay_one : QuarantineRow → Exec Error Worker Bool
  unfolding replay_payload
  replay_one q = replay_payload q.id q.raw_payload

  abbrev pub add_if : Bool → ℕ → ℕ
  add_if true n = suc n
  add_if false n = n

  -- The loop of ReplayCategory stops at the first error.
  unfoldable pub replay_rows : List QuarantineRow → ℕ → Exec Error Worker ℕ
  replay_rows [] replayed = pure replayed
  replay_rows (q ∷ rest) replayed = do done ← replay_one q; replay_rows rest (add_if done replayed)

  unfoldable pub replay_category : String → Exec Error Worker ℕ
  replay_category category = do
    events ← at_world (quarantined_by_category category)
    replay_rows events 0

  unfoldable pub approval_answer : Result Error ℕ → Ack
  approval_answer (ok n) = ack
  approval_answer (err e) = nak_with_delay 10

  -- handleApproval: the category of the message, `none` if it does not decode.
  unfoldable pub handle_approval : Option String → Worker → Ack × Worker
  unfolding approval_answer
  handle_approval none s = (ack, s)
  handle_approval (some category) s =
      if category == ""
      then (ack, s)
      else (let (r, s') = replay_category category (invalidate category s) in
          (approval_answer r, s'))
