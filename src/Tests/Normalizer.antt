-- ===== src/Tests/Normalizer.antt =====
-- Sequences of deliveries at concrete inputs.
use signalyard.Common.{
  ℕ, ◌+◌, ◌≡◌, refl, true, none, some, List, [], ◌∷◌, Option, find, select, order_by,
}
use signalyard.Platform.Exec.{ok}
use signalyard.Platform.Json.{end}
use signalyard.Platform.Messages.{Envelope}
use signalyard.Platform.Database.{empty, QuarantineRow, SchemaRow}
use signalyard.Platform.World.{start}
use signalyard.Registry.Agents.{find_agent}
use signalyard.Normalizer.State.{Worker, Upstream, RegistrySchema, new_worker, replied}
use signalyard.Normalizer.Store.{find_quarantined, refers_to_agent, active_row}
use signalyard.Normalizer.Worker.{
  ack, handle_ingest, destinations, routing_of, bump_routed, bump_processed,
}
use signalyard.Normalizer.Counts.{settled}
use signalyard.Normalizer.Counts.Consumed.{consume, acks_in, envelopes_in, consume-counts}
use signalyard.Normalizer.Redelivered.{times, naks, consume-refused}
use signalyard.Normalizer.Quarantined.{IsQuarantined, handle_ingest-IsQuarantined}
use signalyard.Normalizer.Replay.{replay_one}
use signalyard.Normalizer.Stored.{handle_ingest-stored}
use signalyard.Normalizer.Replayed.{event_row, replay_one-stored}
use signalyard.Tests.Setup.{test_env, test_crypto}
use signalyard.Tests.Worker.{upstream, login, auth_schema}
use signalyard.Tests.Gateway.{agent_row}

instance abbrev no_schema : Upstream
no_schema = upstream (replied 404 none)

abbrev idle : Worker
idle = new_worker (start empty)

-- An event and a message that is none.
abbrev deliveries : List (Option Envelope)
deliveries = some login ∷ none ∷ []

consume-counts_example :
    (settled (consume deliveries idle).1.counts
      ≡ settled idle.counts + acks_in (consume deliveries idle).0)
    × ((consume deliveries idle).1.counts.processed
        ≡ idle.counts.processed + envelopes_in deliveries)
consume-counts_example = consume-counts deliveries idle

nobody : find_agent 7 idle.world.db ≡ none
unfolding find_agent find
nobody = refl

nothing_quarantined : find_quarantined 7 idle.world.db ≡ none
unfolding find_quarantined find
nothing_quarantined = refl

consume-refused_example :
    ((consume (times 3 login) idle).0 ≡ naks 3)
    × ((consume (times 3 login) idle).1.world.db ≡ idle.world.db)
consume-refused_example =
    consume-refused 3 7 7 login idle refl refl nobody nothing_quarantined refl (λ w. refl)

abbrev attended : Worker
attended = new_worker (start (record empty { agents = agent_row ∷ [] }))

known : refers_to_agent (some 7) attended.world.db ≡ true
unfolding refers_to_agent find_agent find
known = refl

handle_ingest-IsQuarantined_example :
    ((handle_ingest (some login) attended).0 ≡ ack)
    × IsQuarantined 7 login "unknown_category" none (handle_ingest (some login) attended).1.world.db
unfolding find_quarantined find
handle_ingest-IsQuarantined_example =
    handle_ingest-IsQuarantined 7 login attended (λ n. refl) (λ n. refl) refl known refl (λ w. refl)

abbrev waiting : QuarantineRow
waiting = record {
  id = 7;
  agent_id = none;
  source = "app";
  raw_payload = some login;
  reason = "unknown_category";
  status = "pending";
  attempts = 0;
  created_at = 1;
}

abbrev pub auth_row : SchemaRow
auth_row = record {
  id = 2;
  category_id = 1;
  version = 1;
  json_schema = end;
  routing_yaml = "postgres";
  git_commit_sha = none;
  is_active = true;
  created_by = "ann";
  created_at = 1;
}

-- The category has a schema by now.
abbrev pub approved : Worker
approved = new_worker (
    start (record empty {
      agents = agent_row ∷ [];
      categories = record { id = 1; name = "auth"; description = none; created_at = 1 } ∷ [];
      schemas = auth_row ∷ [];
      quarantine_events = waiting ∷ [];
    }))

abbrev pub postgres_schema : RegistrySchema
postgres_schema = record auth_schema { routing_yaml = "postgres" }

abbrev pub with_schema : Upstream
with_schema = upstream (replied 200 (some postgres_schema))

waiting_found : find_quarantined 7 approved.world.db ≡ some waiting
unfolding find_quarantined find
waiting_found = refl

to_postgres : destinations (routing_of ⦃up = with_schema⦄ "postgres") ≡ "postgres" ∷ []
unfolding destinations routing_of
to_postgres = refl

active_found : active_row "auth" approved.world.db ≡ some auth_row
unfolding active_row find select order_by
active_found = refl

agent_found : refers_to_agent (some 7) approved.world.db ≡ true
unfolding refers_to_agent find_agent find
agent_found = refl

replay_one-stored_example :
    let (result, t) = replay_one ⦃up = with_schema⦄ waiting approved in
    (result ≡ ok true)
    × (find_quarantined 7 t.world.db ≡ some (record waiting { status = "replayed" }))
    × ((n : ℕ) × (t.world.db.events ≡ event_row n login auth_row ∷ []))
replay_one-stored_example =
    replay_one-stored ⦃up = with_schema⦄ waiting login postgres_schema auth_row [] approved refl
      waiting_found (λ n. refl) refl (λ w. refl) refl to_postgres active_found agent_found

handle_ingest-stored_example :
    let (result, t) = handle_ingest ⦃up = with_schema⦄ (some login) approved in
    (result ≡ ack)
    × ((n : ℕ) × (t.world.db.events ≡ event_row n login auth_row ∷ []))
    × (t.counts ≡ bump_routed (bump_processed approved.counts))
handle_ingest-stored_example =
    handle_ingest-stored ⦃up = with_schema⦄ login postgres_schema auth_row [] approved (λ n. refl)
      refl (λ w. refl) refl to_postgres active_found agent_found
