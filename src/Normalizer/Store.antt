-- ===== src/Normalizer/Store.antt =====
-- internal/normalizer/store.go: the structured events and the quarantine table.
use signalyard.Common.{
  ℕ, ◌+◌, String, String_eq, ℕ_eq, Bool, true, false, ◌&&◌, Option, none, some, List, [], ◌∷◌, ◌++◌,
  take, leb, is_some, ◌==◌, if◌then◌else◌, select, find, update, count, order_by,
}
use signalyard.Platform.Exec.{Error, failed, ok, err, Exec, ◌>>=◌, pure}
use signalyard.Platform.Messages.{Envelope}
use signalyard.Platform.Database.{Db, QuarantineRow, EventRow, SchemaRow}
use signalyard.Platform.World.{Env, World, query, query_row, statement, fresh_uuid}
use signalyard.Registry.Schemas.{find_category, versions_of, head_row}
use signalyard.Registry.Agents.{find_agent}

-- A nullable foreign key to agents is NULL or names an agent.
unfoldable pub refers_to_agent : Option ℕ → Db → Bool
unfolding find_agent
refers_to_agent none d = true
refers_to_agent (some a) d = is_some (find_agent a d)

-- The newest active schema of the category.
unfoldable pub active_row : String → Db → Option SchemaRow
unfolding find_category versions_of
active_row category d = head_row (versions_of (λ r. r.is_active) (find_category category d) d)

unfoldable pub find_quarantined : ℕ → Db → Option QuarantineRow
find_quarantined id d = find (λ r. r.id == id) d.quarantine_events

unfoldable pub requarantined : String → QuarantineRow → QuarantineRow
requarantined reason r = record r { attempts = r.attempts + 1; reason = reason }

abbrev pub has_category : String → Option Envelope → Bool
has_category category none = false
has_category category (some e) = e.category == category

abbrev pub pending_in : String → QuarantineRow → Bool
pending_in category r = (r.status == "pending") && has_category category r.raw_payload

abbrev pub older : QuarantineRow → QuarantineRow → Bool
older a b = leb a.created_at b.created_at

abbrev pub newer : QuarantineRow → QuarantineRow → Bool
newer a b = leb b.created_at a.created_at

abbrev pub status_or_pending : String → String
status_or_pending status = if status == "" then "pending" else status

module _ ⦃env : Env⦄ where
  unfoldable pub insert_row : Envelope → SchemaRow → Exec Error World (Unit {0})
  unfolding refers_to_agent
  insert_row e schema = statement λ n d.
      let agent_id = env.uuid_parse e.agent_id in
      let r : EventRow = record {
        id = env.new_uuid n;
        agent_id = agent_id;
        category_id = schema.category_id;
        schema_id = schema.id;
        source = e.source;
        normalized_payload = e.payload;
        occurred_at = e.timestamp;
        created_at = env.now n;
      } in
      if refers_to_agent agent_id d
      then (ok tt, record d { events = d.events ++ r ∷ [] })
      else (err failed, d)

  -- InsertEvent
  unfoldable pub insert_event : Envelope → Exec Error World (Unit {0})
  unfolding active_row insert_row
  insert_event e = do schema ← query_row (active_row e.category); insert_row e schema

  abbrev pub id_or_new : {E : Type 0} → Option ℕ → Exec E World ℕ
  id_or_new none = fresh_uuid
  id_or_new (some id) = pure id

  -- ON CONFLICT (id): only the attempts and the reason change.
  unfoldable pub upsert_quarantine : ℕ → Envelope → String → Exec Error World (Unit {0})
  unfolding find_quarantined requarantined refers_to_agent
  upsert_quarantine id e reason = statement λ n d.
      let agent_id = env.uuid_parse e.agent_id in
      let r : QuarantineRow = record {
        id = id;
        agent_id = agent_id;
        source = e.source;
        raw_payload = some e;
        reason = reason;
        status = "pending";
        attempts = 0;
        created_at = env.now n;
      } in
      elim (find_quarantined id d) [
        | some old ↦ (
          ok tt,
          record d {
            quarantine_events = update (λ x. x.id == id) (requarantined reason) d.quarantine_events;
          },
        )
        | none ↦
            if refers_to_agent agent_id d
            then (ok tt, record d { quarantine_events = d.quarantine_events ++ r ∷ [] })
            else (err failed, d)
      ]

  -- Store.Quarantine
  unfoldable pub quarantine_row : Envelope → String → Exec Error World (Unit {0})
  unfolding upsert_quarantine
  quarantine_row e reason = do
    id ← id_or_new (env.uuid_parse e.event_id)
    upsert_quarantine id e reason

  -- ListQuarantined: at most 500 rows, and the number of all.
  unfoldable pub list_quarantined : String → Exec Error World (List QuarantineRow × ℕ)
  list_quarantined status = do
    let wanted = status_or_pending status
    out ←
        query
          (λ d. take 500 (order_by newer (select (λ r. r.status == wanted) d.quarantine_events)))
    total ← query (λ d. count (λ r. r.status == wanted) d.quarantine_events)
    pure (out, total)

  unfoldable pub get_quarantined : ℕ → Exec Error World QuarantineRow
  unfolding find_quarantined
  get_quarantined id = query_row (find_quarantined id)

  unfoldable pub quarantined_by_category : String → Exec Error World (List QuarantineRow)
  quarantined_by_category category =
      query (λ d. order_by older (select (pending_in category) d.quarantine_events))

  unfoldable pub mark_replayed : ℕ → Exec Error World (Unit {0})
  mark_replayed id = statement λ n d. (
    ok tt,
    record d {
      quarantine_events =
          update (λ r. r.id == id) (λ r. record r { status = "replayed" }) d.quarantine_events;
    },
  )

  unfoldable pub bump_attempts : ℕ → String → Exec Error World (Unit {0})
  unfolding requarantined
  bump_attempts id reason = statement λ n d. (
    ok tt,
    record d {
      quarantine_events = update (λ r. r.id == id) (requarantined reason) d.quarantine_events;
    },
  )
