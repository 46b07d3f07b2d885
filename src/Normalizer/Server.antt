-- ===== src/Normalizer/Server.antt =====
-- internal/normalizer/server.go: the HTTP API behind the token middleware.
use signalyard.Common.{ℕ, String, String_eq, Bool, true, false, not, List, Option, ◌==◌}
use signalyard.Platform.Exec.{
  or_fail, Error, not_found, Exec, ◌>>=◌, ◌>>◌, pure, fail_if, ◌or_else◌, Response, write_json,
  write_error, Handler,
}
use signalyard.Platform.Database.{QuarantineRow}
use signalyard.Platform.World.{Env}
use signalyard.Normalizer.State.{Worker, Upstream, at_world}
use signalyard.Normalizer.Store.{list_quarantined, get_quarantined}
use signalyard.Normalizer.RegistryClient.{get_schema}
use signalyard.Normalizer.Replay.{replay_one, replay_category}

pub data Reply : Type 0 where
  events : List QuarantineRow → ℕ → Reply
  event : QuarantineRow → Reply
  replayed still_failing : String → Reply
  queued : String → ℕ → Reply
  healthy : Reply
  routing_stats : Option (ℕ × ℕ) × Option (ℕ × ℕ) × Option (ℕ × ℕ) → Reply

abbrev pub lookup_error : Error → Response Reply
lookup_error not_found = write_error 404 "event not found"
lookup_error e = write_error 500 "lookup failed"

abbrev pub schema_error : Error → Response Reply
schema_error not_found = write_error 404 "no schema for category"
schema_error e = write_error 502 "schema registry unreachable"

unfoldable pub replay_reply : String → Bool → Reply
replay_reply id true = replayed id
replay_reply id false = still_failing id

module _ ⦃env : Env⦄ ⦃up : Upstream⦄ where
  unfoldable pub parse_id : String → Exec (Response Reply) Worker ℕ
  parse_id text = or_fail (env.uuid_parse text) (write_error 400 "invalid event_id")

  unfoldable pub handle_list_quarantine : String → Handler Worker Reply
  handle_list_quarantine status = do
    out ← at_world (list_quarantined status) or_else (λ _. write_error 500 "list failed")
    pure (write_json 200 (events out.0 out.1))

  unfoldable pub handle_get_quarantine : String → Handler Worker Reply
  unfolding parse_id
  handle_get_quarantine text = do
    id ← parse_id text
    q ← at_world (get_quarantined id) or_else lookup_error
    pure (write_json 200 (event q))

  unfoldable pub handle_replay_one : String → Handler Worker Reply
  unfolding parse_id replay_reply
  handle_replay_one text = do
    id ← parse_id text
    q ← at_world (get_quarantined id) or_else lookup_error
    fail_if (not (q.status == "pending")) (write_error 400 "event is not pending replay")
    done ← replay_one q or_else (λ _. write_error 500 "replay failed")
    pure (write_json 200 (replay_reply (env.uuid_string id) done))

  unfoldable pub handle_replay_category : String → Handler Worker Reply
  handle_replay_category category = do
    get_schema category or_else schema_error
    n ← replay_category category or_else (λ _. write_error 500 "replay failed")
    pure (write_json 200 (queued category n))
