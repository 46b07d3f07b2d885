-- ===== src/Normalizer/Router.antt =====
-- internal/normalizer/server.go: the routes behind the token middleware; worker.go: the statistics.
use signalyard.Common.{ℕ, zero, suc, ◌-◌, String, String_eq, Option, none, some, ◌==◌}
use signalyard.Platform.Exec.{
  ok, ◌>>=◌, ◌>>◌, pure, fail_if, ◌or_else◌, write_json, write_error, Handler,
}
use signalyard.Platform.Auth.{Crypto, TokenAuth, Request, extract_token, resolve}
use signalyard.Platform.World.{Env, time_now}
use signalyard.Normalizer.State.{Counters, Worker, Upstream, at_world}
use signalyard.Normalizer.Server.{
  Reply, healthy, routing_stats, handle_list_quarantine, handle_get_quarantine, handle_replay_one,
  handle_replay_category,
}

pub data Route : Type 0 where
  health : Route
  list_quarantine get_quarantine replay_one replay_category : String → Route
  get_routing_stats : Route

-- A quotient, as its two parts; `none` is the 0 of an empty denominator.
abbrev pub ratio : ℕ → ℕ → Option (ℕ × ℕ)
ratio n zero = none
ratio n (suc m) = some (n, suc m)

-- Stats: the throughput (events by nanoseconds), the rate of failed validation and that of quarantine.
unfoldable pub stats :
    (started_at now : ℕ) → Counters → Option (ℕ × ℕ) × Option (ℕ × ℕ) × Option (ℕ × ℕ)
stats started_at now c = (
  ratio c.processed (now - started_at),
  ratio c.failed_valid c.processed,
  ratio c.quarantined c.processed,
)

module _ ⦃env : Env⦄ ⦃up : Upstream⦄ (started_at : ℕ) where
  unfoldable pub handle_routing_stats : Handler Worker Reply
  unfolding stats
  handle_routing_stats = do now ← at_world time_now; answer_stats now
    where
      answer_stats : ℕ → Handler Worker Reply
      answer_stats now s = (ok (write_json 200 (routing_stats (stats started_at now s.counts))), s)

  unfoldable pub protected : Route → Handler Worker Reply
  protected health = pure (write_json 200 healthy)
  protected (list_quarantine status) = handle_list_quarantine status
  protected (get_quarantine id) = handle_get_quarantine id
  protected (replay_one id) = handle_replay_one id
  protected (replay_category category) = handle_replay_category category
  protected get_routing_stats = handle_routing_stats

  -- TokenAuth.Middleware, over the worker's state.
  unfoldable pub authenticated :
      ⦃crypto : Crypto⦄ → TokenAuth → Request → Handler Worker Reply → Handler Worker Reply
  authenticated a r next = do
    let token = extract_token r
    fail_if (token == "") (write_error 401 "missing token")
    at_world (resolve a token) or_else (λ _. write_error 401 "invalid token")
    next

  unfoldable pub dispatch : ⦃crypto : Crypto⦄ → TokenAuth → Request → Route → Handler Worker Reply
  dispatch a r health = pure (write_json 200 healthy)
  dispatch a r route = authenticated a r (protected route)
