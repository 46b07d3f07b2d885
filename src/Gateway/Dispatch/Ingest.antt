-- ===== src/Gateway/Dispatch/Ingest.antt =====
-- Ingestion at the gateway keeps what its writes keep.
use signalyard.Common.{
  ℕ, ◌≡◌, refl, String, Bool, true, false, Option, none, some, inl, inr, Bool-cases,
}
use signalyard.Platform.Exec.{Error, not_found, conflict, failed, Result, ok, err, Handler}
use signalyard.Platform.Json.{Object}
use signalyard.Platform.Database.{Db, Accepted}
use signalyard.Platform.Messages.{Envelope}
use signalyard.Platform.Auth.{Crypto}
use signalyard.Platform.World.{Env}
use signalyard.Platform.Keeps.{Preorder, Keeps}
use signalyard.Platform.KeepsDb.{tables}
use signalyard.Gateway.Keys.{Agent}
use signalyard.Gateway.Store.{get_idempotency_response}
use signalyard.Gateway.Auth.{Config}
use signalyard.Gateway.Handlers.{Gateway, Reply}
use signalyard.Gateway.Handlers
use signalyard.Gateway.Handlers.Ingest
use signalyard.Gateway.Handlers.Ingest.{
  TokenBody, limited, replayed, check_replay, required, save_response, count_ingested, envelope_of,
  handle_create_agent_token, rate_limit, handle_collect, handle_otlp, requested, ttl_or_refuse,
  forward_otlp, forward_if_configured,
}
use signalyard.Gateway.Dispatch.{WritesKeep, tables_of, gateway_rules}

module _ ⦃env : Env⦄ ⦃crypto : Crypto⦄ {R : Db → Db → Type 0} (o : Preorder R)
    (k : WritesKeep R) where
  required-Keeps : (v : Option Object) (b : Bool) → Keeps tables_of R (Ingest.required v b)
  required-Keeps none b = search (gateway_rules, o)
  required-Keeps (some p) true = search (gateway_rules, o)
  required-Keeps (some p) false = search (gateway_rules, o)

  replayed-Keeps : (r : Result Error Accepted) → Keeps tables_of R (replayed r)
  unfolding replayed
  replayed-Keeps (ok a) = search (gateway_rules, o)
  replayed-Keeps (err not_found) = search (gateway_rules, o)
  replayed-Keeps (err conflict) = search (gateway_rules, o)
  replayed-Keeps (err failed) = search (gateway_rules, o)

  check-Keeps : (a : Agent) (key : String) → Keeps tables_of R (check_replay a key)
  unfolding check_replay get_idempotency_response
  check-Keeps a key = search (gateway_rules, o, replayed-Keeps)

  save_as-Keeps :
      (a : Agent) (key : String) (r : Accepted) (id : Option ℕ)
      → env.uuid_parse r.event_id ≡ id
      → Keeps tables_of R (save_response a key r)
  unfolding save_response
  save_as-Keeps a key r none e = rw e (search (gateway_rules, o))
  save_as-Keeps a key r (some id) e = rw e (search (gateway_rules, o, k.save) depth 9)

  save-Keeps : (a : Agent) (key : String) (r : Accepted) → Keeps tables_of R (save_response a key r)
  save-Keeps a key r = save_as-Keeps a key r _ refl

  count-Keeps : (category kind : String) → Keeps tables_of R (count_ingested category kind)
  unfolding count_ingested
  count-Keeps category kind = record { at = λ s. o.reflexive s.world.db }

  envelope-Keeps :
      (a : Agent) (req : Handlers.CollectRequest) (p : Object)
      → Keeps tables_of R (envelope_of a req p)
  unfolding envelope_of
  envelope-Keeps a req p = search (gateway_rules, o)

  pub collect-Keeps :
      (encodable : Envelope → Bool) (a : Agent) (key : String)
      (body : Option Handlers.CollectRequest)
      → Keeps tables_of R (handle_collect encodable a key body)
  unfolding handle_collect
  collect-Keeps encodable a key body =
      search
        (gateway_rules, o, check-Keeps, required-Keeps, envelope-Keeps, count-Keeps, save-Keeps)
        depth 15

  limited-Keeps :
      (b : Bool) (h : Handler Gateway Reply) → Keeps tables_of R h → Keeps tables_of R (limited b h)
  unfolding limited
  limited-Keeps true h kh = kh
  limited-Keeps false h kh = search (gateway_rules, o)

  pub rate_limit-Keeps :
      (a : Agent) (h : Handler Gateway Reply)
      → Keeps tables_of R h
      → Keeps tables_of R (rate_limit a h)
  unfolding rate_limit
  rate_limit-Keeps a h kh = record { at = λ s. (limited-Keeps _ h kh).at _ }

  otlp_sent-Keeps :
      (cfg : Config) (kind ct body : String) → Keeps tables R (forward_otlp cfg kind ct body)
  unfolding forward_otlp
  otlp_sent-Keeps cfg kind ct body = record {
    at = λ w. elim (Bool-cases (Ingest.http_ok (env.http_status w.calls))) [
      | inl e ↦ rw e (o.reflexive w.db)
      | inr e ↦ rw e (o.reflexive w.db)
    ];
  }

  pub otlp-Keeps :
      (cfg : Config) (kind ct : String) (read : Option String)
      → Keeps tables_of R (handle_otlp cfg kind ct read)
  unfolding handle_otlp forward_if_configured
  otlp-Keeps cfg kind ct read = search (gateway_rules, o, otlp_sent-Keeps, count-Keeps) depth 15
