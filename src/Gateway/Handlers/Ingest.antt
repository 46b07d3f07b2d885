-- ===== src/Gateway/Handlers/Ingest.antt =====
-- Ingestion in internal/coreapi/handlers.go: POST /v1/collect, /v1/tokens and /v1/otlp/*.
use Prim.Native.String.{◌++◌}
use signalyard.Common
use signalyard.Common.{
  ℕ, suc, ◌*◌, String, String_eq, ℕ_eq, Bool, true, false, ◌&&◌, ◌||◌, not, Option, none, some,
  List, [], ◌∷◌, ℤ, pos, negsuc, ltb, is_some, cut_prefix, ◌==◌, if◌then◌else◌,
}
use signalyard.Platform.Exec.{
  Error, not_found, failed, Result, ok, err, Exec, ◌>>=◌, ◌>>◌, pure, raise, fail_if, ◌or_else◌,
  ignore, attempt, Response, write_json, write_error, Handler,
}
use signalyard.Platform.Json.{Object}
use signalyard.Platform.Messages.{Envelope, envelope, bytes}
use signalyard.Platform.Database.{Accepted}
use signalyard.Platform.World.{Env, World, next, publish, fresh_uuid, time_now}
use signalyard.Platform.Auth.{Crypto}
use signalyard.Gateway.Rate.{allow}
use signalyard.Gateway.Keys.{Agent}
use signalyard.Gateway.Store.{get_idempotency_response, save_idempotency_response}
use signalyard.Gateway.Auth.{Config, second, issue_agent_token}
use signalyard.Gateway.Handlers.{
  Gateway, at_world, CollectRequest, Reply, accepted, agent_token, otlp_accepted, decoded,
}

module _ ⦃env : Env⦄ where
  unfoldable pub limited : Bool → Handler Gateway Reply → Handler Gateway Reply
  limited true next = next
  limited false next = raise (write_error 429 "rate limit exceeded")

  -- RateLimit; NewServer always makes a limiter.
  unfoldable pub rate_limit : Agent → Handler Gateway Reply → Handler Gateway Reply
  unfolding limited
  rate_limit agent next s =
      let (granted, l) = allow (env.now s.world.calls) agent.id s.limiter in
      limited granted next
        (record s { limiter = l; world = signalyard.Platform.World.next s.world })

  -- A request that was answered before is answered with the stored response.
  unfoldable pub replayed : Result Error Accepted → Exec (Response Reply) Gateway (Unit {0})
  replayed (ok stored) = raise (write_json 200 (accepted stored))
  replayed (err not_found) = pure tt
  replayed (err e) = raise (write_error 500 "idempotency lookup failed")

  unfoldable pub check_replay : Agent → (key : String) → Exec (Response Reply) Gateway (Unit {0})
  unfolding replayed
  check_replay agent key =
      if not (key == "")
      then (do found ← attempt (at_world (get_idempotency_response key agent.id)); replayed found)
      else pure tt

  abbrev pub required : Option Object → Bool → Exec (Response Reply) Gateway Object
  required none missing = raise (write_error 400 "category, timestamp and payload are required")
  required (some p) true = raise (write_error 400 "category, timestamp and payload are required")
  required (some p) false = pure p

  unfoldable pub save_response :
      Agent → (key : String) → Accepted → Exec (Response Reply) Gateway (Unit {0})
  save_response agent key response =
      if not (key == "")
      then elim (env.uuid_parse response.event_id) [
        | none ↦ pure tt
        | some event_id ↦
            ignore {E = Error} (at_world (save_idempotency_response key agent.id event_id response))
      ]
      else pure tt

  unfoldable pub count_ingested : String → String → Exec (Response Reply) Gateway (Unit {0})
  count_ingested category kind s =
      (ok tt, record s { ingested = Common.◌++◌ s.ingested ((category, kind) ∷ []) })

  unfoldable pub envelope_of :
      Agent → CollectRequest → Object → Exec (Response Reply) Gateway Envelope
  envelope_of agent req payload = do
    id ← at_world fresh_uuid
    now ← at_world time_now
    pure (record {
      event_id = env.uuid_string id;
      agent_id = env.uuid_string agent.id;
      agent_slug = agent.slug;
      category = req.category;
      source = req.source;
      timestamp = req.timestamp;
      payload = payload;
      received_at = now;
    })

  -- handleCollect. `encodable` is whether json.Marshal accepts the envelope.
  unfoldable pub handle_collect :
      (encodable : Envelope → Bool)
      → Agent
      → (idempotency_key : String) → Option CollectRequest
      → Handler Gateway Reply
  unfolding check_replay save_response count_ingested envelope_of
  handle_collect encodable agent key body = do
    check_replay agent key
    req ← decoded body "malformed event payload"
    payload ← required req.payload (req.category == "" || req.timestamp == 0)
    e ← envelope_of agent req payload
    fail_if (not (encodable e)) (write_error 400 "malformed event payload")
    at_world (publish ("events.ingest." ++ req.category) (envelope e))
        or_else (λ _. write_error 503 "ingestion backend unavailable")
    count_ingested req.category "event"
    let response : Accepted = record { event_id = e.event_id; status = "accepted" }
    save_response agent key response
    pure (write_json 201 (accepted response))

-- `ttl < 1 || ttl > 86400` after the default of 3600 for 0
unfoldable pub ttl_of : ℤ → Option ℕ
ttl_of (negsuc n) = none
ttl_of (pos n) = if n == 0 then some 3600 else if ltb 86400 n then none else some n

-- The body of /v1/tokens: absent (EOF), decoded, or malformed.
pub data TokenBody : Type 0 where
  absent malformed : TokenBody
  ttl_seconds : ℤ → TokenBody

abbrev pub requested : TokenBody → Exec (Response Reply) World ℤ
requested absent = pure (pos 0)
requested malformed = raise (write_error 400 "invalid JSON body")
requested (ttl_seconds t) = pure t

abbrev pub ttl_or_refuse : Option ℕ → Exec (Response Reply) World ℕ
ttl_or_refuse none = raise (write_error 400 "ttl_seconds must be between 1 and 86400")
ttl_or_refuse (some t) = pure t

module _ ⦃env : Env⦄ ⦃crypto : Crypto⦄ where
  unfoldable pub handle_create_agent_token : Config → Agent → TokenBody → Handler World Reply
  unfolding ttl_of
  handle_create_agent_token cfg agent body = do
    requested_ttl ← requested body
    ttl ← ttl_or_refuse (ttl_of requested_ttl)
    token ←
        issue_agent_token cfg.jwt_signing_secret agent.id (ttl * second)
        or_else (λ _. write_error 500 "failed to issue token")
    pure (write_json 201 (agent_token token.0 token.1))

abbrev pub content_type_allowed : String → Bool
content_type_allowed ct =
    (ct == "") || (ct == "application/json") || (ct == "application/x-protobuf")

abbrev pub http_ok : Option ℕ → Bool
http_ok none = false
http_ok (some status) = ltb status 300

module _ ⦃env : Env⦄ where
  -- forwardOTLP
  unfoldable pub forward_otlp :
      Config → (kind content_type body : String) → Exec Error World (Unit {0})
  forward_otlp cfg kind content_type body w =
      let base =
        if is_some (cut_prefix "http" cfg.otel_collector_endpoint)
        then cfg.otel_collector_endpoint
        else "http://" ++ cfg.otel_collector_endpoint in
      let ct = if content_type == "" then "application/json" else content_type in
      if http_ok (env.http_status w.calls)
      then (
        ok tt,
        record w {
          calls = suc w.calls;
          collector = Common.◌++◌ w.collector ((base ++ "/v1/" ++ kind, ct, body) ∷ []);
        },
      )
      else (err failed, next w)

  unfoldable pub forward_if_configured :
      Config → (kind content_type body : String) → Exec Error World (Unit {0})
  unfolding forward_otlp
  forward_if_configured cfg kind content_type body =
      if not (cfg.otel_collector_endpoint == "")
      then forward_otlp cfg kind content_type body
      else pure tt

  -- handleOTLP: the body as it is read, at most 10 MiB; `none` is a read error.
  unfoldable pub handle_otlp :
      Config → (kind content_type : String) → Option String → Handler Gateway Reply
  unfolding forward_if_configured count_ingested
  handle_otlp cfg kind content_type read = do
    body ← decoded read "invalid OTLP payload"
    fail_if (body == "") (write_error 400 "invalid OTLP payload")
    fail_if (not (content_type_allowed content_type))
        (write_error 400 "unsupported OTLP content type")
    at_world (publish ("events.otlp." ++ kind) (bytes body))
        or_else (λ _. write_error 503 "ingestion backend unavailable")
    at_world (forward_if_configured cfg kind content_type body)
        or_else (λ _. write_error 502 "otel collector forward failed")
    count_ingested ("otlp_" ++ kind) "otlp"
    pure (write_json 201 otlp_accepted)
