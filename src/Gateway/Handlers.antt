-- ===== src/Gateway/Handlers.antt =====
-- internal/coreapi/handlers.go, rate.go (RateLimit) and server.go: the gateway's state, the requests as
-- they decode, and the replies. A request body is an `Option`: `none` where json.Decode fails.
pub mod Sessions
pub mod Ingest
pub mod Tools
use signalyard.Common.{ℕ, String, Bool, Option, none, some, List, ℤ}
use signalyard.Platform.Exec.{
  or_fail, Exec, Result, ok, err, Response, Handler, raise, pure, write_error,
}
use signalyard.Platform.Json.{Object}
use signalyard.Platform.Messages.{Envelope}
use signalyard.Platform.Database.{KeyRow, Accepted}
use signalyard.Platform.World.{Env, World}
use signalyard.Gateway.Rate.{RateLimiter}
use signalyard.Gateway.Store.{Event}

-- The memory of the process beside the world. `ingested` is the counter of ingested events, as the
-- list of its labels.
pub record Gateway : Type 0 where
  pub world : World
  pub limiter : RateLimiter
  pub ingested : List (String × String)

abbrev pub at_world : {E A : Type 0} → Exec E World A → Exec E Gateway A
at_world m s = let (r, w) = m s.world in (r, record s { world = w })

pub record RegisterRequest : Type 0 where
  pub agent_name : String
  pub contact_email : String
  pub category_hint : String
  pub description : String

pub record CreateApiKeyRequest : Type 0 where
  pub agent_id : String
  pub label : String
  pub scopes : List String

pub record CollectRequest : Type 0 where
  pub category : String
  pub timestamp : ℕ
  pub payload : Option Object
  pub source : String

pub record QueryEventsRequest : Type 0 where
  pub category : String
  pub start_time : ℕ
  pub end_time : ℕ
  pub limit : ℤ

pub record ProposeSchemaRequest : Type 0 where
  pub category : String
  pub json_schema : Option Object
  pub routing_yaml_diff : String

-- The static documents of manifest.go and openapi.go.
pub data Document : Type 0 where
  start_here openapi mcp_manifest manifests : Document

pub data Reply : Type 0 where
  healthy : Reply
  document : Document → Reply
  registered : String → String → Reply  -- agent_id and status
  session : String → ℕ → Reply  -- session_token and expires_at
  issued_key : (api_key key_id agent_id : String) → ℕ → Reply
  key_meta : KeyRow → Reply
  revoked : String → Reply
  accepted : Accepted → Reply
  agent_token : String → ℕ → Reply
  otlp_accepted : Reply
  events : List Event → Reply
  proxied : String → Reply
  no_categories : Reply

unfoldable pub decoded : {S A : Type 0} → Option A → String → Exec (Response Reply) S A
decoded none msg = raise (write_error 400 msg)
decoded (some a) msg = pure a

module _ ⦃env : Env⦄ where
  unfoldable pub parse_id : String → String → Exec (Response Reply) World ℕ
  parse_id text msg = or_fail (env.uuid_parse text) (write_error 400 msg)
