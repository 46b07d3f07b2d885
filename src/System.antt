-- ===== src/System.antt =====
-- The four services at work on one world, as cmd/*/main.go start them: a run is a sequence of requests,
-- deliveries of messages and restarts, in any order. A request is served as a whole.
pub mod Kept
pub mod Registry
pub mod AuditLog
pub mod Quarantine
use signalyard.Common.{ℕ, String, Option, List}
use signalyard.Platform.Exec.{serve}
use signalyard.Platform.Messages.{Envelope}
use signalyard.Platform.Auth.{Crypto, TokenAuth, Request}
use signalyard.Platform.World.{Env, World}
use signalyard.Registry.Handlers
use signalyard.Registry.Router as RegistryRouter
use signalyard.Gateway.Rate.{RateLimiter}
use signalyard.Gateway.Auth as GatewayAuth
use signalyard.Gateway.Auth.{Identities}
use signalyard.Gateway.Handlers.{Gateway}
use signalyard.Gateway.Handlers.Tools.{RegistryProxy}
use signalyard.Gateway.Router as GatewayRouter
use signalyard.Normalizer.State.{CachedSchema, Counters, Worker, Upstream, new_worker}
use signalyard.Normalizer.Worker.{handle_ingest}
use signalyard.Normalizer.Replay.{handle_approval}
use signalyard.Normalizer.Router as NormalizerRouter
use signalyard.Webhook.Verify
use signalyard.Webhook.Router as WebhookRouter

-- The world, and what the gateway and the worker keep in memory. The other two keep nothing.
pub record System : Type 0 where
  pub world : World
  pub limiter : RateLimiter
  pub ingested : List (String × String)
  pub cache : String → Option CachedSchema
  pub counts : Counters

abbrev pub gateway_of : System → Gateway
gateway_of s = record { world = s.world; limiter = s.limiter; ingested = s.ingested }

abbrev pub worker_of : System → Worker
worker_of s = record { world = s.world; cache = s.cache; counts = s.counts }

abbrev pub with_world : System → World → System
with_world s w = record s { world = w }

abbrev pub with_gateway : System → Gateway → System
with_gateway s g = record s { world = g.world; limiter = g.limiter; ingested = g.ingested }

abbrev pub with_worker : System → Worker → System
with_worker s k = record s { world = k.world; cache = k.cache; counts = k.counts }

-- How the services are set up.
pub record Deployment : Type 0 where
  pub registry : Handlers.Server
  pub gateway : GatewayAuth.Config
  pub gateway_codec : GatewayRouter.Codec
  pub rate : ℕ
  pub burst : ℕ
  pub normalizer : TokenAuth
  pub started_at : ℕ
  pub webhook : Verify.Config
  pub webhook_codec : WebhookRouter.Codec
  pub webhook_auth : TokenAuth

module _ ⦃env : Env⦄ ⦃crypto : Crypto⦄ ⦃ids : Identities⦄ ⦃proxy : RegistryProxy⦄ ⦃up : Upstream⦄
    (c : Deployment) where
  -- A message that is no envelope or no approval is `none`. A message may come again, or late.
  pub data Step : System → System → Type 0 where
    registry :
        {s : System} (r : Request) (route : RegistryRouter.Route)
        → Step s (with_world s (serve (RegistryRouter.dispatch c.registry r route) s.world).1)
    gateway :
        {s : System} (r : Request) (route : GatewayRouter.Route)
        → Step s (
            with_gateway s
              (serve (GatewayRouter.dispatch c.gateway_codec c.gateway r route) (gateway_of s)).1)
    normalizer :
        {s : System} (r : Request) (route : NormalizerRouter.Route)
        → Step s (
            with_worker s
              (serve (NormalizerRouter.dispatch c.started_at c.normalizer r route) (worker_of s)).1)
    webhook :
        {s : System} (r : Request) (route : WebhookRouter.Route)
        → Step s (
            with_world s
              (serve
                (WebhookRouter.dispatch c.webhook_codec c.webhook c.webhook_auth r route)
                s.world).1)
    ingest :
        {s : System} (m : Option Envelope)
        → Step s (with_worker s (handle_ingest m (worker_of s)).1)
    approval :
        {s : System} (m : Option String)
        → Step s (with_worker s (handle_approval m (worker_of s)).1)
    restart_gateway :
        {s : System} → Step s (with_gateway s (GatewayRouter.new_server c.rate c.burst s.world))
    restart_normalizer : {s : System} → Step s (with_worker s (new_worker s.world))

  pub data Run : System → System → Type 0 where
    stop : {s : System} → Run s s
    step : {s t u : System} → Step s t → Run t u → Run s u
