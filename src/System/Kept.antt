-- ===== src/System/Kept.antt =====
-- A relation of the tables that every write of every service keeps holds between the ends of a run.
use signalyard.Platform.Database.{Db}
use signalyard.Platform.Auth.{Crypto}
use signalyard.Platform.World.{Env}
use signalyard.Platform.Keeps.{Preorder}
use signalyard.Gateway.Auth.{Identities}
use signalyard.Gateway.Handlers.Tools.{RegistryProxy}
use signalyard.Gateway.Dispatch as GatewayDispatch
use signalyard.Gateway.Dispatch.Routes as GatewayRoutes
use signalyard.Normalizer.State.{Upstream}
use signalyard.Normalizer.Dispatch as NormalizerDispatch
use signalyard.Normalizer.Dispatch.Routes.{ingest-Keeps, approval-Keeps}
use signalyard.Normalizer.Dispatch.Routes as NormalizerRoutes
use signalyard.Registry.Dispatch as RegistryDispatch
use signalyard.Webhook.Dispatch as WebhookDispatch
use signalyard.System.{
  System, Deployment, Step, registry, gateway, normalizer, webhook, ingest, approval,
  restart_gateway, restart_normalizer, Run, stop, step, gateway_of, worker_of,
}

pub record WritesKeep ⦃env : Env⦄ (R : Db → Db → Type 0) : Type 0 where
  pub of_registry : RegistryDispatch.WritesKeep R
  pub of_gateway : GatewayDispatch.WritesKeep R
  pub of_normalizer : NormalizerDispatch.WritesKeep R
  pub of_webhook : WebhookDispatch.WritesKeep R

module _ ⦃env : Env⦄ ⦃crypto : Crypto⦄ ⦃ids : Identities⦄ ⦃proxy : RegistryProxy⦄ ⦃up : Upstream⦄
    {R : Db → Db → Type 0} (o : Preorder R) (k : WritesKeep R) where
  pub step-Keeps : (c : Deployment) (s t : System) → Step c s t → R s.world.db t.world.db
  step-Keeps c s t (registry r route) =
      (RegistryDispatch.dispatch-Keeps o k.of_registry c.registry r route).at s.world
  step-Keeps c s t (gateway r route) =
      (GatewayRoutes.dispatch-Keeps o k.of_gateway c.gateway_codec c.gateway r route).at
        (gateway_of s)
  step-Keeps c s t (normalizer r route) =
      (NormalizerRoutes.dispatch-Keeps o k.of_normalizer c.started_at c.normalizer r route).at
        (worker_of s)
  step-Keeps c s t (webhook r route) =
      (WebhookDispatch.dispatch-Keeps o k.of_webhook c.webhook_codec c.webhook c.webhook_auth r
          route).at
        s.world
  step-Keeps c s t (ingest m) = ingest-Keeps o k.of_normalizer m (worker_of s)
  step-Keeps c s t (approval m) = approval-Keeps o k.of_normalizer m (worker_of s)
  step-Keeps c s t restart_gateway = o.reflexive s.world.db
  step-Keeps c s t restart_normalizer = o.reflexive s.world.db

  pub run-Keeps : (c : Deployment) (s t : System) → Run c s t → R s.world.db t.world.db
  run-Keeps c s t stop = o.reflexive s.world.db
  run-Keeps c s t (step {t = m} first rest) =
      o.transitive _ _ _ (step-Keeps c s m first) (run-Keeps c m t rest)
