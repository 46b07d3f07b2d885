-- ===== src/System/Registry.antt =====
-- Runs of all services, and the tables of the registry.
use signalyard.Common.{refl}
use signalyard.Platform.Auth.{Crypto}
use signalyard.Platform.World.{Env}
use signalyard.Platform.KeepsDb.{Preserving}
use signalyard.Gateway.Auth.{Identities}
use signalyard.Gateway.Handlers.Tools.{RegistryProxy}
use signalyard.Gateway.Dispatch.Frame as GatewayFrame
use signalyard.Normalizer.State.{Upstream}
use signalyard.Normalizer.Dispatch.Frame as NormalizerFrame
use signalyard.Webhook.Dispatch.Frame as WebhookFrame
use signalyard.Registry.Versions.{IsVersioned}
use signalyard.Registry.Versions.Routes
use signalyard.Registry.Versions.Dispatch.{writes-Stay, same_schemas}
use signalyard.Registry.Settled.{SettledDb, settled_preorder, unchanged, writes-Settle}
use signalyard.System.{System, Deployment, Run}
use signalyard.System.Kept.{WritesKeep, run-Keeps}

module _ ⦃env : Env⦄ where
  versioned : WritesKeep (Preserving IsVersioned)
  versioned = record {
    of_registry = writes-Stay;
    of_gateway = GatewayFrame.writes Routes.preorder (λ d a k u i. same_schemas d _ refl);
    of_normalizer = NormalizerFrame.writes Routes.preorder (λ d e q. same_schemas d _ refl);
    of_webhook = WebhookFrame.writes Routes.preorder (λ d w. same_schemas d _ refl);
  }

  settled : WritesKeep SettledDb
  settled = record {
    of_registry = writes-Settle;
    of_gateway = GatewayFrame.writes settled_preorder (λ d a k u i. unchanged _ _ refl);
    of_normalizer = NormalizerFrame.writes settled_preorder (λ d e q. unchanged _ _ refl);
    of_webhook = WebhookFrame.writes settled_preorder (λ d w. unchanged _ _ refl);
  }

module _ ⦃env : Env⦄ ⦃crypto : Crypto⦄ ⦃ids : Identities⦄ ⦃proxy : RegistryProxy⦄
    ⦃up : Upstream⦄ where
  -- Whatever requests the four services are sent, whatever messages the normalizer receives, also twice or
  -- late, and whatever fails or restarts: if each category has at most one active schema version, no version
  -- number twice and no version newer than an active one, so it is at the end of the run.
  pub run-IsVersioned :
      (c : Deployment) (s t : System) → Run c s t → IsVersioned s.world.db → IsVersioned t.world.db
  run-IsVersioned c s t r = run-Keeps Routes.preorder versioned c s t r

  -- In any run of the four services, a proposal that is approved or rejected at its start has the same
  -- status, reviewer and notes at its end.
  pub run-Settled : (c : Deployment) (s t : System) → Run c s t → SettledDb s.world.db t.world.db
  run-Settled c s t r = run-Keeps settled_preorder settled c s t r
