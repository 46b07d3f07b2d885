-- ===== src/Tests/System.antt =====
-- A run of the four services.
use signalyard.Common.{refl, true, none, some, [], ◌∷◌}
use signalyard.Platform.Json.{end}
use signalyard.Platform.Database.{empty, QuarantineRow, Db}
use signalyard.Platform.World.{start}
use signalyard.Gateway.Auth.{Identities}
use signalyard.Gateway.Handlers.Tools.{RegistryProxy}
use signalyard.Gateway.Rate.{new_rate_limiter}
use signalyard.Gateway.Router as GatewayRouter
use signalyard.Normalizer.State.{Upstream, new_worker, unreachable}
use signalyard.Registry.Router as RegistryRouter
use signalyard.Registry.Versions.{IsVersioned}
use signalyard.Registry.Versions.Dispatch.{same_schemas}
use signalyard.Registry.Settled.{SettledDb}
use signalyard.Webhook.Router as WebhookRouter
use signalyard.Webhook.Verify.{github}
use signalyard.Tests.Setup.{
  test_env, test_crypto, server, admin_request, new_auth_schema, proposal_with,
}
use signalyard.Tests.Registry.{empty-IsVersioned}
use signalyard.Tests.Services.{secrets, gateway_config, forged}
use signalyard.Tests.Worker.{upstream, login}
use signalyard.System.{
  System, Deployment, Run, stop, step, registry, gateway, webhook, ingest, approval,
  restart_normalizer,
}
use signalyard.System.Registry.{run-IsVersioned, run-Settled}
use signalyard.System.AuditLog.{Extends, run-Extends}
use signalyard.System.Quarantine.Rows.{AreKept, run-AreKept}

instance abbrev pub test_identities : Identities
test_identities = record { random_hex = λ n. some ("ab", "cd"); oidc_verify = λ t. none }

instance abbrev pub test_proxy : RegistryProxy
test_proxy = record { post_proposal = λ u p. none; get_categories = λ u. none }

instance abbrev pub test_upstream : Upstream
test_upstream = upstream unreachable

abbrev deployment : Deployment
deployment = record {
  registry = server;
  gateway = gateway_config;
  gateway_codec = record { encodable = λ e. true; string_of_runes = λ cs. "bot" };
  rate = 50;
  burst = 100;
  normalizer = server.auth;
  started_at = 1;
  webhook = secrets;
  webhook_codec = record { encodable = λ e. true; parse = λ b. some end };
  webhook_auth = server.auth;
}

abbrev quarantined_login : QuarantineRow
quarantined_login = record {
  id = 7;
  agent_id = none;
  source = "app";
  raw_payload = some login;
  reason = "unknown_category";
  status = "pending";
  attempts = 0;
  created_at = 1;
}

abbrev tables : Db
tables = record empty {
  quarantine_events = quarantined_login ∷ [];
  schema_proposals = proposal_with "rejected" ∷ [];
}

abbrev before : System
before = record {
  world = start tables;
  limiter = new_rate_limiter 50 100;
  ingested = [];
  cache = (new_worker (start tables)).cache;
  counts = (new_worker (start tables)).counts;
}

-- An administrator creates a schema, an approval, an event and a forged delivery arrive.
abbrev a_run : (t : System) × Run deployment before t
a_run = (
  _,
  step
      (registry admin_request
        (RegistryRouter.admin (RegistryRouter.create_schema (some new_auth_schema))))
      (step (approval (some "auth")) (
        step (ingest (some login)) (
          step (webhook admin_request (WebhookRouter.webhook github forged (some "{}"))) (
            step (gateway admin_request (GatewayRouter.register none))
              (step restart_normalizer stop))))),
)

tables-IsVersioned : IsVersioned tables
tables-IsVersioned = same_schemas empty tables refl empty-IsVersioned

run-IsVersioned_example : IsVersioned (a_run.0).world.db
run-IsVersioned_example = run-IsVersioned deployment before a_run.0 a_run.1 tables-IsVersioned

run-Settled_example : SettledDb before.world.db (a_run.0).world.db
run-Settled_example = run-Settled deployment before a_run.0 a_run.1

run-Extends_example : Extends before.world.db (a_run.0).world.db
run-Extends_example = run-Extends deployment before a_run.0 a_run.1

run-AreKept_example : AreKept before.world.db.quarantine_events (a_run.0).world.db.quarantine_events
run-AreKept_example = run-AreKept deployment before a_run.0 a_run.1
