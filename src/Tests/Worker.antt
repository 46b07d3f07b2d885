-- ===== src/Tests/Worker.antt =====
-- The normalizer at concrete inputs.
use signalyard.Common.{◌≡◌, refl, String, true, false, some, [], ◌==◌, String_eq}
use signalyard.Platform.Exec.{ok}
use signalyard.Platform.Json.{end}
use signalyard.Platform.Messages.{Envelope}
use signalyard.Platform.Database.{empty}
use signalyard.Platform.World.{start}
use signalyard.Normalizer.Cached.{get_schema-unreachable, get_schema-invalidate}
use signalyard.Normalizer.RegistryClient.{get_schema, invalidate}
use signalyard.Normalizer.State.{
  RegistrySchema, CachedSchema, Worker, Upstream, Fetched, unreachable, replied,
}
use signalyard.Tests.Setup.{test_env, test_crypto}

abbrev pub upstream : Fetched → Upstream
upstream answer = record {
  fetch = λ w k. answer;
  validate = λ schema payload. some (true, []);
  yaml_decode = λ text. record { target = text; targets = [] };
  loki_push_url = "http://loki";
  ttl = 30;
}

abbrev pub auth_schema : RegistrySchema
auth_schema = record { category = "auth"; version = 1; json_schema = end; routing_yaml = "loki" }

abbrev cached : CachedSchema
cached = record { schema = auth_schema; fetched_at = 1 }

abbrev pub worker : Worker
worker = record {
  world = start empty;
  cache = λ k. some cached;
  counts = record { processed = 0; routed = 0; failed_valid = 0; quarantined = 0; replayed = 0 };
}

get_schema-unreachable_example :
    ((get_schema ⦃up = upstream unreachable⦄ "auth" worker).0 ≡ ok auth_schema)
    × ((get_schema ⦃up = upstream unreachable⦄ "auth" worker).1.cache ≡ worker.cache)
get_schema-unreachable_example =
    get_schema-unreachable ⦃up = upstream unreachable⦄ "auth" cached worker refl (λ w. refl)

abbrev newer_schema : RegistrySchema
newer_schema = record auth_schema { version = 2 }

get_schema-invalidate_example :
    ((get_schema ⦃up = upstream (replied 200 (some newer_schema))⦄ "auth"
        (invalidate "auth" worker)).0
      ≡ ok newer_schema)
    × ((k : String)
        → (k == "auth") ≡ false
        → (get_schema ⦃up = upstream (replied 200 (some newer_schema))⦄ "auth"
              (invalidate "auth" worker)).1.cache
            k
          ≡ worker.cache k)
get_schema-invalidate_example =
    get_schema-invalidate ⦃up = upstream (replied 200 (some newer_schema))⦄ "auth" newer_schema
      worker (λ w. refl)

abbrev pub login : Envelope
login = record {
  event_id = "id";
  agent_id = "";
  agent_slug = "";
  category = "auth";
  source = "app";
  timestamp = 5;
  payload = end;
  received_at = 6;
}
