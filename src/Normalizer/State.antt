-- ===== src/Normalizer/State.antt =====
-- The worker's state, and the libraries and services that it calls.
use signalyard.Common.{ℕ, String, Bool, Option, none, List}
use signalyard.Platform.Exec.{Exec, ok}
use signalyard.Platform.Json.{Object}
use signalyard.Platform.World.{World}

pub record RegistrySchema : Type 0 where
  pub category : String
  pub version : ℕ
  pub json_schema : Object
  pub routing_yaml : String

pub record CachedSchema : Type 0 where
  pub schema : RegistrySchema
  pub fetched_at : ℕ

pub record Counters : Type 0 where
  pub processed : ℕ
  pub routed : ℕ
  pub failed_valid : ℕ
  pub quarantined : ℕ
  pub replayed : ℕ

pub record Worker : Type 0 where
  pub world : World
  pub cache : String → Option CachedSchema
  pub counts : Counters

pub record RoutingConfig : Type 0 where
  pub target : String
  pub targets : List String

-- What GET /v1/schemas/{category} of the registry answers: a status, and the body if it decodes.
pub data Fetched : Type 0 where
  bad_request unreachable : Fetched
  replied : ℕ → Option RegistrySchema → Fetched

-- `validate` is gojsonschema: `none` is an error, else the verdict and its messages. `yaml_decode` is
-- what yaml.Unmarshal leaves in its target, also where it reports an error.
pub record Upstream : Type 0 where
  pub fetch : World → String → Fetched
  pub validate : Object → Object → Option (Bool × List String)
  pub yaml_decode : String → RoutingConfig
  pub loki_push_url : String
  pub ttl : ℕ

-- NewWorker: nothing is counted and nothing is cached.
abbrev pub new_worker : World → Worker
new_worker w = record {
  world = w;
  cache = λ category. none;
  counts = record { processed = 0; routed = 0; failed_valid = 0; quarantined = 0; replayed = 0 };
}

abbrev pub at_world : {E A : Type 0} → Exec E World A → Exec E Worker A
at_world m s = let (r, w) = m s.world in (r, record s { world = w })

abbrev pub count_with : {E : Type 0} → (Counters → Counters) → Exec E Worker (Unit {0})
count_with f s = (ok tt, record s { counts = f s.counts })
