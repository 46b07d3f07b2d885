-- ===== src/Normalizer/Worker.antt =====
-- internal/normalizer/worker.go: validation, routing and quarantine of one envelope.
use Prim.Native.String.{◌++◌}
use signalyard.Common.{
  ℕ, suc, String, String_eq, ℕ_eq, Bool, true, false, ◌||◌, not, Option, none, some, List, [], ◌∷◌,
  ltb, ◌==◌, if◌then◌else◌,
}
use signalyard.Common
use signalyard.Platform.Exec.{
  Error, not_found, failed, Result, ok, err, Exec, ◌>>=◌, ◌>>◌, pure, raise, attempt,
}
use signalyard.Platform.Json.{Object}
use signalyard.Platform.Messages.{Envelope, envelope}
use signalyard.Platform.World.{Env, World, next, publish, time_now}
use signalyard.Normalizer.State.{
  RegistrySchema, Counters, Worker, RoutingConfig, Upstream, at_world, count_with,
}
use signalyard.Normalizer.Store.{insert_event, quarantine_row}
use signalyard.Normalizer.RegistryClient.{get_schema}

-- routingConfig.destinations
unfoldable pub destinations_of : List String → String → List String
destinations_of (t ∷ ts) target = t ∷ ts
destinations_of [] target = if not (target == "") then target ∷ [] else "postgres" ∷ []

unfoldable pub destinations : RoutingConfig → List String
unfolding destinations_of
destinations r = destinations_of r.targets r.target

pub data Outcome : Type 0 where
  routed quarantined : Outcome

pub record ValidationResult : Type 0 where
  pub valid : Bool
  pub reason : String

unfoldable pub first_or : List String → String → String
first_or [] d = d
first_or (e ∷ es) d = e

unfoldable pub verdict : Option (Bool × List String) → Option ValidationResult
unfolding first_or
verdict none = none
verdict (some (true, errors)) = some (record { valid = true; reason = "" })
verdict (some (false, errors)) =
    some (record { valid = false; reason = first_or errors "payload does not match schema" })

abbrev pub bump_processed : Counters → Counters
bump_processed c = record c { processed = suc c.processed }

abbrev pub bump_routed : Counters → Counters
bump_routed c = record c { routed = suc c.routed }

abbrev pub bump_failed_valid : Counters → Counters
bump_failed_valid c = record c { failed_valid = suc c.failed_valid }

abbrev pub bump_quarantined : Counters → Counters
bump_quarantined c = record c { quarantined = suc c.quarantined }

module _ ⦃env : Env⦄ ⦃up : Upstream⦄ where
  unfoldable pub validate_payload : Object → Object → Option ValidationResult
  unfolding verdict
  validate_payload json_schema payload = verdict (up.validate json_schema payload)

  abbrev pub accepted : Option ℕ → Bool
  accepted none = false
  accepted (some status) = ltb status 300

  unfoldable pub post_loki : Envelope → Exec Error World (Unit {0})
  post_loki e w =
      if accepted (env.http_status w.calls)
      then (ok tt, record w { calls = suc w.calls; loki = Common.◌++◌ w.loki (e ∷ []) })
      else (err failed, next w)

  unfoldable pub dated : Envelope → Exec Error World Envelope
  dated e =
      if e.timestamp == 0 then (do now ← time_now; pure (record e { timestamp = now })) else pure e

  -- pushLoki: without a URL the destination is skipped.
  unfoldable pub push_loki : Envelope → Exec Error World (Unit {0})
  unfolding post_loki dated
  push_loki e =
      if up.loki_push_url == "" then pure tt else (do stamped ← dated e; post_loki stamped)

  -- route: tempo and mimir are deferred, an unknown destination is the database.
  unfoldable pub route : String → Envelope → Exec Error World (Unit {0})
  route dest e =
      if dest == "postgres"
      then insert_event e
      else if dest == "loki"
      then push_loki e
      else if (dest == "tempo") || (dest == "mimir")
      then pure tt
      else insert_event e

  -- The loop over the destinations stops at the first error.
  unfoldable pub route_all : List String → Envelope → Exec Error World (Unit {0})
  route_all [] e = pure tt
  route_all (dest ∷ rest) e = do route dest e; route_all rest e

  -- Worker.quarantine
  unfoldable pub quarantine : Envelope → String → Exec Error Worker (Unit {0})
  quarantine e reason = do
    at_world (quarantine_row e reason)
    at_world (publish "quarantine.unknown" (envelope e))
    count_with bump_quarantined

  unfoldable pub routing_of : String → RoutingConfig
  routing_of yaml =
      if not (yaml == "") then up.yaml_decode yaml else record { target = ""; targets = [] }

  unfoldable pub after_validation :
      Envelope → RegistrySchema → Option ValidationResult → Exec Error Worker Outcome
  unfolding routing_of
  after_validation e schema none = raise failed
  after_validation e schema (some v) =
      if v.valid
      then (do
        at_world (route_all (destinations (routing_of schema.routing_yaml)) e)
        count_with bump_routed
        pure routed)
      else do
        count_with bump_failed_valid
        quarantine e ("schema_validation_failed: " ++ v.reason)
        pure quarantined

  unfoldable pub after_schema : Envelope → Result Error RegistrySchema → Exec Error Worker Outcome
  unfolding after_validation
  after_schema e (err not_found) = do quarantine e "unknown_category"; pure quarantined
  after_schema e (err other) = raise other
  after_schema e (ok schema) =
      after_validation e schema (validate_payload schema.json_schema e.payload)

  -- Process
  unfoldable pub process : Envelope → Exec Error Worker Outcome
  unfolding after_schema
  process e = do
    count_with bump_processed
    schema ← attempt (get_schema e.category)
    after_schema e schema

pub data Ack : Type 0 where
  ack : Ack
  nak_with_delay : ℕ → Ack  -- seconds

module _ ⦃env : Env⦄ ⦃up : Upstream⦄ where
  unfoldable pub answer : Result Error Outcome → Ack
  answer (ok o) = ack
  answer (err e) = nak_with_delay 5

  -- handleIngest: `none` is a message that is no envelope.
  unfoldable pub handle_ingest : Option Envelope → Worker → Ack × Worker
  unfolding answer
  handle_ingest none s = (ack, record s { counts = bump_quarantined s.counts })
  handle_ingest (some e) s = let (r, s') = process e s in (answer r, s')
