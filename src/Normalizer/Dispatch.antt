-- ===== src/Normalizer/Dispatch.antt =====
-- What every delivery and every request to the normalizer keeps of the tables, given that each of its
-- writes keeps it.
pub mod Routes
pub mod Frame
use signalyard.Common.{
  ℕ, String, Bool, true, false, Option, none, some, List, [], ◌∷◌, Bool-cases, inl, inr, ◌==◌, ℕ_eq,
}
use signalyard.Platform.Exec.{Error, not_found, conflict, failed, Result, ok, err, Exec}
use signalyard.Platform.Json.{Object}
use signalyard.Platform.Database.{Db, SchemaRow}
use signalyard.Platform.Messages.{Envelope}
use signalyard.Platform.World.{Env, World}
use signalyard.Platform.Keeps.{Preorder, Keeps}
use signalyard.Platform.KeepsDb.{tables, tables_rules}
use signalyard.Normalizer.State.{
  RegistrySchema, CachedSchema, Counters, Worker, Fetched, bad_request, unreachable, replied,
  Upstream, at_world, count_with,
}
use signalyard.Normalizer.RegistryClient.{
  tick, last_known, keep_decoded, on_fetched, fetch_schema, is_fresh, cached_or_fetch, get_schema,
}
use signalyard.Normalizer.Store.{
  insert_row, insert_event, id_or_new, upsert_quarantine, quarantine_row, mark_replayed,
  bump_attempts,
}
use signalyard.Normalizer.Worker.{
  ValidationResult, accepted, dated, push_loki, post_loki, route, route_all, quarantine, routing_of,
  after_validation, after_schema, process,
}

pub record WritesKeep ⦃env : Env⦄ (R : Db → Db → Type 0) : Type 0 where
  pub event : (e : Envelope) (s : SchemaRow) → Keeps tables R (insert_row e s)
  pub quarantined : (id : ℕ) (e : Envelope) (r : String) → Keeps tables R (upsert_quarantine id e r)
  pub replayed : (id : ℕ) → Keeps tables R (mark_replayed id)
  pub bumped : (id : ℕ) (r : String) → Keeps tables R (bump_attempts id r)

-- The tables of a state of the worker.
abbrev pub tables_of : Worker → Db
tables_of s = s.world.db

module _ {R : Db → Db → Type 0} {E A : Type 0} where
  pub Keeps-at_world : (m : Exec E World A) → Keeps tables R m → Keeps tables_of R (at_world m)
  Keeps-at_world m k = record { at = λ s. k.at s.world }

module _ {R : Db → Db → Type 0} (o : Preorder R) {E : Type 0} where
  pub Keeps-count : (f : Counters → Counters) → Keeps tables_of R (count_with {E = E} f)
  Keeps-count f = record { at = λ s. o.reflexive s.world.db }

pub ruleset worker_rules = (tables_rules, Keeps-at_world, Keeps-count)

-- The registry client writes to its cache only.
module _ ⦃env : Env⦄ ⦃up : Upstream⦄ {R : Db → Db → Type 0} (o : Preorder R) where
  last_known-Keeps :
      (d : Db) (c : Option CachedSchema) (s : Worker)
      → R d s.world.db
      → R d (last_known c s).1.world.db
  unfolding last_known
  last_known-Keeps d none s h = h
  last_known-Keeps d (some c) s h = h

  decoded-Keeps : (c : String) (b : Option RegistrySchema) → Keeps tables_of R (keep_decoded c b)
  unfolding keep_decoded
  decoded-Keeps c none = record { at = λ s. o.reflexive s.world.db }
  decoded-Keeps c (some b) = record { at = λ s. o.reflexive s.world.db }

  fetched-Keeps : (c : String) (f : Fetched) → Keeps tables_of R (on_fetched c f)
  unfolding on_fetched
  fetched-Keeps c bad_request = record { at = λ s. o.reflexive s.world.db }
  fetched-Keeps c unreachable = record {
    at = λ s. last_known-Keeps s.world.db _ s (o.reflexive s.world.db);
  }
  fetched-Keeps c (replied status body) = record {
    at = λ s. elim (Bool-cases (status == 404)) [
      | inl e ↦ rw e (o.reflexive s.world.db)
      | inr e ↦ elim (Bool-cases (status == 200)) [
        | inl g ↦ rw (e, g) ((decoded-Keeps c body).at s)
        | inr g ↦ rw (e, g) (o.reflexive s.world.db)
      ]
    ];
  }

  fetch-Keeps : (c : String) → Keeps tables_of R (fetch_schema c)
  unfolding fetch_schema
  fetch-Keeps c = record { at = λ s. (fetched-Keeps c (up.fetch s.world c)).at (tick s) }

  cached-Keeps : (c : String) (k : Option CachedSchema) → Keeps tables_of R (cached_or_fetch c k)
  unfolding cached_or_fetch
  cached-Keeps c none = fetch-Keeps c
  cached-Keeps c (some k) = record {
    at = λ s. elim (Bool-cases (is_fresh k s)) [
      | inl e ↦ rw e (o.reflexive s.world.db)
      | inr e ↦ rw e ((fetch-Keeps c).at (tick s))
    ];
  }

  pub get_schema-Keeps : (c : String) → Keeps tables_of R (get_schema c)
  unfolding get_schema
  get_schema-Keeps c = record { at = λ s. (cached-Keeps c (s.cache c)).at s }

  Keeps-post_loki : (e : Envelope) → Keeps tables R (post_loki e)
  unfolding post_loki
  Keeps-post_loki e = record {
    at = λ w. elim (Bool-cases (accepted (env.http_status w.calls))) [
      | inl h ↦ rw h (o.reflexive w.db)
      | inr h ↦ rw h (o.reflexive w.db)
    ];
  }

  Keeps-dated : (e : Envelope) → Keeps tables R (dated e)
  unfolding dated
  Keeps-dated e = search (tables_rules, o)

  pub Keeps-loki : (e : Envelope) → Keeps tables R (push_loki e)
  unfolding push_loki
  Keeps-loki e = search (tables_rules, o, Keeps-post_loki, Keeps-dated)
