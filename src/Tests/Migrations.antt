-- ===== src/Tests/Migrations.antt =====
-- Migrations and queries of events at concrete inputs.
use signalyard.Common.{
  ℕ, sym, ◌≡◌, ◌≤◌, refl, ap, String, String_eq, true, false, Option, none, some, List, [], ◌∷◌,
  pos, length, find, select, order_by,
}
use signalyard.Common.OrderLaws.{AllOf, IsSorted}
use signalyard.Platform.Exec.{Error, Result, ok, ◌>>=◌, pure, or_fail}
use signalyard.Platform.Json.{end}
use signalyard.Platform.Database.{Db, empty, EventRow, CategoryRow}
use signalyard.Platform.World.{World, start, statement, query, transaction}
use signalyard.Gateway.Migrations.{DirEntry, migrate, run_migrations, is_migration, is_applied}
use signalyard.Gateway.Migrations.Again.{run_migrations-twice}
use signalyard.Gateway.Queried.{fits, latest_first, query_events-fits}
use signalyard.Gateway.Store.{Event, query_events, has_category, in_query, scan_event, limit_of}
use signalyard.Tests.Setup.{test_env}

abbrev creating : String → Db → Option Db
creating sql d = some (record d { agents = [] })

abbrev names : Option Db → Option (List String)
names none = none
names (some d) = d.schema_migrations

creating_own :
    (sql : String) (d d' : Db)
    → creating sql d ≡ some d'
    → d'.schema_migrations ≡ d.schema_migrations
creating_own sql d d' h = sym (ap names h)

abbrev files : List DirEntry
files =
    record { name = "0001_init.sql"; is_dir = false; content = some "CREATE" }
    ∷ record { name = "README"; is_dir = false; content = none }
    ∷ []

abbrev first_start : Result Error (Unit {0}) × World
first_start = run_migrations creating files (start empty)

first_start_ok : first_start.0 ≡ ok tt
unfolding run_migrations is_migration or_fail migrate ◌>>=◌ statement query transaction is_applied
    find pure
first_start_ok = refl

run_migrations-twice_example : (run_migrations creating files first_start.1).1.db ≡ first_start.1.db
run_migrations-twice_example =
    run_migrations-twice creating creating_own files (start empty) first_start.1 tt
      (ap (λ r. (r, first_start.1)) first_start_ok)

abbrev event_at : (id time : ℕ) → EventRow
event_at id time = record {
  id = id;
  agent_id = none;
  category_id = 1;
  schema_id = 1;
  source = "app";
  normalized_payload = end;
  occurred_at = time;
  created_at = time;
}

abbrev auth_category : CategoryRow
auth_category = record { id = 1; name = "auth"; description = none; created_at = 1 }

abbrev with_events : World
with_events = start (record empty {
  categories = auth_category ∷ [];
  events = event_at 1 5 ∷ event_at 2 9 ∷ event_at 3 50 ∷ [];
})

abbrev answer : Result Error (List Event) × World
answer = query_events "auth" 2 20 (pos 10) with_events

abbrev found : List Event
found = scan_event with_events.db (event_at 2 9) ∷ scan_event with_events.db (event_at 1 5) ∷ []

answer_ok : answer.0 ≡ ok found
unfolding query_events query has_category in_query scan_event limit_of select order_by find
answer_ok = refl

query_events-fits_example :
    (length found ≤ 1000)
    × AllOf (λ e. fits "auth" 2 20 e ≡ true) found
    × IsSorted latest_first found
    × (answer.1.db ≡ with_events.db)
query_events-fits_example =
    query_events-fits "auth" 2 20 (pos 10) with_events answer.1 found
      (ap (λ r. (r, answer.1)) answer_ok)
