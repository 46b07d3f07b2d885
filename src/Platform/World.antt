-- ===== src/Platform/World.antt =====
-- The state that the services share with the outside, and the outside itself. Postgres, NATS, the
-- clock and the generator of UUIDs answer by the number of the call: any run is one choice of `Env`.
use signalyard.Common.{ℕ, suc, String, Bool, Option, none, some, List, [], ◌∷◌, ◌++◌, if◌then◌else◌}
use signalyard.Platform.Exec.{Error, not_found, failed, Result, ok, err, Exec}
use signalyard.Platform.Float64.{Float64}
use signalyard.Platform.Json.{Object}
use signalyard.Platform.Messages.{Envelope, Body, Message}
use signalyard.Platform.Database.{Db}

-- UUIDs are numbers, uuid.Nil is 0.
pub record Env : Type 0 where
  pub db_fails : ℕ → Bool
  pub commit_lost : ℕ → Bool  -- a COMMIT that failed took effect all the same
  pub nats_fails : ℕ → Bool
  pub publish_error : String  -- the text of NATS's error
  pub http_status : ℕ → Option ℕ  -- none: no response
  pub git_fails : ℕ → Bool
  pub now : ℕ → ℕ
  pub new_uuid : ℕ → ℕ
  pub uuid_parse : String → Option ℕ
  pub uuid_string : ℕ → String
  pub short_uuid : ℕ → String  -- uuid.NewString()[:8]
  pub float64 : Float64  -- how numbers are rounded

pub record Commit : Type 0 where
  pub category : String
  pub version : ℕ
  pub json_schema : Object
  pub routing_yaml : String

pub record World : Type 0 where
  pub db : Db
  pub calls : ℕ  -- the number of calls made to the outside
  pub published : List Message  -- oldest first
  pub loki : List Envelope  -- what Loki has accepted
  pub collector : List (String × String × String)  -- what the OTel Collector has accepted
  pub commits : List Commit  -- of the schema repository
  pub pushes : ℕ  -- how many of them were pushed

abbrev pub start : Db → World
start d = record {
  db = d;
  calls = 0;
  published = [];
  loki = [];
  collector = [];
  commits = [];
  pushes = 0;
}

abbrev pub next : World → World
next w = record w { calls = suc w.calls }

abbrev pub row_or_not_found :
    {A : Type 0} → Result Error (Option A) × World → Result Error A × World
row_or_not_found (ok none, w) = (err not_found, w)
row_or_not_found (ok (some a), w) = (ok a, w)
row_or_not_found (err e, w) = (err e, w)

-- A SELECT of one row: pgx.ErrNoRows is `not_found`.

module _ ⦃env : Env⦄ where
  -- A SELECT. An outage leaves no trace but the number of calls.
  unfoldable pub query : {A : Type 0} → (Db → A) → Exec Error World A
  query f w = if env.db_fails w.calls then (err failed, next w) else (ok (f w.db), next w)

  -- A SELECT that reads NOW(), which is given by the number of the call.
  unfoldable pub query_at : {A : Type 0} → (ℕ → Db → A) → Exec Error World A
  query_at f w =
      if env.db_fails w.calls then (err failed, next w) else (ok (f w.calls w.db), next w)

  unfoldable pub query_row : {A : Type 0} → (Db → Option A) → Exec Error World A
  unfolding query
  query_row f w = row_or_not_found (query f w)

  unfoldable pub query_row_at : {A : Type 0} → (ℕ → Db → Option A) → Exec Error World A
  unfolding query_at
  query_row_at f w = row_or_not_found (query_at f w)

  -- A statement that writes; it is given the number of the call, which stands for NOW() and
  -- gen_random_uuid(). A violated constraint is an error and writes nothing.
  unfoldable pub statement : {A : Type 0} → (ℕ → Db → Result Error A × Db) → Exec Error World A
  statement f w =
      if env.db_fails w.calls
      then (err failed, next w)
      else (let (r, d) = f w.calls w.db in (r, record w { db = d; calls = suc w.calls }))

  abbrev pub commit_or_rollback :
      {A : Type 0} → Db → Result Error A × World → Result Error A × World
  commit_or_rollback d (err e, w) = (err e, record w { db = d })
  commit_or_rollback d (ok a, w) =
      if env.db_fails w.calls
      then (err failed, if env.commit_lost w.calls then next w else next (record w { db = d }))
      else (ok a, next w)

  -- Begin, the statements, Commit; the deferred Rollback undoes them after an error. Where the answer to Commit
  -- is an error, the statements may have taken effect or not.
  unfoldable pub transaction : {A : Type 0} → Exec Error World A → Exec Error World A
  transaction m w =
      if env.db_fails w.calls then (err failed, next w) else commit_or_rollback w.db (m (next w))

  -- uuid.New()
  unfoldable pub fresh_uuid : {E : Type 0} → Exec E World ℕ
  fresh_uuid w = (ok (env.new_uuid w.calls), next w)

  -- time.Now()
  unfoldable pub time_now : {E : Type 0} → Exec E World ℕ
  time_now w = (ok (env.now w.calls), next w)

  -- js.Publish, js.PublishMsg
  unfoldable pub publish : String → Body → Exec Error World (Unit {0})
  publish subject body w = if env.nats_fails w.calls then (err failed, next w) else (
    ok tt,
    record w {
      calls = suc w.calls;
      published = w.published ++ record { subject = subject; content = body } ∷ [];
    },
  )
