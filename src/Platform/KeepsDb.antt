-- ===== src/Platform/KeepsDb.antt =====
-- The rules of Keeps for the tables: what reads or only talks to the outside keeps them, and a transaction
-- leaves them as they were or as its statements made them.
use signalyard.Common.{ℕ, String, Bool, true, false, Option, none, some, if◌then◌else◌}
use signalyard.Platform.Exec.{Error, Result, ok, err, Exec}
use signalyard.Platform.Database.{Db}
use signalyard.Platform.Messages.{Body}
use signalyard.Platform.World.{
  Env, World, next, query, query_at, query_row, query_row_at, row_or_not_found, statement,
  transaction, commit_or_rollback, fresh_uuid, time_now, publish,
}
use signalyard.Platform.Keeps.{Preorder, Keeps, keeps_rules}

-- The tables of a state of the world.
abbrev pub tables : World → Db
tables w = w.db

module _ {R : Db → Db → Type 0} (o : Preorder R) where
  either :
      {A : Type 0} (b : Bool) (d : Db) (x y : Result Error A × World)
      → R d x.1.db
      → R d y.1.db
      → R d (if b then x else y).1.db
  either true d x y p q = p
  either false d x y p q = q

  row :
      {A : Type 0} (d : Db) (x : Result Error (Option A) × World)
      → R d x.1.db
      → R d (row_or_not_found x).1.db
  row d (ok none, w) p = p
  row d (ok (some a), w) p = p
  row d (err e, w) p = p

module _ ⦃env : Env⦄ {R : Db → Db → Type 0} (o : Preorder R) where
  unsure :
      (b : Bool) (d : Db) (w : World)
      → R d w.db
      → R d (if b then next w else next (record w { db = d })).db
  unsure true d w p = p
  unsure false d w p = o.reflexive d

  committed :
      {A : Type 0} (d : Db) (x : Result Error A × World)
      → R d x.1.db
      → R d (commit_or_rollback d x).1.db
  committed d (err e, w) p = o.reflexive d
  committed d (ok a, w) p =
      either o (env.db_fails w.calls) d _ _ (unsure (env.commit_lost w.calls) d w p) p

  module _ {A : Type 0} where
    pub Keeps-query : (f : Db → A) → Keeps tables R (query f)
    unfolding query
    Keeps-query f = record {
      at = λ w. either o (env.db_fails w.calls) w.db _ _ (o.reflexive w.db) (o.reflexive w.db);
    }

    pub Keeps-query_at : (f : ℕ → Db → A) → Keeps tables R (query_at f)
    unfolding query_at
    Keeps-query_at f = record {
      at = λ w. either o (env.db_fails w.calls) w.db _ _ (o.reflexive w.db) (o.reflexive w.db);
    }

    pub Keeps-statement :
        (f : ℕ → Db → Result Error A × Db)
        → ((n : ℕ) (d : Db) → R d (f n d).1)
        → Keeps tables R (statement f)
    unfolding statement
    Keeps-statement f k = record {
      at = λ w. either o (env.db_fails w.calls) w.db _ _ (o.reflexive w.db) (k w.calls w.db);
    }

    pub Keeps-transaction :
        (m : Exec Error World A) → Keeps tables R m → Keeps tables R (transaction m)
    unfolding transaction
    Keeps-transaction m k = record {
      at = λ w.
          either o (env.db_fails w.calls) w.db _ _ (o.reflexive w.db)
            (committed w.db (m (next w)) (k.at (next w)));
    }

    pub Keeps-query_row : (f : Db → Option A) → Keeps tables R (query_row f)
    unfolding query_row
    Keeps-query_row f = record { at = λ w. row o w.db (query f w) ((Keeps-query' f).at w) }
      where
        Keeps-query' : (g : Db → Option A) → Keeps tables R (query g)
        Keeps-query' g = record {
          at = λ w. either o (env.db_fails w.calls) w.db _ _ (o.reflexive w.db) (o.reflexive w.db);
        }

    pub Keeps-query_row_at : (f : ℕ → Db → Option A) → Keeps tables R (query_row_at f)
    unfolding query_row_at
    Keeps-query_row_at f = record {
      at = λ w.
          row o w.db (query_at f w)
            (either o (env.db_fails w.calls) w.db _ _ (o.reflexive w.db) (o.reflexive w.db));
    }

  module _ {E : Type 0} where
    pub Keeps-fresh_uuid : Keeps tables R (fresh_uuid {E = E})
    unfolding fresh_uuid
    Keeps-fresh_uuid = record { at = λ w. o.reflexive w.db }

    pub Keeps-time_now : Keeps tables R (time_now {E = E})
    unfolding time_now
    Keeps-time_now = record { at = λ w. o.reflexive w.db }

  pub Keeps-publish : (subject : String) (body : Body) → Keeps tables R (publish subject body)
  unfolding publish
  Keeps-publish subject body = record {
    at = λ w. either o (env.nats_fails w.calls) w.db _ _ (o.reflexive w.db) (o.reflexive w.db);
  }

pub ruleset tables_rules = (
  keeps_rules, Keeps-query, Keeps-query_at, Keeps-transaction, Keeps-query_row, Keeps-query_row_at,
  Keeps-fresh_uuid, Keeps-time_now, Keeps-publish,
)

-- The relation of an invariant.
abbrev pub Preserving : (Db → Type 0) → Db → Db → Type 0
Preserving P d d' = P d → P d'

pub Preserving-preorder : (P : Db → Type 0) → Preorder (Preserving P)
Preserving-preorder P = record { reflexive = λ d p. p; transitive = λ a b c f g p. g (f p) }
