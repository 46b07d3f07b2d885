-- ===== src/Platform/Inversion.antt =====
-- What the parts of an action did, from what the whole of it returned.
use signalyard.Common.{ℕ, ◌≡◌, refl, ap, inl, inr, Option, some, arith, Bool-cases}
use signalyard.Platform.Exec.{Error, Result, ok, err, Exec, continue, ◌>>=◌, ◌or_else◌}
use signalyard.Platform.Database.{Db}
use signalyard.Platform.World.{
  Env, World, next, query, query_row, statement, transaction, commit_or_rollback,
}

module _ {E S A B : Type 0} where
  continue-eq-ok :
      (r : Result E A) (f : A → Exec E S B) (s t : S) (b : B)
      → continue r f s ≡ (ok b, t)
      → (a : A) × (r ≡ ok a) × (f a s ≡ (ok b, t))
  continue-eq-ok (ok a) f s t b h = (a, refl, h)
  continue-eq-ok (err e) f s t b h = cc

  -- A chain that succeeds has succeeded at its first step, and goes on from there.
  pub >>=-eq-ok :
      (m : Exec E S A) (f : A → Exec E S B) (s t : S) (b : B)
      → (m >>= f) s ≡ (ok b, t)
      → (a : A) × (m s ≡ (ok a, (m s).1)) × (f a (m s).1 ≡ (ok b, t))
  unfolding ◌>>=◌
  >>=-eq-ok m f s t b h =
      let (a, p, q) = continue-eq-ok (m s).0 f (m s).1 t b h in (a, ap (λ r. (r, (m s).1)) p, q)

module _ {E F S A : Type 0} where
  pub or_else-eq-ok :
      (m : Exec E S A) (f : E → F) (s t : S) (a : A) → (m or_else f) s ≡ (ok a, t) → m s ≡ (ok a, t)
  unfolding ◌or_else◌
  or_else-eq-ok m f s t a h = ground arith

module _ ⦃env : Env⦄ {A : Type 0} where
  -- A statement that succeeds has run on the tables.
  pub statement-eq-ok :
      (f : ℕ → Db → Result Error A × Db) (w w' : World) (a : A)
      → statement f w ≡ (ok a, w')
      → (f w.calls w.db).0 ≡ ok a
  unfolding statement
  statement-eq-ok f w w' a h = ground arith

  pub db-statement :
      (f : ℕ → Db → Result Error A × Db) (w w' : World) (a : A)
      → statement f w ≡ (ok a, w')
      → w'.db ≡ (f w.calls w.db).1
  unfolding statement
  db-statement f w w' a h = ground arith

  pub query-eq-ok :
      (f : Db → A) (w w' : World) (a : A) → query f w ≡ (ok a, w') → (a ≡ f w.db) × (w'.db ≡ w.db)
  unfolding query
  query-eq-ok f w w' a h = (ground arith, ground arith)

  pub query_row-eq-ok :
      (f : Db → Option A) (w w' : World) (a : A)
      → query_row f w ≡ (ok a, w')
      → (f w.db ≡ some a) × (w'.db ≡ w.db)
  unfolding query_row
  query_row-eq-ok f w w' a h = (ground arith, ground arith)

  committed :
      (d : Db) (x : Result Error A × World) (w' : World) (a : A)
      → commit_or_rollback d x ≡ (ok a, w')
      → (x.0 ≡ ok a) × (w'.db ≡ x.1.db)
  committed d (ok b, w) w' a h = (ground arith, ground arith)
  committed d (err e, w) w' a h = (ground arith, ground arith)

  -- One that succeeds leaves what its statements made.
  pub transaction-eq-ok :
      (m : Exec Error World A) (w w' : World) (a : A)
      → transaction m w ≡ (ok a, w')
      → ((m (next w)).0 ≡ ok a) × (w'.db ≡ (m (next w)).1.db)
  unfolding transaction
  transaction-eq-ok m w w' a h = elim (Bool-cases (env.db_fails w.calls)) [
    | inl p ↦ (ground arith, ground arith)
    | inr p ↦ committed w.db (m (next w)) w' a (rw p at h)
  ]
