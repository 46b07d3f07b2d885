-- ===== src/Normalizer/Dispatch/Frame.antt =====
-- The writes of the normalizer are to events and quarantined events.
use signalyard.Common.{ℕ, ◌≡◌, refl, sym, subst, ℕ_eq, List, arith}
use signalyard.Platform.Exec.{Error, Result}
use signalyard.Platform.Database.{Db, EventRow, QuarantineRow}
use signalyard.Platform.World.{Env, statement}
use signalyard.Platform.Keeps.{Preorder, Keeps}
use signalyard.Platform.KeepsDb.{tables, Keeps-statement}
use signalyard.Normalizer.Store.{insert_row, upsert_quarantine, mark_replayed, bump_attempts}
use signalyard.Normalizer.Dispatch.{WritesKeep}

-- `R` relates tables that differ in these two at most.
module _ ⦃env : Env⦄ {R : Db → Db → Type 0} (o : Preorder R)
    (frame : (d : Db) (e : List EventRow) (q : List QuarantineRow)
      → R d (record d { events = e; quarantine_events = q })) where
  framed :
      {A : Type 0} (f : ℕ → Db → Result Error A × Db)
      → ((n : ℕ) (d : Db)
          → (f n d).1 ≡ record d {
            events = (f n d).1.events;
            quarantine_events = (f n d).1.quarantine_events;
          })
      → Keeps tables R (statement f)
  framed f h = Keeps-statement o f λ n d. subst (R d) (sym (h n d)) (frame d _ _)

  pub writes : WritesKeep R
  unfolding insert_row upsert_quarantine mark_replayed bump_attempts
  writes = record {
    event = λ e s. framed _ (λ n d. ground arith);
    quarantined = λ id e r. framed _ (λ n d. ground arith);
    replayed = λ id. framed _ (λ n d. refl);
    bumped = λ id r. framed _ (λ n d. refl);
  }
