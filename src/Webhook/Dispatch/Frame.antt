-- ===== src/Webhook/Dispatch/Frame.antt =====
-- The writes of the webhook adapter are to its deliveries.
use signalyard.Common.{ℕ, ◌≡◌, refl, sym, subst, List}
use signalyard.Platform.Exec.{Error, Result}
use signalyard.Platform.Database.{Db, DeliveryRow}
use signalyard.Platform.World.{Env, statement}
use signalyard.Platform.Keeps.{Preorder, Keeps, Keeps-bind}
use signalyard.Platform.KeepsDb.{tables, Keeps-query_row, Keeps-statement}
use signalyard.Webhook.Store.{record_delivery, source_id, mark_forwarded, mark_failed, mark}
use signalyard.Webhook.Dispatch.{WritesKeep}

-- `R` relates tables that differ in the deliveries at most.
module _ ⦃env : Env⦄ {R : Db → Db → Type 0} (o : Preorder R)
    (frame : (d : Db) (w : List DeliveryRow) → R d (record d { webhook_deliveries = w })) where
  framed :
      {A : Type 0} (f : ℕ → Db → Result Error A × Db)
      → ((n : ℕ) (d : Db)
          → (f n d).1 ≡ record d { webhook_deliveries = (f n d).1.webhook_deliveries })
      → Keeps tables R (statement f)
  framed f h = Keeps-statement o f λ n d. subst (R d) (sym (h n d)) (frame d _)

  pub writes : WritesKeep R
  unfolding record_delivery source_id mark_forwarded mark_failed mark
  writes = record {
    insert = λ t b j e h. Keeps-bind o _ _ (Keeps-query_row o _) (λ s. framed _ (λ n d. refl));
    forwarded = λ id. framed _ (λ n d. refl);
    failed = λ id m. framed _ (λ n d. refl);
  }
