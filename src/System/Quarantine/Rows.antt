-- ===== src/System/Quarantine/Rows.antt =====
-- The quarantine table in a run of all services.
use signalyard.Common.{
  ℕ, ◌≡◌, refl, sym, subst, ◌∙◌, ℕ_eq, Bool, true, false, some, List, [], ◌∷◌, arith, ◌==◌, find,
  update, Bool-cases, inl, inr, if◌then◌else◌,
}
use mathlib.Core.Option.{some-injective}
use signalyard.Common.ListLaws.{find-append}
use signalyard.Platform.Database.{QuarantineRow}
use signalyard.Platform.Auth.{Crypto}
use signalyard.Platform.World.{Env}
use signalyard.Gateway.Auth.{Identities}
use signalyard.Gateway.Handlers.Tools.{RegistryProxy}
use signalyard.Normalizer.State.{Upstream}
use signalyard.System.{System, Deployment, Run}
use signalyard.System.Kept.{run-Keeps}
use signalyard.System.Quarantine.{SameEvent, has_id, TableRules, on_db, writes}

-- Each row of the first list is in the second, with the same event.
abbrev pub AreKept : List QuarantineRow → List QuarantineRow → Type 0
AreKept rows rows' =
    (id : ℕ) (p : QuarantineRow)
    → find (has_id id) rows ≡ some p
    → (q : QuarantineRow) × (find (has_id id) rows' ≡ some q) × SameEvent p q

same : (p : QuarantineRow) → SameEvent p p
same p = record {
  id = refl;
  payload = refl;
  source = refl;
  created_at = refl;
  attempts = omega arith;
  replayed = λ h. h;
}

trans : (p q r : QuarantineRow) → SameEvent p q → SameEvent q r → SameEvent p r
trans p q r f g = record {
  id = g.id ∙ f.id;
  payload = g.payload ∙ f.payload;
  source = g.source ∙ f.source;
  created_at = g.created_at ∙ f.created_at;
  attempts = ground (arith, f.attempts, g.attempts);
  replayed = λ h. g.replayed (f.replayed h);
}

find-head :
    (id : ℕ) (x : QuarantineRow) (rows : List QuarantineRow)
    → (x.id == id) ≡ true
    → find (has_id id) (x ∷ rows) ≡ some x
unfolding find
find-head id x rows e = rw e

find-tail :
    (id : ℕ) (x : QuarantineRow) (rows : List QuarantineRow)
    → (x.id == id) ≡ false
    → find (has_id id) (x ∷ rows) ≡ find (has_id id) rows
unfolding find
find-tail id x rows e = rw e

cons-AreKept :
    (x y : QuarantineRow) (xs ys : List QuarantineRow)
    → SameEvent x y
    → AreKept xs ys
    → AreKept (x ∷ xs) (y ∷ ys)
cons-AreKept x y xs ys k ks id p h = elim (Bool-cases (x.id == id)) [
  | inl e ↦ (
    y,
    find-head id y ys (rw k.id e),
    subst (λ z. SameEvent z y) (some-injective x p (sym (find-head id x xs e) ∙ h)) k,
  )
  | inr e ↦
      let (q, i, j) = ks id p (sym (find-tail id x xs e) ∙ h) in
      (q, find-tail id y ys (rw k.id e) ∙ i, j)
]

module _ (t : QuarantineRow → Bool) (f : QuarantineRow → QuarantineRow)
    (k : (r : QuarantineRow) → SameEvent r (f r)) where
  changed : (b : Bool) (x : QuarantineRow) → SameEvent x (if b then f x else x)
  changed true x = k x
  changed false x = same x

  change-AreKept : (rows : List QuarantineRow) → AreKept rows (update t f rows)
  unfolding update
  change-AreKept [] id p h = (p, h, same p)
  change-AreKept (x ∷ rows) id p h =
      cons-AreKept x _ rows _ (changed (t x) x) (change-AreKept rows) id p h

AreKept-rules : TableRules AreKept
AreKept-rules = record {
  order = record {
    reflexive = λ rows id p h. (p, h, same p);
    transitive = λ a b c f g id p h.
        let (q, i, j) = f id p h in let (r, k, l) = g id q i in (r, k, trans p q r j l);
  };
  append = λ rows r h id p g. (p, find-append (has_id id) r p rows g, same p);
  change = λ rows t f k. change-AreKept t f k rows;
}

module _ ⦃env : Env⦄ ⦃crypto : Crypto⦄ ⦃ids : Identities⦄ ⦃proxy : RegistryProxy⦄
    ⦃up : Upstream⦄ where
  -- In any run of the four services no quarantined event is lost: the first row of its id is there at the
  -- end, with the same payload, source and time, at least as many attempts, and with the status replayed if
  -- it had it before.
  pub run-AreKept :
      (c : Deployment) (s t : System)
      → Run c s t
      → AreKept s.world.db.quarantine_events t.world.db.quarantine_events
  run-AreKept c s t r = run-Keeps (on_db AreKept-rules) (writes AreKept-rules) c s t r
