-- ===== src/Registry/Settled.antt =====
-- FinalizeProposal of internal/registry/store.go, and the proposals that were decided before.
use signalyard.Common.{
  ℕ, suc, zero, ◌≡◌, refl, ◌∙◌, ◌⊎◌, inl, inr, String, false, Option, none, some, List, [], ◌∷◌,
  ◌++◌, map, ◌==◌, String_eq, ℕ_eq, arith, find, update, count, Bool-cases, zero-cases,
}
use signalyard.Platform.Exec.{Error, failed, Result, ok, err, Exec}
use signalyard.Platform.Json.{Object}
use signalyard.Platform.Database.{Db, ProposalRow, CategoryRow}
use signalyard.Platform.World.{Env, World, statement}
use signalyard.Platform.Keeps.{Preorder, Keeps}
use signalyard.Platform.KeepsDb.{tables, Keeps-statement}
use signalyard.Registry.Agents.{create_agent, update_agent, delete_agent}
use signalyard.Registry.CommitTables.{commit-Keeps}
use signalyard.Registry.Dispatch.{WritesKeep}
use signalyard.Registry.Proposals.{
  is_pending_proposal, finalized, refers_to_quarantine, refers_to_schema, first_uuid,
  create_proposal, finalize_proposal, audit_log,
}
use signalyard.Registry.Schemas.{find_category, delete_category, delete_row, drop_category}

-- The columns that a decision writes.
pub record SameReview (p q : ProposalRow) : Type 0 where
  pub status : q.status ≡ p.status
  pub reviewer : q.reviewed_by ≡ p.reviewed_by
  pub notes : q.diff ≡ p.diff

abbrev IsDecidedIn : List ProposalRow → ℕ → ProposalRow → Type 0
IsDecidedIn rows id p = (find (λ r. r.id == id) rows ≡ some p) × ((p.status == "pending") ≡ false)

-- Each decided proposal of the first list is in the second, with the same review.
abbrev Settled : List ProposalRow → List ProposalRow → Type 0
Settled rows rows' =
    (id : ℕ) (p : ProposalRow)
    → IsDecidedIn rows id p
    → (q : ProposalRow) × (find (λ r. r.id == id) rows' ≡ some q) × SameReview p q

abbrev pub SettledDb : Db → Db → Type 0
SettledDb d e = Settled d.schema_proposals e.schema_proposals

same : (p : ProposalRow) → SameReview p p
same p = record { status = refl; reviewer = refl; notes = refl }

pub unchanged : (rows rows' : List ProposalRow) → rows' ≡ rows → Settled rows rows'
unchanged rows rows' e id p (f, s) = (p, rw e f, same p)

pub settled_preorder : Preorder SettledDb
settled_preorder = record {
  reflexive = λ d id p (f, s). (p, f, same p);
  transitive = λ a b c f g id p h.
      let (q, i, j) = f id p h in
      let (r, k, l) = g id q (i, rw j.status (h.1)) in
      (
        r,
        k,
        record {
          status = l.status ∙ j.status;
          reviewer = l.reviewer ∙ j.reviewer;
          notes = l.notes ∙ j.notes;
        },
      );
}

find-append :
    (id : ℕ) (p r : ProposalRow) (rows : List ProposalRow)
    → find (λ x. x.id == id) rows ≡ some p
    → find (λ x. x.id == id) (rows ++ r ∷ []) ≡ some p
unfolding find
find-append id p r [] h = ground arith
find-append id p r (x ∷ rows) h = ground (arith, find-append id p r rows)

-- Finalizing writes to pending rows only.
module _ (f : ProposalRow → ProposalRow) (own : (r : ProposalRow) → (f r).id ≡ r.id) (k : ℕ) where
  find-update :
      (id : ℕ) (p : ProposalRow) (rows : List ProposalRow)
      → find (λ x. x.id == id) rows ≡ some p
      → (p.status == "pending") ≡ false
      → find (λ x. x.id == id) (update (is_pending_proposal k) f rows) ≡ some p
  unfolding find update is_pending_proposal
  find-update id p [] h d = ground arith
  find-update id p (x ∷ rows) h d = ground (arith, find-update id p rows, own x)

module _ (f : Option ℕ → Option ℕ) where
  abbrev forget : ProposalRow → ProposalRow
  forget p = record p { resulting_schema_id = f p.resulting_schema_id }

  find-map :
      (id : ℕ) (p : ProposalRow) (rows : List ProposalRow)
      → find (λ x. x.id == id) rows ≡ some p
      → find (λ x. x.id == id) (map forget rows) ≡ some (forget p)
  unfolding find
  find-map id p [] h = ground arith
  find-map id p (x ∷ rows) h = ground (arith, find-map id p rows)

-- The proposals after a category is deleted, or not.
proposals-delete :
    (c : CategoryRow) (d : Db)
    → ((delete_row (some c) d).1.schema_proposals ≡ d.schema_proposals)
      ⊎ ((f : Option ℕ → Option ℕ) × ((delete_row (some c) d).1.schema_proposals
            ≡ map (forget f) d.schema_proposals))
unfolding delete_row drop_category
proposals-delete c d =
    elim (count (λ e. e.category_id == c.id) d.events)
      as (λ (n : ℕ).
        let e : Db =
          (elim n as (λ _. Result Error (Unit {0}) × Db) [
            | zero ↦ (ok tt, drop_category c d)
            | suc k ↦ (err failed, d)
          ]).1 in
        (e.schema_proposals ≡ d.schema_proposals)
        ⊎ ((f : Option ℕ → Option ℕ) × (e.schema_proposals ≡ map (forget f) d.schema_proposals))) [
          | zero ↦ inr (_, refl)
          | suc n ↦ inl refl
        ]

drop_category-Settled : (o : Option CategoryRow) (d : Db) → SettledDb d (delete_row o d).1
unfolding delete_row
drop_category-Settled none d = settled_preorder.reflexive d
drop_category-Settled (some c) d = elim (proposals-delete c d) [
  | inl e ↦ unchanged _ _ e
  | inr (f, e) ↦ λ id p (g, h). (
    forget f p,
    rw e (find-map f id p d.schema_proposals g),
    record { status = refl; reviewer = refl; notes = refl },
  )
]

append-Settled : (r : ProposalRow) (rows : List ProposalRow) → Settled rows (rows ++ r ∷ [])
append-Settled r rows id p (f, h) = (p, find-append id p r rows f, same p)

update-Settled :
    (id : ℕ) (s r n : String) (o : Option ℕ) (rows : List ProposalRow)
    → Settled rows (update (is_pending_proposal id) (finalized s r n o) rows)
unfolding finalized
update-Settled id s r n o rows i p (f, h) = (p, find-update _ (λ x. refl) id i p rows f h, same p)

module _ ⦃env : Env⦄ where
  abbrev Settles : {E A : Type 0} → Exec E World A → Type 0
  Settles m = Keeps tables SettledDb m

  other_table :
      {A : Type 0} (f : ℕ → Db → Result Error A × Db)
      → ((n : ℕ) (d : Db) → (f n d).1.schema_proposals ≡ d.schema_proposals)
      → Settles (statement f)
  other_table f h = Keeps-statement settled_preorder f λ n d. unchanged _ _ (h n d)

  delete_category-Settles : (category : String) → Settles (delete_category category)
  unfolding delete_category
  delete_category-Settles category =
      Keeps-statement settled_preorder _ λ n d. drop_category-Settled (find_category category d) d

  propose-Settles :
      (c g : String) (o : Object) (r : String) (s : List String) (n : Option String)
      → Settles (create_proposal c g o r s n)
  unfolding create_proposal
  propose-Settles c g o r s n = Keeps-statement settled_preorder _ λ k d.
      elim (Bool-cases (refers_to_quarantine (first_uuid s) d)) [
        | inl e ↦ rw e (append-Settled _ d.schema_proposals)
        | inr e ↦ rw e (settled_preorder.reflexive d)
      ]

  finalize-Settles :
      (id : ℕ) (s r n : String) (o : Option ℕ) → Settles (finalize_proposal id s r n o)
  unfolding finalize_proposal
  finalize-Settles id s r n o = Keeps-statement settled_preorder _ λ k d.
      elim (zero-cases (count (is_pending_proposal id) d.schema_proposals)) [
        | inl e ↦ rw e (settled_preorder.reflexive d)
        | inr (j, e) ↦ elim (Bool-cases (refers_to_schema o d)) [
          | inl g ↦ rw (e, g) (update-Settled id s r n o d.schema_proposals)
          | inr g ↦ rw (e, g) (settled_preorder.reflexive d)
        ]
      ]

  pub writes-Settle : WritesKeep SettledDb
  unfolding audit_log create_agent update_agent delete_agent
  writes-Settle = record {
    commit = commit-Keeps settled_preorder (λ d c s. unchanged _ _ refl);
    delete_schemas = delete_category-Settles;
    propose = propose-Settles;
    finalize = finalize-Settles;
    audit = λ id u a n. other_table _ (λ k d. ground arith);
    add_agent = λ n t c. other_table _ (λ k d. ground arith);
    change_agent = λ id n s c. other_table _ (λ k d. ground arith);
    remove_agent = λ id. other_table _ (λ k d. ground arith);
  }
