-- ===== src/Registry/Approval.antt =====
-- handleReview of internal/registry/handlers.go: what a decision leaves in the tables.
use text.Mathlib.TextPositions.{eq_refl}
use signalyard.Common.{
  ℕ, ◌≤◌, ◌≡◌, refl, sym, ap, subst, ◌∙◌, inl, inr, String, String_eq, ℕ_eq, Bool, ◌&&◌, Option,
  none, some, List, [], ◌∷◌, ◌==◌, arith, count, update, Bool-cases,
}
use signalyard.Platform.Exec.{
  Error, conflict, failed, Result, ok, err, Exec, ◌>>=◌, pure, ◌or_else◌, ignore, Response,
  write_json, write_error, serve,
}
use signalyard.Platform.Database.{Db, ProposalRow, SchemaRow, CategoryRow}
use signalyard.Platform.Auth.{Identity, name}
use signalyard.Platform.World.{Env, World, statement}
use signalyard.Platform.Keeps.{Preorder, Keeps}
use signalyard.Platform.KeepsDb.{tables, tables_rules, Keeps-statement}
use signalyard.Platform.Inversion.{>>=-eq-ok, or_else-eq-ok}
use signalyard.Registry.CommitTables.{commit-Keeps}
use signalyard.Registry.Handlers.{Server, Reply, approved}
use signalyard.Registry.Handlers.Review.{approve, decide, notify, audited_user}
use signalyard.Registry.Handlers.SchemaRoutes.{commit_new_schema_version}
use signalyard.Registry.Proposals.{
  Proposal, is_pending_proposal, finalized, finalize_proposal, audit_log,
}
use signalyard.Registry.Published.{IsPublished, commit_new_schema_version-IsPublished}
use signalyard.Registry.Schemas.{
  Schema, find_category, versions_of, head_row, scan_schema, active_schema,
}

-- The tables have the same active schemas and the same proposals.
pub record SameOutcome (d e : Db) : Type 0 where
  pub active : (category : String) → active_schema category e ≡ active_schema category d
  pub proposals : e.schema_proposals ≡ d.schema_proposals

outcome_preorder : Preorder SameOutcome
outcome_preorder = record {
  reflexive = λ d. record { active = λ c. refl; proposals = refl };
  transitive = λ a b c f g. record {
    active = λ x. g.active x ∙ f.active x;
    proposals = g.proposals ∙ f.proposals;
  };
}

still-IsPublished :
    {d e : Db} {category yaml actor : String} {schema : signalyard.Platform.Json.Object} {v : ℕ}
    → active_schema category e ≡ active_schema category d
    → IsPublished category schema yaml actor v d
    → IsPublished category schema yaml actor v e
still-IsPublished h k = record {
  row = k.row;
  active = h ∙ k.active;
  json = k.json;
  routing = k.routing;
  author = k.author;
  number = k.number;
}

abbrev pub has_status : ℕ → String → ProposalRow → Bool
has_status id status r = (r.id == id) && (r.status == status)

count-finalized :
    (id : ℕ) (s r n : String) (o : Option ℕ) (rows : List ProposalRow)
    → 1 ≤ count (is_pending_proposal id) rows
    → 1 ≤ count (has_status id s) (update (is_pending_proposal id) (finalized s r n o) rows)
unfolding count update is_pending_proposal finalized
count-finalized id s r n o [] h = ground arith
count-finalized id s r n o (x ∷ rows) h = ground (arith, count-finalized id s r n o rows, eq_refl s)

versions-same :
    (p : SchemaRow → Bool) (o : Option CategoryRow) (d e : Db)
    → e.schemas ≡ d.schemas
    → versions_of p o e ≡ versions_of p o d
unfolding versions_of
versions-same p none d e h = refl
versions-same p (some c) d e h = rw h refl

category-same :
    (c : String) (d e : Db) → e.categories ≡ d.categories → find_category c e ≡ find_category c d
unfolding find_category
category-same c d e f = rw f refl

active_schema-same :
    (c : String) (d e : Db)
    → e.categories ≡ d.categories
    → e.schemas ≡ d.schemas
    → active_schema c e ≡ active_schema c d
unfolding active_schema
active_schema-same c d e f g =
    ap
      (λ rows. elim (head_row rows) as (λ _. Option Schema) [
        | none ↦ none
        | some r ↦ some (scan_schema c r)
      ])
      (ap (λ o. versions_of (λ r. r.is_active) o e) (category-same c d e f)
        ∙ versions-same (λ r. r.is_active) (find_category c d) d e g)

module _ ⦃env : Env⦄ where
  audit_log-SameOutcome :
      (id : ℕ) (u : Option ℕ) (a n : String) → Keeps tables SameOutcome (audit_log id u a n)
  unfolding audit_log
  audit_log-SameOutcome id u a n = Keeps-statement outcome_preorder _ λ k d. record {
    active = λ c. active_schema-same c d _ (ground arith) (ground arith);
    proposals = ground arith;
  }

  notify-SameOutcome :
      (p : Proposal) (sc : Schema) (r : String) → Keeps tables SameOutcome (notify p sc r)
  unfolding notify
  notify-SameOutcome p sc r = search (tables_rules, outcome_preorder)

  finalize-active :
      (id : ℕ) (s r n : String) (o : Option ℕ) (w : World) (c : String)
      → active_schema c (finalize_proposal id s r n o w).1.db ≡ active_schema c w.db
  unfolding finalize_proposal statement
  finalize-active id s r n o w c = active_schema-same c w.db _ (ground arith) (ground arith)

  finalize-eq-ok :
      (id : ℕ) (s r n : String) (o : Option ℕ) (w w' : World) (u : Unit {0})
      → finalize_proposal id s r n o w ≡ (ok u, w')
      → 1 ≤ count (has_status id s) w'.db.schema_proposals
  unfolding finalize_proposal statement
  finalize-eq-ok id s r n o w w' u h =
      ground (arith, count-finalized id s r n o w.db.schema_proposals)

  -- A proposal that is not pending is not finalized.
  finalize-decided :
      (id : ℕ) (s r n : String) (o : Option ℕ) (w : World)
      → count (is_pending_proposal id) w.db.schema_proposals ≡ 0
      → (e : Error) × ((finalize_proposal id s r n o w).0 ≡ err e)
  unfolding finalize_proposal statement
  finalize-decided id s r n o w h = elim (Bool-cases (env.db_fails w.calls)) [
    | inl e ↦ (failed, rw e refl)
    | inr e ↦ (conflict, rw (e, h) refl)
  ]

ok-inj : {E A : Type 0} (x y : A) → ◌≡◌ {A = Result E A} (ok x) (ok y) → x ≡ y
ok-inj x y h = cc

proposals_preorder : Preorder (λ (d e : Db). e.schema_proposals ≡ d.schema_proposals)
proposals_preorder = record { reflexive = λ d. refl; transitive = λ a b c p q. q ∙ p }

-- An approval that is answered with success has made the proposed schema the active version of the proposed
-- category, in the reviewer's name and with the version number that the reply states, and a row with the
-- proposal's id has the status approved.
pub decide-approve-IsPublished :
    ⦃env : Env⦄ (s : Server) (id : Identity) (p : Proposal) (notes : String) (w w' : World)
    (r : Response Reply)
    → decide approve s id p notes w ≡ (ok r, w')
    → (v : ℕ) × (r ≡ write_json 200 (approved (env.uuid_string p.id) v))
      × IsPublished p.category p.json_schema_patch p.routing_yaml_diff (name id) v w'.db
      × (1 ≤ count (has_status p.id "approved") w'.db.schema_proposals)
unfolding decide ignore pure ◌or_else◌
decide-approve-IsPublished s id p notes w w' r h =
    let m =
      commit_new_schema_version s p.category p.json_schema_patch p.routing_yaml_diff (name id) in
    let (sc, a, b) =
      >>=-eq-ok (m or_else (λ _. write_error 500 "failed to create schema version")) _ w w' r h in
    let k =
      commit_new_schema_version-IsPublished s p.category p.json_schema_patch p.routing_yaml_diff
        (name id) w _ sc (or_else-eq-ok m _ w _ sc a) in
    let n : Exec Error World (Unit {0}) =
      finalize_proposal p.id "approved" (name id) notes (some sc.id) in
    let w1 = (m w).1 in
    let (u, c, d) =
      >>=-eq-ok (n or_else (λ _. write_error 500 "failed to finalize proposal")) _ w1 w' r b in
    let t = or_else-eq-ok n _ w1 _ u c in
    let w2 = (n w1).1 in
    let l = audit_log p.id (audited_user id id.kind) "approve" notes in
    let (u', e, f) = >>=-eq-ok (ignore l) _ w2 w' r d in
    let w3 = (l w2).1 in
    let (x, g, i) = >>=-eq-ok (notify p sc (name id)) _ w3 w' r f in
    let q =
      outcome_preorder.transitive _ _ _ ((audit_log-SameOutcome p.id _ "approve" notes).at w2)
        ((notify-SameOutcome p sc (name id)).at w3) in
    let z : ((notify p sc (name id) w3).1.db ≡ w'.db) = ap (λ v. v.1.db) i in
    (
      sc.version,
      ok-inj _ _ (sym (ap (λ v. v.0) i)),
      still-IsPublished
          (ap (active_schema p.category) (sym z)
            ∙ q.active p.category
            ∙ finalize-active p.id "approved" (name id) notes (some sc.id) w1 p.category)
          k,
      subst (λ rows. 1 ≤ count (has_status p.id "approved") rows)
          (sym q.proposals ∙ ap (λ v. v.schema_proposals) z)
          (finalize-eq-ok p.id "approved" (name id) notes (some sc.id) w1 w2 u t),
    )

-- Two decisions at once: an approval that finds its proposal no longer pending (another decision was
-- stored after the check of the status), and whose schema version could be committed, answers 500 and yet
-- leaves the proposed schema as the active version of the category.
pub decide-approve_late :
    ⦃env : Env⦄ (s : Server) (id : Identity) (p : Proposal) (notes : String) (w w' : World)
    (sc : Schema)
    → count (is_pending_proposal p.id) w.db.schema_proposals ≡ 0
    → commit_new_schema_version s p.category p.json_schema_patch p.routing_yaml_diff (name id) w
      ≡ (ok sc, w')
    → (serve (decide approve s id p notes) w).0 ≡ write_error 500 "failed to finalize proposal"
      × IsPublished p.category p.json_schema_patch p.routing_yaml_diff
          (name id)
          sc.version
          (serve (decide approve s id p notes) w).1.db
unfolding decide ◌>>=◌ ◌or_else◌
decide-approve_late s id p notes w w' sc h c =
    let k =
      commit_new_schema_version-IsPublished s p.category p.json_schema_patch p.routing_yaml_diff
        (name id) w w' sc c in
    let same =
      ((commit-Keeps proposals_preorder (λ d c s. refl) s p.category p.json_schema_patch
          p.routing_yaml_diff (name id)).at
        w) in
    let none_left : (count (is_pending_proposal p.id) w'.db.schema_proposals ≡ 0) =
      ap (λ z. count (is_pending_proposal p.id) z.1.db.schema_proposals) (sym c)
      ∙ ap (count (is_pending_proposal p.id)) same
      ∙ h in
    let (e, f) = finalize-decided p.id "approved" (name id) notes (some sc.id) w' none_left in
    rw (c, f)
      (
        refl,
        still-IsPublished
            (finalize-active p.id "approved" (name id) notes (some sc.id) w' p.category) k,
      )
