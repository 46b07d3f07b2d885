-- ===== src/Registry/Proposals.antt =====
-- internal/registry/store.go: proposals and the approval audit log.
use signalyard.Common.{
  ℕ, zero, suc, String, ℕ_eq, String_eq, Bool, true, ◌&&◌, Option, none, some, List, [], ◌∷◌, ◌++◌,
  map, take, leb, get_or, is_some, ◌==◌, if◌then◌else◌, select, find, update, count, order_by,
}
use signalyard.Platform.Exec.{Error, conflict, failed, ok, err, Exec}
use signalyard.Platform.Json.{Object}
use signalyard.Platform.Database.{Db, ProposalRow, AuditRow}
use signalyard.Platform.World.{Env, World, query, query_row, statement}

pub record Proposal : Type 0 where
  pub id : ℕ
  pub category : String
  pub status : String
  pub generated_by : String
  pub json_schema_patch : Object
  pub routing_yaml_diff : String
  pub confidence : Option String
  pub reviewed_by : String
  pub reviewer_notes : String
  pub created_at : ℕ

-- The notes are kept in the column diff.
unfoldable pub scan_proposal : ProposalRow → Proposal
scan_proposal r = record {
  id = r.id;
  category = r.proposed_category_name;
  status = r.status;
  generated_by = r.classifier_agent_name;
  json_schema_patch = r.proposed_json_schema;
  routing_yaml_diff = r.proposed_routing_yaml;
  confidence = r.confidence;
  reviewed_by = get_or r.reviewed_by "";
  reviewer_notes = get_or r.diff "";
  created_at = r.created_at;
}

-- Whether a nullable foreign key is NULL or names a row.
unfoldable pub refers_to_quarantine : Option ℕ → Db → Bool
refers_to_quarantine none d = true
refers_to_quarantine (some q) d = is_some (find (λ r. r.id == q) d.quarantine_events)

unfoldable pub refers_to_user : Option ℕ → Db → Bool
refers_to_user none d = true
refers_to_user (some u) d = is_some (find (λ r. r.id == u) d.users)

unfoldable pub refers_to_schema : Option ℕ → Db → Bool
refers_to_schema none d = true
refers_to_schema (some s) d = is_some (find (λ r. r.id == s) d.schemas)

unfoldable pub find_proposal : ℕ → Db → Option ProposalRow
find_proposal id d = find (λ r. r.id == id) d.schema_proposals

unfoldable pub is_pending_proposal : ℕ → ProposalRow → Bool
is_pending_proposal id r = (r.id == id) && (r.status == "pending")

unfoldable pub finalized : String → String → String → Option ℕ → ProposalRow → ProposalRow
finalized status reviewer notes schema r = record r {
  status = status;
  reviewed_by = some reviewer;
  diff = some notes;
  resulting_schema_id = schema;
}

abbrev status_is : String → ProposalRow → Bool
status_is status r = if status == "" then true else r.status == status

abbrev newer_proposal : ProposalRow → ProposalRow → Bool
newer_proposal a b = leb b.created_at a.created_at

scan_found : Option ProposalRow → Option Proposal
unfolding scan_proposal
scan_found none = none
scan_found (some r) = some (scan_proposal r)

module _ ⦃env : Env⦄ where
  -- The first sample id that parses.
  unfoldable pub first_uuid : List String → Option ℕ
  first_uuid [] = none
  first_uuid (s ∷ rest) = elim (env.uuid_parse s) [ some id ↦ some id | none ↦ first_uuid rest ]

  unfoldable pub create_proposal :
      (category generated_by : String)
      → Object
      → (routing_diff : String) → List String
      → Option String
      → Exec Error World Proposal
  unfolding first_uuid refers_to_quarantine scan_proposal
  create_proposal category generated_by patch routing_diff samples confidence =
      let quarantine_id = first_uuid samples in
      statement λ n d.
        let r : ProposalRow = record {
          id = env.new_uuid n;
          quarantine_event_id = quarantine_id;
          proposed_category_name = category;
          proposed_json_schema = patch;
          proposed_routing_yaml = routing_diff;
          diff = none;
          classifier_agent_name = generated_by;
          confidence = confidence;
          status = "pending";
          reviewed_by = none;
          resulting_schema_id = none;
          created_at = env.now n;
        } in
        if refers_to_quarantine quarantine_id d
        then (ok (scan_proposal r), record d { schema_proposals = d.schema_proposals ++ r ∷ [] })
        else (err failed, d)

  unfoldable pub list_proposals : String → Exec Error World (List Proposal)
  unfolding scan_proposal
  list_proposals status = query (λ d.
      map scan_proposal (order_by newer_proposal (select (status_is status) d.schema_proposals)))

  unfoldable pub get_proposal : ℕ → Exec Error World Proposal
  unfolding find_proposal scan_found
  get_proposal id = query_row (λ d. scan_found (find_proposal id d))

  -- Only a pending proposal changes; no row affected is a conflict. The foreign key is checked for a row that
  -- changes.
  unfoldable pub finalize_proposal :
      ℕ → (status reviewer notes : String) → Option ℕ → Exec Error World (Unit {0})
  unfolding is_pending_proposal finalized refers_to_schema
  finalize_proposal id status reviewer notes schema = statement λ n d.
      elim (count (is_pending_proposal id) d.schema_proposals) [
        | zero ↦ (err conflict, d)
        | suc k ↦
            if refers_to_schema schema d
            then (
              ok tt,
              record d {
                schema_proposals =
                    update (is_pending_proposal id) (finalized status reviewer notes schema)
                      d.schema_proposals;
              },
            )
            else (err failed, d)
      ]

pub record AuditEntry : Type 0 where
  pub id : ℕ
  pub proposal_id : ℕ
  pub category : String
  pub user_id : Option ℕ
  pub action : String
  pub notes : String
  pub created_at : ℕ

-- LEFT JOIN schema_proposals
audit_view : Db → AuditRow → AuditEntry
unfolding find_proposal
audit_view d a = record {
  id = a.id;
  proposal_id = a.proposal_id;
  category = elim (find_proposal a.proposal_id d) [ none ↦ "" | some p ↦ p.proposed_category_name ];
  user_id = a.user_id;
  action = a.action;
  notes = a.notes;
  created_at = a.created_at;
}

of_proposal : Option ℕ → AuditRow → Bool
of_proposal none a = true
of_proposal (some id) a = a.proposal_id == id

abbrev newer_entry : AuditRow → AuditRow → Bool
newer_entry a b = leb b.created_at a.created_at

module _ ⦃env : Env⦄ where
  unfoldable pub list_audit_log : Option ℕ → Exec Error World (List AuditEntry)
  unfolding audit_view of_proposal
  list_audit_log proposal_id = query λ d.
      map (audit_view d)
        (take 200 (order_by newer_entry (select (of_proposal proposal_id) d.approval_audit_log)))

  -- Both foreign keys are checked.
  unfoldable pub audit_log : ℕ → Option ℕ → (action notes : String) → Exec Error World (Unit {0})
  unfolding find_proposal refers_to_user
  audit_log proposal_id user_id action notes = statement λ n d.
      let r : AuditRow = record {
        id = env.new_uuid n;
        proposal_id = proposal_id;
        user_id = user_id;
        action = action;
        notes = notes;
        created_at = env.now n;
      } in
      if is_some (find_proposal proposal_id d) && refers_to_user user_id d
      then (ok tt, record d { approval_audit_log = d.approval_audit_log ++ r ∷ [] })
      else (err failed, d)
