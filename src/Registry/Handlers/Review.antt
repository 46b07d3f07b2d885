-- ===== src/Registry/Handlers/Review.antt =====
-- The routes of proposals and of the audit log in internal/registry/handlers.go.
use Prim.Native.String.{◌++◌}
use signalyard.Common.{ℕ, String, String_eq, not, ◌||◌, Option, none, some, ◌==◌, if◌then◌else◌}
use signalyard.Platform.Exec.{
  Error, Exec, ◌>>=◌, ◌>>◌, pure, fail_if, ◌or_else◌, ignore, Response, write_json, write_error,
  Handler,
}
use signalyard.Platform.Messages.{schema_approved}
use signalyard.Platform.Auth.{Identity, Kind, user, name}
use signalyard.Platform.World.{Env, World, publish, time_now}
use signalyard.Registry.Schemas.{Schema}
use signalyard.Registry.Proposals.{
  Proposal, list_proposals, create_proposal, get_proposal, finalize_proposal, audit_log,
  list_audit_log,
}
use signalyard.Registry.Handlers.{
  Server, CreateProposalRequest, Reply, proposals, proposed, proposal, approved, entries,
  missing_or, decoded, required, parse_id,
}
use signalyard.Registry.Handlers.SchemaRoutes.{commit_new_schema_version}

pub data Decision : Type 0 where
  approve reject : Decision

module _ ⦃env : Env⦄ where
  unfoldable pub handle_list_proposals : String → Handler World Reply
  handle_list_proposals status = do
    out ← list_proposals status or_else (λ _. write_error 500 "list failed")
    pure (write_json 200 (proposals out))

  unfoldable pub handle_create_proposal : Option CreateProposalRequest → Handler World Reply
  handle_create_proposal body = do
    req ← decoded body "invalid JSON body"
    patch ←
        required req.json_schema_patch (req.category == "" || req.generated_by == "")
          "category, generated_by and json_schema_patch are required"
    p ←
        create_proposal req.category req.generated_by patch req.routing_yaml_diff
          req.sample_event_ids req.confidence
        or_else (λ _. write_error 500 "failed to store proposal")
    pure (write_json 201 (proposed (env.uuid_string p.id) p.status))

  unfoldable pub handle_get_proposal : String → Handler World Reply
  handle_get_proposal text = do
    id ← parse_id text "invalid proposal_id"
    p ← get_proposal id or_else missing_or "proposal not found" "lookup failed"
    pure (write_json 200 (proposal p))

  -- The audit log names human users only.
  unfoldable pub audited_user : Identity → Kind → Option ℕ
  audited_user id user = some id.user_id
  audited_user id _ = none

  -- PublishSchemaApproved; its error is dropped.
  unfoldable pub notify : Proposal → Schema → String → Exec (Response Reply) World (Unit {0})
  notify p sc reviewer = do
    now ← time_now
    ignore {E = Error} (
        publish "schema.approved" (
          schema_approved (record {
            category = p.category;
            version = sc.version;
            schema_id = sc.id;
            proposal_id = p.id;
            approved_by = reviewer;
            emitted_at = now;
          })))

  -- handleReview after the checks. A rejection writes no schema; an approval creates the version
  -- before the proposal is finalized.
  unfoldable pub decide :
      Decision → Server → Identity → Proposal → (notes : String) → Handler World Reply
  unfolding audited_user notify
  decide reject s identity p notes = do
    finalize_proposal p.id "rejected" (name identity) notes none
        or_else (λ _. write_error 500 "failed to reject proposal")
    ignore {E = Error} (audit_log p.id (audited_user identity identity.kind) "reject" notes)
    pure (write_json 200 (proposed (env.uuid_string p.id) "rejected"))
  decide approve s identity p notes = do
    sc ←
        commit_new_schema_version s p.category p.json_schema_patch p.routing_yaml_diff
          (name identity)
        or_else (λ _. write_error 500 "failed to create schema version")
    finalize_proposal p.id "approved" (name identity) notes (some sc.id)
        or_else (λ _. write_error 500 "failed to finalize proposal")
    ignore {E = Error} (audit_log p.id (audited_user identity identity.kind) "approve" notes)
    notify p sc (name identity)
    pure (write_json 200 (approved (env.uuid_string p.id) sc.version))

  -- The checks of handleReview: what they read may have changed when `decide` runs.
  unfoldable pub reviewable :
      String → Option String → Exec (Response Reply) World (Proposal × String)
  reviewable text body = do
    id ← parse_id text "invalid proposal_id"
    notes ← decoded body "reviewer_notes is required"
    p ← get_proposal id or_else missing_or "proposal not found" "lookup failed"
    fail_if (not (p.status == "pending")) (write_error 400 ("proposal already " ++ p.status))
    pure (p, notes)

  unfoldable pub decide_on : Decision → Server → Identity → Proposal × String → Handler World Reply
  unfolding decide
  decide_on decision s identity (p, notes) = decide decision s identity p notes

  -- handleReview; handleApproveProposal and handleRejectProposal fix the decision.
  unfoldable pub handle_review :
      Decision → Server → Identity → String → Option String → Handler World Reply
  unfolding reviewable decide_on
  handle_review decision s identity text body = do
    checked ← reviewable text body
    decide_on decision s identity checked

  unfoldable pub optional_id : String → Exec (Response Reply) World (Option ℕ)
  optional_id text =
      if text == ""
      then pure none
      else (do id ← parse_id text "invalid proposal_id"; pure (some id))

  unfoldable pub handle_list_audit_log : String → Handler World Reply
  unfolding optional_id
  handle_list_audit_log text = do
    id ← optional_id text
    out ← list_audit_log id or_else (λ _. write_error 500 "list failed")
    pure (write_json 200 (entries out))
