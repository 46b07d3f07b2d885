-- ===== src/Tests/Registry.antt =====
-- The registry at concrete inputs.
use signalyard.Common.{
  ℕ, suc, ◌≤◌, ◌≡◌, refl, ap, find, update, max_of, inl, true, none, some, count, arith, ℕ_eq,
}
use signalyard.Platform.Exec.{
  Error, ◌>>=◌, pure, Result, ok, serve, Response, write_json, write_error,
}
use signalyard.Platform.Json.{end}
use signalyard.Platform.Database.{empty, CategoryRow}
use signalyard.Platform.World.{World, start, transaction, statement, time_now, publish}
use signalyard.Registry.Approval.{has_status, decide-approve-IsPublished, decide-approve_late}
use signalyard.Registry.Git.{commit_schema}
use signalyard.Platform.Auth.{name}
use signalyard.Registry.Handlers.{Reply, approved}
use signalyard.Registry.Handlers.Review.{approve, decide, notify}
use signalyard.Registry.Handlers.SchemaRoutes.{commit_new_schema_version}
use signalyard.Registry.NewVersion.{
  active_schema-create_schema_version, version-create_schema_version,
}
use signalyard.Registry.Proposals.{
  Proposal, scan_proposal, finalize_proposal, is_pending_proposal, audit_log,
}
use signalyard.Registry.Published.{IsPublished, commit_new_schema_version-IsPublished}
use signalyard.Registry.Schemas.{
  Schema, active_schema, create_schema_version, find_category, of_category,
}
use signalyard.Registry.Versions.{IsVersioned, newest}
use signalyard.Tests.Setup.{test_env, test_crypto, server, approver, proposal_with, with_proposal}

pub empty-IsVersioned : IsVersioned empty
unfolding count
empty-IsVersioned = record {
  in_category = λ c. record {
    one_active = omega arith;
    distinct = λ v. omega arith;
    active_newest = inl refl;
  };
}

abbrev created : Result Error Schema × World
created = create_schema_version "auth" end "target: loki" "ann@example.org" "" (start empty)

abbrev first_schema : Schema
first_schema = record {
  id = 13;
  category = "auth";
  version = 1;
  json_schema = end;
  routing_yaml = "target: loki";
  git_commit = "";
  is_active = true;
  created_by = "ann@example.org";
  created_at = 103;
}

first_result : created.0 ≡ ok first_schema
unfolding create_schema_version ◌>>=◌ transaction statement pure find update max_of
first_result = refl

created_first : created ≡ (ok first_schema, created.1)
created_first = ap (λ r. (r, created.1)) first_result

active_schema-create_schema_version_example : active_schema "auth" created.1.db ≡ some first_schema
active_schema-create_schema_version_example =
    active_schema-create_schema_version "auth" end "target: loki" "ann@example.org" "" (start empty)
      created.1 first_schema created_first

abbrev recreated : Result Error Schema × World
recreated = create_schema_version "auth" end "target: tempo" "bob@example.org" "" created.1

abbrev second_schema : Schema
second_schema = record first_schema {
  id = 18;
  version = 2;
  routing_yaml = "target: tempo";
  created_by = "bob@example.org";
  created_at = 108;
}

abbrev auth_category : CategoryRow
auth_category = record { id = 11; name = "auth"; description = none; created_at = 101 }

second_result : recreated.0 ≡ ok second_schema
unfolding create_schema_version ◌>>=◌ transaction statement pure find update max_of
second_result = refl

auth_found : find_category "auth" created.1.db ≡ some auth_category
unfolding create_schema_version ◌>>=◌ transaction statement pure find update max_of find_category
auth_found = refl

version-create_schema_version_example :
    second_schema.version ≡ suc (newest (of_category auth_category.id) created.1.db.schemas)
version-create_schema_version_example =
    version-create_schema_version "auth" end "target: tempo" "bob@example.org" "" created.1
      recreated.1 second_schema auth_category (ap (λ r. (r, recreated.1)) second_result) auth_found

-- The fourth statement fails.
abbrev committed : World → Result Error Schema × World
committed w = commit_new_schema_version server "auth" end "target: loki" "ann@example.org" w

committed_result : (committed (start empty)).0 ≡ ok first_schema
unfolding commit_new_schema_version create_schema_version ◌>>=◌ transaction statement pure find
    update max_of commit_schema
committed_result = refl

commit_new_schema_version-IsPublished_example :
    IsPublished "auth" end "target: loki" "ann@example.org" 1 (committed (start empty)).1.db
commit_new_schema_version-IsPublished_example =
    commit_new_schema_version-IsPublished server "auth" end "target: loki" "ann@example.org"
      (start empty) (committed (start empty)).1 first_schema
      (ap (λ r. (r, (committed (start empty)).1)) committed_result)

abbrev proposed : Proposal
proposed = scan_proposal (proposal_with "pending")

abbrev decided : Result (Response Reply) (Response Reply) × World
decided = decide approve server approver proposed "fine" (with_proposal "pending")

decided_result : decided.0 ≡ ok (write_json 200 (approved "id" 1))
unfolding decide commit_new_schema_version create_schema_version ◌>>=◌ transaction statement pure
    find update max_of finalize_proposal count scan_proposal audit_log notify commit_schema name
    time_now publish
decided_result = refl

decide-approve-IsPublished_example :
    (v : ℕ) × (write_json 200 (approved "id" 1)
      ≡ write_json 200 (approved (test_env.uuid_string proposed.id) v))
    × IsPublished proposed.category proposed.json_schema_patch proposed.routing_yaml_diff
        (name approver)
        v
        decided.1.db
    × (1 ≤ count (has_status proposed.id "approved") decided.1.db.schema_proposals)
decide-approve-IsPublished_example =
    decide-approve-IsPublished server approver proposed "fine" (with_proposal "pending") decided.1
      (write_json 200 (approved "id" 1)) (ap (λ r. (r, decided.1)) decided_result)

none_pending :
    count (is_pending_proposal proposed.id) (with_proposal "rejected").db.schema_proposals ≡ 0
unfolding count is_pending_proposal scan_proposal
none_pending = refl

late_result :
    (commit_new_schema_version server proposed.category proposed.json_schema_patch
      proposed.routing_yaml_diff
      (name approver)
      (with_proposal "rejected")).0
    ≡ ok first_schema
unfolding commit_new_schema_version create_schema_version ◌>>=◌ transaction statement pure find
    update max_of scan_proposal name commit_schema
late_result = refl

decide-approve_late_example :
    ((serve (decide approve server approver proposed "fine") (with_proposal "rejected")).0
      ≡ write_error 500 "failed to finalize proposal")
    × IsPublished proposed.category proposed.json_schema_patch proposed.routing_yaml_diff
        (name approver)
        1
        (serve (decide approve server approver proposed "fine") (with_proposal "rejected")).1.db
decide-approve_late_example =
    decide-approve_late server approver proposed "fine" (with_proposal "rejected") _ first_schema
      none_pending
      (ap
        (λ r. (
          r,
          (commit_new_schema_version server proposed.category proposed.json_schema_patch
              proposed.routing_yaml_diff (name approver) (with_proposal "rejected")).1,
        ))
        late_result)
