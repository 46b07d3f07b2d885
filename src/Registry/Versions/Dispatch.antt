-- ===== src/Registry/Versions/Dispatch.antt =====
-- The requests of internal/registry/server.go and the invariant of the schema table.
use signalyard.Common.{ℕ, ◌≡◌, String, Option, List, arith}
use signalyard.Platform.Exec.{Error, Result}
use signalyard.Platform.Json.{Object}
use signalyard.Platform.Database.{Db}
use signalyard.Platform.World.{Env, statement}
use signalyard.Platform.KeepsDb.{Preserving, Keeps-statement}
use signalyard.Registry.Proposals.{create_proposal, finalize_proposal, audit_log}
use signalyard.Registry.Agents.{create_agent, update_agent, delete_agent}
use signalyard.Registry.Dispatch.{WritesKeep}
use signalyard.Registry.Versions.{IsVersioned}
use signalyard.Registry.Versions.Routes.{
  Stays, preorder, commit_new_schema_version-Stays, delete_category-Stays,
}

pub same_schemas : (d e : Db) → e.schemas ≡ d.schemas → IsVersioned d → IsVersioned e
same_schemas d e p v = record { in_category = λ k. rw p (v.in_category k) }

module _ ⦃env : Env⦄ where
  other_table :
      {A : Type 0} (f : ℕ → Db → Result Error A × Db)
      → ((n : ℕ) (d : Db) → (f n d).1.schemas ≡ d.schemas)
      → Stays (statement f)
  other_table f h = Keeps-statement preorder f λ n d. same_schemas d (f n d).1 (h n d)

  create_proposal-Stays :
      (c g : String) (o : Object) (r : String) (s : List String) (n : Option String)
      → Stays (create_proposal c g o r s n)
  unfolding create_proposal
  create_proposal-Stays c g o r s n = other_table _ (λ k d. ground arith)

  finalize_proposal-Stays :
      (id : ℕ) (s r n : String) (o : Option ℕ) → Stays (finalize_proposal id s r n o)
  unfolding finalize_proposal
  finalize_proposal-Stays id s r n o = other_table _ (λ k d. ground arith)

  audit_log-Stays : (id : ℕ) (u : Option ℕ) (a n : String) → Stays (audit_log id u a n)
  unfolding audit_log
  audit_log-Stays id u a n = other_table _ (λ k d. ground arith)

  create_agent-Stays : (n d : String) (c : List String) → Stays (create_agent n d c)
  unfolding create_agent
  create_agent-Stays n d c = other_table _ (λ k d. ground arith)

  update_agent-Stays :
      (id : ℕ) (n s : String) (c : Option (List String)) → Stays (update_agent id n s c)
  unfolding update_agent
  update_agent-Stays id n s c = other_table _ (λ k d. ground arith)

  delete_agent-Stays : (id : ℕ) → Stays (delete_agent id)
  unfolding delete_agent
  delete_agent-Stays id = other_table _ (λ k d. ground arith)

  pub writes-Stay : WritesKeep (Preserving IsVersioned)
  writes-Stay = record {
    commit = commit_new_schema_version-Stays;
    delete_schemas = delete_category-Stays;
    propose = create_proposal-Stays;
    finalize = finalize_proposal-Stays;
    audit = audit_log-Stays;
    add_agent = create_agent-Stays;
    change_agent = update_agent-Stays;
    remove_agent = delete_agent-Stays;
  }
