-- ===== src/Registry/Git/Tables.antt =====
-- A git commit changes no table.
use signalyard.Common.{ℕ, String, Bool, true, false, Option, none, some, Bool-cases, inl, inr}
use signalyard.Platform.Json.{Object}
use signalyard.Platform.Database.{Db}
use signalyard.Platform.World.{Env}
use signalyard.Platform.Keeps.{Preorder, Keeps, keeps_rules}
use signalyard.Platform.KeepsDb.{tables}
use signalyard.Registry.Git.{
  Repo, Git, noop, go_git, git_step, git_commit, git_push, checked, go_commit_schema, commit_schema,
}

module _ ⦃env : Env⦄ {R : Db → Db → Type 0} (o : Preorder R) where
  Keeps-git_step : Keeps tables R git_step
  unfolding git_step
  Keeps-git_step = record {
    at = λ w. elim (Bool-cases (env.git_fails w.calls)) [
      | inl e ↦ rw e (o.reflexive w.db)
      | inr e ↦ rw e (o.reflexive w.db)
    ];
  }

  Keeps-git_commit :
      (repo : Repo) (category : String) (version : ℕ) (schema : Object) (yaml : String)
      → Keeps tables R (git_commit repo category version schema yaml)
  unfolding git_commit
  Keeps-git_commit repo category version schema yaml = record {
    at = λ w. elim (Bool-cases (env.git_fails w.calls)) [
      | inl e ↦ rw e (o.reflexive w.db)
      | inr e ↦ rw e (o.reflexive w.db)
    ];
  }

  Keeps-git_push : (remote : Bool) → Keeps tables R (git_push remote)
  unfolding git_push
  Keeps-git_push false = record { at = λ w. o.reflexive w.db }
  Keeps-git_push true = record {
    at = λ w. elim (Bool-cases (env.git_fails w.calls)) [
      | inl e ↦ rw e (o.reflexive w.db)
      | inr e ↦ rw e (o.reflexive w.db)
    ];
  }

  Keeps-checked : (c : Option String) → Keeps tables R (checked c)
  unfolding checked
  Keeps-checked none = record { at = λ w. o.reflexive w.db }
  Keeps-checked (some c) = record { at = λ w. o.reflexive w.db }

  go_commit_schema-Keeps :
      (repo : Repo) (category : String) (version : ℕ) (schema : Object) (yaml : String)
      → Keeps tables R (go_commit_schema repo category version schema yaml)
  unfolding go_commit_schema
  go_commit_schema-Keeps repo category version schema yaml =
      search (keeps_rules, Keeps-git_step, Keeps-git_commit, Keeps-git_push, Keeps-checked) depth 12

  pub commit_schema-Keeps :
      (git : Git) (category : String) (version : ℕ) (schema : Object) (yaml : String)
      → Keeps tables R (commit_schema git category version schema yaml)
  unfolding commit_schema
  commit_schema-Keeps noop category version schema yaml = search keeps_rules
  commit_schema-Keeps (go_git repo) category version schema yaml =
      go_commit_schema-Keeps repo category version schema yaml
