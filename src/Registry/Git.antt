-- ===== src/Registry/Git.antt =====
-- internal/registry/git.go: the audit repository of schema changes.
pub mod Tables
pub mod Open
use signalyard.Common.{
  ℕ, suc, String, String_eq, ℕ_eq, Bool, true, false, ◌||◌, not, Option, none, some, [], ◌∷◌, ◌++◌,
  nat_eq, ◌==◌, if◌then◌else◌,
}
use Prim.Native.Char.{code}
use signalyard.Platform.Exec.{Error, failed, ok, err, Exec, ◌>>=◌, ◌>>◌, pure}
use signalyard.Platform.Json.{Object}
use signalyard.Platform.World.{Env, World, next}

-- strings.ContainsAny(s, `/\`)
unfoldable pub has_slash : String → Bool
has_slash String.[] = false
has_slash (String.◌∷◌ c s) = nat_eq (code c) b'/' || nat_eq (code c) 92 || has_slash s

begins_with_dot : String → Bool
begins_with_dot String.[] = false
begins_with_dot (String.◌∷◌ c s) = nat_eq (code c) b'.'

-- strings.Contains(s, "..")
unfoldable pub has_dots : String → Bool
unfolding begins_with_dot
has_dots String.[] = false
has_dots (String.◌∷◌ c s) =
    (if nat_eq (code c) b'.' then begins_with_dot s else false) || has_dots s

-- `base` is filepath.Base.
unfoldable pub safe_category : (base : String → String) → String → Option String
unfolding has_slash has_dots
safe_category base category =
    if (category == "")
      || not (category == base category)
      || has_slash category
      || has_dots category
    then none
    else some category

pub record Repo : Type 0 where
  pub base : String → String  -- filepath.Base
  pub remote : Bool
  pub sha : ℕ → String  -- of the n-th commit

pub data Git : Type 0 where
  noop : Git
  go_git : Repo → Git

module _ ⦃env : Env⦄ where
  -- A file operation, `Worktree` or `Add`: it may fail, and leaves no commit.
  unfoldable pub git_step : Exec Error World (Unit {0})
  git_step w = if env.git_fails w.calls then (err failed, next w) else (ok tt, next w)

  git_commit : Repo → String → ℕ → Object → String → Exec Error World String
  git_commit repo category version json_schema routing_yaml w =
      if env.git_fails w.calls then (err failed, next w) else (
        ok (repo.sha w.calls),
        record w {
          calls = suc w.calls;
          commits =
              w.commits
              ++ record {
                category = category;
                version = version;
                json_schema = json_schema;
                routing_yaml = routing_yaml;
              }
                ∷ [];
        },
      )

  git_push : Bool → Exec Error World (Unit {0})
  git_push false w = (ok tt, w)
  git_push true w =
      if env.git_fails w.calls
      then (err failed, next w)
      else (ok tt, record w { calls = suc w.calls; pushes = suc w.pushes })

  checked : Option String → Exec Error World String
  checked none w = (err failed, w)
  checked (some c) w = (ok c, w)

  -- GoGit.CommitSchema: MkdirAll, two WriteFile, Worktree, two Add, Commit, Push.
  unfoldable pub go_commit_schema : Repo → String → ℕ → Object → String → Exec Error World String
  unfolding git_step git_commit git_push checked safe_category
  go_commit_schema repo category version json_schema routing_yaml = do
    c ← checked (safe_category repo.base category)
    git_step
    git_step
    git_step
    git_step
    git_step
    git_step
    sha ← git_commit repo c version json_schema routing_yaml
    git_push repo.remote
    pure sha

  -- GitCommitter.CommitSchema; NoopGit makes no commit and returns no SHA.
  unfoldable pub commit_schema : Git → String → ℕ → Object → String → Exec Error World String
  unfolding go_commit_schema
  commit_schema noop category version json_schema routing_yaml = pure ""
  commit_schema (go_git repo) category version json_schema routing_yaml =
      go_commit_schema repo category version json_schema routing_yaml
