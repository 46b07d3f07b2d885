-- ===== src/Registry/Git/Open.antt =====
-- internal/registry/git.go: opening or cloning the schema repository at the start.
use signalyard.Common.{
  String, String_eq, Bool, ◌&&◌, ◌||◌, not, is_some, cut_prefix, ◌==◌, if◌then◌else◌,
}
use signalyard.Platform.Exec.{Error, Exec, ◌>>◌, pure}
use signalyard.Platform.World.{Env, World}
use signalyard.Registry.Git.{Repo, Git, noop, go_git, git_step}
use signalyard.Registry.Settings.{Settings}

-- strings.HasPrefix
unfoldable pub has_prefix : (s prefix : String) → Bool
has_prefix s prefix = is_some (cut_prefix prefix s)

-- strings.Contains
unfoldable pub contains : (s part : String) → Bool
unfolding has_prefix
contains String.[] part = has_prefix String.[] part
contains (String.◌∷◌ c s) part = has_prefix (String.◌∷◌ c s) part || contains s part

unfoldable pub is_local : String → Bool
unfolding contains
is_local repo_url = not (contains repo_url "://") && not (has_prefix repo_url "git@")

module _ ⦃env : Env⦄ where
  -- os.MkdirTemp
  temp_dir : String → Exec Error World (Unit {0})
  temp_dir work_dir = if work_dir == "" then git_step else pure tt

  -- os.ReadFile and ssh.NewPublicKeys
  read_key : String → String → Exec Error World (Unit {0})
  read_key repo_url key_path =
      if not (key_path == "") && has_prefix repo_url "git@"
      then (do git_step; git_step)
      else pure tt

  -- NewGoGit: the last step is PlainOpen or PlainCloneContext. `repo` has what the libraries give.
  unfoldable pub new_go_git : Repo → (repo_url key_path work_dir : String) → Exec Error World Git
  unfolding temp_dir read_key is_local git_step
  new_go_git repo repo_url key_path work_dir = do
    temp_dir work_dir
    read_key repo_url key_path
    git_step
    pure (go_git (record repo { remote = not (is_local repo_url) }))

  -- NewGitCommitter
  unfoldable pub new_git_committer : Repo → Settings → Exec Error World Git
  unfolding new_go_git
  new_git_committer repo cfg =
      if cfg.git_repo_url == ""
      then pure noop
      else new_go_git repo cfg.git_repo_url cfg.git_ssh_key_path cfg.git_work_dir
