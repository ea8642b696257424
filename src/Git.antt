-- ===== src/Git.antt =====
-- zerg/git/base.py and zerg/git/ops.py: the git commands that merging uses. `W` is the outside
-- world. The program `git` is a parameter; its command lines are a data type, an argument each.
-- Messages of the log are left out, but not the git calls that they make.
pub mod Calls
pub mod Triple
pub mod Still
pub mod Changes
use zerg.Common.{
  ℕ, zero, suc, ◌+◌, Bool, true, false, not, ◌&&◌, ◌||◌, Option, none, some, List, [], ◌∷◌, ◌++◌,
  String, ◌==◌, nat_eq, string_eq, if◌then◌else◌, map,
}
use zerg.Git.Calls.{
  GitCommand, Problem, git_failed, git_timed_out, merge_conflict, other, Answer, done, raised, Act,
  pure, ◌>>=◌, ◌>>◌, raise, rescue,
}

-- What `subprocess.run` answers, its exceptions included.
pub data Output : Type 0 where
  exited : (returncode : ℕ) (stdout stderr : String) → Output
  timed_out : Output
  broke : (message : String) → Output

-- The program and the texts: `bool(text.strip())`, `text.strip()`, the lines of a text that are not
-- blank, stripped, the lines of a text cut at `|`, the names of branches
-- for a feature, and the messages of the merge commits.
pub record Git (W : Type 0) : Type 0 where
  pub run : GitCommand → W → Output × W
  pub has_text : String → Bool
  pub strip : String → String
  pub text_lines : String → List String
  pub fields : String → List (List String)
  pub staging_name : String → String
  pub worker_pattern : String → String
  pub feature_pattern : String → String
  pub merge_message : String → String → String
  pub complete_message : String → String

pub record BranchInfo : Type 0 where
  pub name : String
  pub commit : String
  pub is_current : Bool

abbrev pub output_or_error : Bool → String → String → Answer String
output_or_error has_failed out err = if has_failed then raised (git_failed err) else done out

-- `_run`; a command that is not checked may fail.
abbrev pub checked : Bool → GitCommand → {W : Type 0} → Output × W → Answer String × W
checked check c (exited code out err, w) = (output_or_error (check && not (code == 0)) out err, w)
checked check c (timed_out, w) = (raised (git_timed_out c), w)
checked check c (broke m, w) = (raised (other m), w)

module _ {W : Type 0} (git : Git W) where
  unfoldable pub run : Bool → GitCommand → Act W String
  run check c w = checked check c (git.run c w)

  unfoldable pub current_branch : Act W String
  current_branch = do out ← run true GitCommand.abbrev_head; pure (git.strip out)

  unfoldable pub get_commit : String → Act W String
  get_commit ref = do out ← run true (GitCommand.rev_parse ref); pure (git.strip out)

  abbrev pub current_commit : Act W String
  current_commit = get_commit "HEAD"

  unfoldable pub branch_exists : String → Act W Bool
  branch_exists branch = do out ← run false (GitCommand.branch_list branch); pure (git.has_text out)

  unfoldable pub create_branch : String → String → Act W String
  create_branch branch base = do _ ← run true (GitCommand.branch_at branch base); get_commit branch

  unfoldable pub delete_branch : String → Bool → Act W (Unit {0})
  delete_branch branch force = do _ ← run true (GitCommand.branch_delete force branch); pure tt

  unfoldable pub checkout : String → Act W (Unit {0})
  checkout ref = do _ ← run true (GitCommand.checkout_ref ref); pure tt

  unfoldable pub has_conflicts : Act W Bool
  has_conflicts = do out ← run false GitCommand.diff_unmerged; pure (git.has_text out)

  unfoldable pub get_conflicting_files : Act W (List String)
  get_conflicting_files = do out ← run false GitCommand.diff_unmerged; pure (git.text_lines out)

  unfoldable pub abort_merge : Act W (Unit {0})
  abort_merge = do _ ← run false GitCommand.merge_stop; pure tt

  -- The conflict of a failed merge; two questions for the branch build the exception.
  unfoldable pub report_conflict : String → Act W String
  report_conflict branch = do
    conflicts ← get_conflicting_files
    abort_merge
    _ ← current_branch
    target ← current_branch
    raise (merge_conflict branch target conflicts)

  -- `except GitError` of `merge`.
  abbrev pub on_failed_merge : String → Problem → Act W String
  on_failed_merge branch (git_failed e) = do
    conflicts ← has_conflicts
    if conflicts then report_conflict branch else raise (git_failed e)
  on_failed_merge branch (git_timed_out c) = do
    conflicts ← has_conflicts
    if conflicts then report_conflict branch else raise (git_timed_out c)
  on_failed_merge branch (merge_conflict a b files) = raise (merge_conflict a b files)
  on_failed_merge branch (other m) = raise (other m)

  unfoldable pub merge : String → Option String → Bool → Act W String
  merge branch message no_ff = do
    _ ← rescue (run true (GitCommand.merge_branch branch message no_ff)) (on_failed_merge branch)
    commit ← current_commit
    _ ← current_branch
    pure commit

  -- `if self.branch_exists(staging_branch): self.delete_branch(staging_branch, force=True)`
  unfoldable pub create_staging_branch : String → String → Act W String
  create_staging_branch feature base = do
    let staging = git.staging_name feature
    exists ← branch_exists staging
    if exists then delete_branch staging true else pure tt
    _ ← create_branch staging base
    pure staging

  -- `len(parts) >= 3`
  abbrev pub branch_of : List String → Option BranchInfo
  branch_of (name ∷ commit ∷ head ∷ more) =
      some (record { name = name; commit = commit; is_current = head == "*" })
  branch_of _ = none

  abbrev pub branches_of : List (List String) → List BranchInfo
  branches_of [] = []
  branches_of (parts ∷ more) = elim (branch_of parts) [
    | none ↦ branches_of more
    | some b ↦ b ∷ branches_of more
  ]

  unfoldable pub list_branches : Option String → Act W (List BranchInfo)
  list_branches pattern = do
    out ← run true (GitCommand.branch_verbose pattern)
    pure (branches_of (git.fields out))

  unfoldable pub list_worker_branches : String → Act W (List String)
  list_worker_branches feature = do
    branches ← list_branches (some (git.worker_pattern feature))
    pure (map (λ b. b.name) branches)

  -- The loop of `delete_feature_branches`, with the count so far.
  unfoldable pub delete_all : Bool → List BranchInfo → ℕ → Act W ℕ
  delete_all force [] count = pure count
  delete_all force (b ∷ bs) count =
      if b.is_current
      then delete_all force bs count
      else (delete_branch b.name force >> delete_all force bs (count + 1))

  unfoldable pub delete_feature_branches : String → Bool → Act W ℕ
  delete_feature_branches feature force = do
    branches ← list_branches (some (git.feature_pattern feature))
    delete_all force branches 0
