-- ===== src/Git/Changes.antt =====
-- The operations of zerg/git/base.py and zerg/git/ops.py that merging does not use.
use zerg.Common.{Bool, true, false, Option, String, nat_eq, string_eq, if◌then◌else◌}
use zerg.Git.Calls.{
  GitCommand, Problem, git_failed, git_timed_out, merge_conflict, other, Act, pure, ◌>>=◌, ◌>>◌,
  raise, rescue,
}
use zerg.Git.{Git, run, current_branch, current_commit, has_conflicts, get_conflicting_files}

module _ {W : Type 0} (git : Git W) where
  unfoldable pub has_changes : Act W Bool
  has_changes = do out ← run git true GitCommand.status_lines; pure (git.has_text out)

  unfoldable pub commit : String → Bool → Bool → Act W String
  commit message with_all allow_empty = do
    if with_all then (run git true GitCommand.add_all >> pure tt) else pure tt
    _ ← run git true (GitCommand.commit_all message allow_empty)
    current_commit git

  unfoldable pub abort_rebase : Act W (Unit {0})
  abort_rebase = do _ ← run git false GitCommand.rebase_stop; pure tt

  -- The conflict of a failed rebase.
  unfoldable pub report_rebase : String → Act W (Unit {0})
  report_rebase onto = do
    conflicts ← get_conflicting_files git
    abort_rebase
    source ← current_branch git
    raise (merge_conflict source onto conflicts)

  -- `except GitError` of `rebase`.
  abbrev pub on_failed_rebase : String → Problem → Act W (Unit {0})
  on_failed_rebase onto (git_failed e) = do
    conflicts ← has_conflicts git
    if conflicts then report_rebase onto else raise (git_failed e)
  on_failed_rebase onto (git_timed_out c) = do
    conflicts ← has_conflicts git
    if conflicts then report_rebase onto else raise (git_timed_out c)
  on_failed_rebase onto (merge_conflict a b files) = raise (merge_conflict a b files)
  on_failed_rebase onto (other m) = raise (other m)

  unfoldable pub rebase : String → Act W (Unit {0})
  rebase onto =
      rescue (run git true (GitCommand.rebase_onto onto) >> pure tt) (on_failed_rebase onto)

  unfoldable pub fetch : String → Option String → Act W (Unit {0})
  fetch remote branch = do _ ← run git true (GitCommand.fetch_from remote branch); pure tt

  unfoldable pub push : String → Option String → Bool → Bool → Act W (Unit {0})
  push remote branch force set_upstream = do
    _ ← run git true (GitCommand.push_to remote branch force set_upstream)
    pure tt

  -- Whether there was anything to put on the stash.
  unfoldable pub stash : Option String → Act W Bool
  stash message = do
    changes ← has_changes
    if changes then (run git true (GitCommand.stash_push message) >> pure true) else pure false

  unfoldable pub stash_pop : Act W (Unit {0})
  stash_pop = do _ ← run git true GitCommand.stash_take; pure tt
