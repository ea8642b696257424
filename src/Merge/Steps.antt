-- ===== src/Merge/Steps.antt =====
-- The steps of zerg/merge.py on the repository.
use zerg.Common.{
  true, Option, none, some, List, [], ◌∷◌, String, ◌==◌, nat_eq, string_eq, if◌then◌else◌,
}
use zerg.Git.{
  Git, current_branch, branch_exists, delete_branch, checkout, abort_merge, merge,
  create_staging_branch, run,
}
use zerg.Git.Calls.{GitCommand, Act, pure, ◌>>=◌, ◌>>◌, rescue}

pub record MergeResult : Type 0 where
  pub source_branch : String
  pub target_branch : String
  pub commit_sha : String

module _ {W : Type 0} (git : Git W) where
  unfoldable pub prepare_merge : String → String → Act W String
  prepare_merge feature target_branch = create_staging_branch git feature target_branch

  -- The loop of `execute_merge`.
  unfoldable pub merge_each : String → List String → Act W (List MergeResult)
  merge_each staging_branch [] = pure []
  merge_each staging_branch (b ∷ bs) = do
    commit ← merge git b (some (git.merge_message b staging_branch)) true
    results ← merge_each staging_branch bs
    pure (
        record { source_branch = b; target_branch = staging_branch; commit_sha = commit } ∷ results)

  unfoldable pub execute_merge : List String → String → Act W (List MergeResult)
  execute_merge source_branches staging_branch = do
    checkout git staging_branch
    merge_each staging_branch source_branches

  -- `git checkout --detach HEAD`, where the staging branch is checked out.
  unfoldable pub detach : String → Act W (Unit {0})
  detach staging_branch = do
    current ← current_branch git
    if current == staging_branch
        then (run git true GitCommand.checkout_detach >> pure tt)
        else pure tt

  unfoldable pub finalize : String → String → Act W String
  finalize staging_branch target_branch = do
    rescue (detach staging_branch) (λ _. pure tt)
    checkout git target_branch
    merge git staging_branch (some (git.complete_message staging_branch)) true

  -- The staging branch of `abort`, deleted where it exists.
  unfoldable pub delete_staging : String → Act W (Unit {0})
  delete_staging staging_branch = do
    exists ← branch_exists git staging_branch
    if exists then (checkout git "main" >> delete_branch git staging_branch true) else pure tt

  unfoldable pub abort : Option String → Act W (Unit {0})
  abort none = abort_merge git
  abort (some staging_branch) = abort_merge git >> delete_staging staging_branch
