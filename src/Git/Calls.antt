-- ===== src/Git/Calls.antt =====
-- Calls that may raise an exception and that change a state: what zerg/git/ops.py and zerg/merge.py
-- are written in, with the exceptions of zerg/exceptions.py that they tell apart.
use zerg.Common.{Bool, Option, List, String}

-- The command lines of git that the source runs: `branch --list`, `branch`, `branch -D` or `-d`,
-- `branch -v --format ... --list`, `checkout`, `checkout --detach HEAD`, `rev-parse`,
-- `rev-parse --abbrev-ref HEAD`, `diff --name-only --diff-filter=U`, `merge [--no-ff] [-m]` and
-- `merge --abort`; and `add -A`, `commit -m [--allow-empty]`, `rebase`, `rebase --abort`,
-- `status --porcelain`, `fetch`, `push [--force] [--set-upstream]`, `stash push [-m]`, `stash pop`.
pub data GitCommand : Type 0 where
  branch_list : (branch : String) → GitCommand
  branch_at : (branch base : String) → GitCommand
  branch_delete : (force : Bool) (branch : String) → GitCommand
  branch_verbose : (pattern : Option String) → GitCommand
  checkout_ref : (ref : String) → GitCommand
  checkout_detach : GitCommand
  rev_parse : (ref : String) → GitCommand
  abbrev_head : GitCommand
  diff_unmerged : GitCommand
  merge_branch : (branch : String) (message : Option String) (no_ff : Bool) → GitCommand
  merge_stop : GitCommand
  add_all : GitCommand
  commit_all : (message : String) (allow_empty : Bool) → GitCommand
  rebase_onto : (onto : String) → GitCommand
  rebase_stop : GitCommand
  status_lines : GitCommand
  fetch_from : (remote : String) (branch : Option String) → GitCommand
  push_to : (remote : String) (branch : Option String) (force set_upstream : Bool) → GitCommand
  stash_push : (message : Option String) → GitCommand
  stash_take : GitCommand

-- `GitError` of a command that failed or timed out, `MergeConflictError`, and any other exception.
pub data Problem : Type 0 where
  git_failed : (stderr : String) → Problem
  git_timed_out : (command : GitCommand) → Problem
  merge_conflict :
      (source_branch target_branch : String) (conflicting_files : List String) → Problem
  other : (message : String) → Problem

pub data Answer (A : Type 0) : Type 0 where
  done : A → Answer A
  raised : Problem → Answer A

abbrev pub Act : Type 0 → Type 0 → Type 0
Act S A = S → Answer A × S

module _ {S A : Type 0} where
  abbrev pub pure : A → Act S A
  pure a s = (done a, s)

  abbrev pub raise : Problem → Act S A
  raise p s = (raised p, s)

  infixl 5 ◌>>=◌ ◌>>◌
  abbrev pub and_then : {B : Type 0} → (A → Act S B) → Answer A × S → Answer B × S
  and_then f (done a, s) = f a s
  and_then f (raised p, s) = (raised p, s)

  abbrev pub ◌>>=◌ : {B : Type 0} → Act S A → (A → Act S B) → Act S B
  (m >>= f) s = and_then f (m s)

  abbrev pub ◌>>◌ : {B : Type 0} → Act S A → Act S B → Act S B
  m >> k = m >>= λ _. k

  abbrev pub or_else : (Problem → Act S A) → Answer A × S → Answer A × S
  or_else h (done a, s) = (done a, s)
  or_else h (raised p, s) = h p s

  -- `try: m except e: h e`
  abbrev pub rescue : Act S A → (Problem → Act S A) → Act S A
  rescue m h s = or_else h (m s)

abbrev pub modify : {S : Type 0} → (S → S) → Act S (Unit {0})
modify f s = (done tt, f s)
