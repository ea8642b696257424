-- ===== src/Git/Still.antt =====
-- Which calls of zerg/git/ops.py leave a branch where it is.
use zerg.Common.{
  ◌≡◌, refl, ◌∙◌, Bool, true, false, not, ◌&&◌, Option, some, is_some, String, ◌==◌, nat_eq,
  string_eq, if◌then◌else◌, arith,
}
use zerg.Git.{
  Git, Output, exited, timed_out, broke, checked, output_or_error, run, current_branch, get_commit,
  branch_exists, create_branch, delete_branch, checkout, has_conflicts, get_conflicting_files,
  abort_merge, report_conflict, on_failed_merge, merge, create_staging_branch, list_branches,
  list_worker_branches,
}
use zerg.Git.Calls.{
  GitCommand, Problem, git_failed, git_timed_out, merge_conflict, other, ◌>>=◌, raise,
}
use zerg.Git.Triple.{
  After, Ensures, Keeps, Ensures-bind, Ensures-rescue, Ensures-if, Ensures-pure, Keeps-raise,
}

-- Whether a command may move the branch, which may be checked out: creating and deleting move the
-- branch that they name, a merge or a commit moves the one that
-- is checked out, and of a rebase or a fetch nothing is said.
abbrev pub may_move : GitCommand → String → Bool → Bool
may_move (GitCommand.branch_at branch base) b is_head = branch == b
may_move (GitCommand.branch_delete force branch) b is_head = branch == b
may_move (GitCommand.merge_branch branch message no_ff) b is_head = is_head
may_move (GitCommand.commit_all message allow_empty) b is_head = is_head
may_move (GitCommand.rebase_onto onto) b is_head = true
may_move GitCommand.rebase_stop b is_head = true
may_move (GitCommand.fetch_from remote branch) b is_head = true
may_move _ b is_head = false

abbrev pub switches : GitCommand → Bool
switches (GitCommand.checkout_ref ref) = true
switches GitCommand.checkout_detach = true
switches (GitCommand.rebase_onto onto) = true
switches GitCommand.rebase_stop = true
switches _ = false

abbrev pub has_succeeded : Output → Bool
has_succeeded (exited code out err) = code == 0
has_succeeded timed_out = false
has_succeeded (broke m) = false

-- What git documents: the commit of a branch that exists changes by a command that moves it alone,
-- another branch is checked out by a checkout alone, and after a checkout that succeeds no other
-- branch than the one asked for is checked out.
pub record GitLaws {W : Type 0} (git : Git W) : Type 0 where
  pub tip : String → W → Option String
  pub is_head : String → W → Bool
  pub tip-run :
      (c : GitCommand) (b : String) (w : W)
      → is_some (tip b w) ≡ true
      → may_move c b (is_head b w) ≡ false
      → tip b (git.run c w).1 ≡ tip b w
  pub is_head-run :
      (c : GitCommand) (b : String) (w : W)
      → switches c ≡ false
      → is_head b (git.run c w).1 ≡ is_head b w
  pub is_head-checkout :
      (ref b : String) (w : W)
      → (ref == b) ≡ false
      → has_succeeded (git.run (GitCommand.checkout_ref ref) w).0 ≡ true
      → is_head b (git.run (GitCommand.checkout_ref ref) w).1 ≡ false

module _ {W : Type 0} (git : Git W) (laws : GitLaws git) (b c0 : String) where
  -- The branch is at a commit; and it is not the one checked out.
  abbrev pub Rests : W → Type 0
  Rests w = laws.tip b w ≡ some c0

  abbrev pub RestsApart : W → Type 0
  RestsApart w = (laws.tip b w ≡ some c0) × (laws.is_head b w ≡ false)

  After-output :
      (Q E : W → Type 0) (has_failed : Bool) (out err : String) (w : W)
      → (has_failed ≡ false → Q w)
      → E w
      → After (λ _. Q) E (output_or_error has_failed out err, w)
  After-output Q E true out err w h e = e
  After-output Q E false out err w h e = h refl

  After-checked :
      (Q E : W → Type 0) (c : GitCommand) (check : Bool) (x : Output × W)
      → ((check && not (has_succeeded (x.0))) ≡ false → Q (x.1))
      → E (x.1)
      → After (λ _. Q) E (checked check c x)
  After-checked Q E c check (exited code out err, w) h e =
      After-output Q E (check && not (code == 0)) out err w h e
  After-checked Q E c check (timed_out, w) h e = e
  After-checked Q E c check (broke m, w) h e = e

  run-Rests :
      (check : Bool) (c : GitCommand)
      → ((h : Bool) → may_move c b h ≡ false)
      → Keeps Rests (run git check c)
  unfolding run
  run-Rests check c still = record {
    after = λ w h.
        let k : Rests ((git.run c w).1) =
          laws.tip-run c b w (rw h refl) (still (laws.is_head b w)) ∙ h in
        After-checked Rests Rests c check (git.run c w) (λ _. k) k;
  }

  run-RestsApart :
      (check : Bool) (c : GitCommand)
      → may_move c b false ≡ false
      → switches c ≡ false
      → Keeps RestsApart (run git check c)
  unfolding run
  run-RestsApart check c still stays = record {
    after = λ w (h, apart).
        let k : RestsApart ((git.run c w).1) = (
          laws.tip-run c b w (rw h refl) (rw apart still) ∙ h,
          laws.is_head-run c b w stays ∙ apart,
        ) in
        After-checked RestsApart RestsApart c check (git.run c w) (λ _. k) k;
  }

  pub checkout-RestsApart :
      (ref : String) → (ref == b) ≡ false → Ensures Rests (checkout git ref) (λ _. RestsApart) Rests
  unfolding checkout run
  checkout-RestsApart ref differs =
      let c = GitCommand.checkout_ref ref in
      Ensures-bind
        (record {
          after = λ w h.
              let k : Rests ((git.run c w).1) = laws.tip-run c b w (rw h refl) refl ∙ h in
              After-checked RestsApart Rests c true (git.run c w)
                (λ ok. (k, laws.is_head-checkout ref b w differs (ground (arith, ok)))) k;
        })
        (λ _. Ensures-pure tt)

  current_branch-RestsApart : Keeps RestsApart (current_branch git)
  unfolding current_branch
  current_branch-RestsApart = Ensures-bind (run-RestsApart true _ refl refl) λ _. Ensures-pure _

  get_commit-RestsApart : (ref : String) → Keeps RestsApart (get_commit git ref)
  unfolding get_commit
  get_commit-RestsApart ref = Ensures-bind (run-RestsApart true _ refl refl) λ _. Ensures-pure _

  report_conflict-RestsApart : (branch : String) → Keeps RestsApart (report_conflict git branch)
  unfolding report_conflict get_conflicting_files abort_merge
  report_conflict-RestsApart branch =
      Ensures-bind (Ensures-bind (run-RestsApart false _ refl refl) λ _. Ensures-pure _) λ _.
        Ensures-bind (Ensures-bind (run-RestsApart false _ refl refl) λ _. Ensures-pure _) λ _.
          Ensures-bind current_branch-RestsApart
            λ _. Ensures-bind current_branch-RestsApart λ _. Keeps-raise _

  conflict_or-RestsApart :
      (branch : String) (p : Problem)
      → Keeps RestsApart (
          has_conflicts git >>= λ conflicts.
          if conflicts then report_conflict git branch else raise p)
  unfolding has_conflicts
  conflict_or-RestsApart branch p =
      Ensures-bind (Ensures-bind (run-RestsApart false _ refl refl) λ _. Ensures-pure _)
        λ conflicts. Ensures-if conflicts (report_conflict-RestsApart branch) (Keeps-raise p)

  on_failed_merge-RestsApart :
      (branch : String) (p : Problem) → Keeps RestsApart (on_failed_merge git branch p)
  on_failed_merge-RestsApart branch (git_failed e) = conflict_or-RestsApart branch _
  on_failed_merge-RestsApart branch (git_timed_out c) = conflict_or-RestsApart branch _
  on_failed_merge-RestsApart branch (merge_conflict s t files) = Keeps-raise _
  on_failed_merge-RestsApart branch (other m) = Keeps-raise _

  -- A merge leaves the branch where it is, while another one is checked out.
  pub merge-RestsApart :
      (branch : String) (message : Option String) (no_ff : Bool)
      → Keeps RestsApart (merge git branch message no_ff)
  unfolding merge
  merge-RestsApart branch message no_ff =
      Ensures-bind
        (Ensures-rescue (run-RestsApart true _ refl refl) (on_failed_merge-RestsApart branch))
        λ _.
          Ensures-bind (get_commit-RestsApart "HEAD")
            λ _. Ensures-bind current_branch-RestsApart λ _. Ensures-pure _

  pub branch_exists-Rests : (branch : String) → Keeps Rests (branch_exists git branch)
  unfolding branch_exists
  branch_exists-Rests branch = Ensures-bind (run-Rests false _ λ _. refl) λ _. Ensures-pure _

  pub delete_branch-Rests :
      (branch : String) (force : Bool)
      → (branch == b) ≡ false
      → Keeps Rests (delete_branch git branch force)
  unfolding delete_branch
  delete_branch-Rests branch force differs =
      Ensures-bind (run-Rests true _ λ _. differs) λ _. Ensures-pure _

  pub checkout-Rests : (ref : String) → Keeps Rests (checkout git ref)
  unfolding checkout
  checkout-Rests ref = Ensures-bind (run-Rests true _ λ _. refl) λ _. Ensures-pure _

  pub abort_merge-Rests : Keeps Rests (abort_merge git)
  unfolding abort_merge
  abort_merge-Rests = Ensures-bind (run-Rests false _ λ _. refl) λ _. Ensures-pure _

  pub list_worker_branches-Rests :
      (feature : String) → Keeps Rests (list_worker_branches git feature)
  unfolding list_worker_branches list_branches
  list_worker_branches-Rests feature =
      Ensures-bind (Ensures-bind (run-Rests true _ λ _. refl) λ _. Ensures-pure _)
        λ _. Ensures-pure _

  create_branch-Rests :
      (branch base : String) → (branch == b) ≡ false → Keeps Rests (create_branch git branch base)
  unfolding create_branch get_commit
  create_branch-Rests branch base differs =
      Ensures-bind (run-Rests true _ λ _. differs)
        λ _. Ensures-bind (run-Rests true _ λ _. refl) λ _. Ensures-pure _

  -- Making the staging branch leaves the branch where it is, and answers the name.
  pub create_staging_branch-Rests :
      (feature base : String)
      → (git.staging_name feature == b) ≡ false
      → Ensures Rests
          (create_staging_branch git feature base)
          (λ name w. Rests w × (name ≡ git.staging_name feature))
          Rests
  unfolding create_staging_branch
  create_staging_branch-Rests feature base differs = Ensures-bind (branch_exists-Rests _) λ exists.
      Ensures-bind (Ensures-if exists (delete_branch-Rests _ true differs) (Ensures-pure tt)) λ _.
        Ensures-bind (create_branch-Rests _ base differs) λ _. record { after = λ w h. (h, refl) }
