-- ===== src/Merge/Tests.antt =====
-- Tests of the merge on a small model of git, and the witnesses.
use zerg.Common.{
  ◌+◌, ◌≡◌, refl, Bool, true, false, not, Option, none, some, is_some, [], ◌∷◌, String, ◌==◌,
  nat_eq, string_eq, if◌then◌else◌, arith, ◌⊎◌, get_or,
}
use zerg.Common.Int.{pos}
use zerg.Gates.{QualityGate, ran, Executor, run_all_gates, run_gates, run_gate}
use zerg.Git.{
  Git, Output, exited, create_staging_branch, branch_exists, run, create_branch, get_commit,
  checkout, merge, current_branch, delete_branch,
}
use zerg.Git.Calls.{GitCommand, Answer, done, raised}
use zerg.Git.Still.{GitLaws, may_move, switches, has_succeeded}
use zerg.Merge.Pipeline.{Artifacts, Site, run_gates_at}
use zerg.Merge.Steps.{prepare_merge, execute_merge, merge_each, finalize, detach}
use zerg.Merge.Passed.{AllPassed}
use zerg.Merge.GateSteps.{GateLaws}
use zerg.Merge.Flow.{gates_per_round}
use zerg.Merge.Guarded.{full_merge_flow_guarded}
use zerg.Merge.{
  Coordinator, MergeFlowResult, full_merge_flow, guarded_flow, flow_steps, gate_step, merge_steps,
  finish_flow,
}

-- The commit of each branch, and the branch that is checked out.
pub record Repo : Type 0 where
  pub head : String
  pub tips : String → Option String

abbrev pub set_tip : String → Option String → Repo → Repo
set_tip b c w = record w { tips = λ x. if b == x then c else w.tips x }

abbrev pub quiet : String → Repo → Output × Repo
quiet out w = (exited 0 out "", w)

abbrev pub git_run : GitCommand → Repo → Output × Repo
git_run (GitCommand.branch_list b) w = quiet (if is_some (w.tips b) then b else "") w
git_run (GitCommand.branch_at b base) w = quiet "" (set_tip b (w.tips base) w)
git_run (GitCommand.branch_delete force b) w = quiet "" (set_tip b none w)
git_run (GitCommand.branch_verbose pattern) w = quiet "" w
git_run (GitCommand.checkout_ref ref) w =
    if is_some (w.tips ref) then quiet "" (record w { head = ref }) else (exited 1 "" "unknown", w)
git_run GitCommand.checkout_detach w = quiet "" (record w { head = "" })
git_run (GitCommand.rev_parse ref) w = quiet (get_or (w.tips ref) "") w
git_run GitCommand.abbrev_head w = quiet w.head w
git_run GitCommand.diff_unmerged w = quiet "" w
git_run (GitCommand.merge_branch b message no_ff) w = quiet "" (set_tip w.head (some "merged") w)
git_run (GitCommand.commit_all message allow_empty) w =
    quiet "" (set_tip w.head (some "committed") w)
git_run _ w = quiet "" w

abbrev pub small_git : Git Repo
small_git = record {
  run = git_run;
  has_text = λ s. not (s == "");
  strip = λ s. s;
  text_lines = λ s. s ∷ [];
  fields = λ s. [];
  staging_name = λ f. "staging";
  worker_pattern = λ f. "worker";
  feature_pattern = λ f. "all";
  merge_message = λ b s. "merge";
  complete_message = λ s. "complete";
}

small_tip-run :
    (c : GitCommand) (b : String) (w : Repo)
    → is_some (w.tips b) ≡ true
    → may_move c b (w.head == b) ≡ false
    → (git_run c w).1.tips b ≡ w.tips b
small_tip-run (GitCommand.branch_list x) b w e h = refl
small_tip-run (GitCommand.branch_at x base) b w e h = ground (arith, h)
small_tip-run (GitCommand.branch_delete force x) b w e h = ground (arith, h)
small_tip-run (GitCommand.branch_verbose pattern) b w e h = refl
small_tip-run (GitCommand.checkout_ref ref) b w e h = ground arith
small_tip-run GitCommand.checkout_detach b w e h = refl
small_tip-run (GitCommand.rev_parse ref) b w e h = refl
small_tip-run GitCommand.abbrev_head b w e h = refl
small_tip-run GitCommand.diff_unmerged b w e h = refl
small_tip-run (GitCommand.merge_branch x message no_ff) b w e h = ground (arith, h)
small_tip-run GitCommand.merge_stop b w e h = refl
small_tip-run GitCommand.add_all b w e h = refl
small_tip-run (GitCommand.commit_all message allow_empty) b w e h = ground (arith, h)
small_tip-run (GitCommand.rebase_onto onto) b w e h = refl
small_tip-run GitCommand.rebase_stop b w e h = refl
small_tip-run GitCommand.status_lines b w e h = refl
small_tip-run (GitCommand.fetch_from remote branch) b w e h = refl
small_tip-run (GitCommand.push_to remote branch force set_upstream) b w e h = refl
small_tip-run (GitCommand.stash_push message) b w e h = refl
small_tip-run GitCommand.stash_take b w e h = refl

small_head-run :
    (c : GitCommand) (b : String) (w : Repo)
    → switches c ≡ false
    → ((git_run c w).1.head == b) ≡ (w.head == b)
small_head-run (GitCommand.branch_list x) b w h = refl
small_head-run (GitCommand.branch_at x base) b w h = refl
small_head-run (GitCommand.branch_delete force x) b w h = refl
small_head-run (GitCommand.branch_verbose pattern) b w h = refl
small_head-run (GitCommand.checkout_ref ref) b w h = absurd (ground (arith, h))
small_head-run GitCommand.checkout_detach b w h = absurd (ground (arith, h))
small_head-run (GitCommand.rev_parse ref) b w h = refl
small_head-run GitCommand.abbrev_head b w h = refl
small_head-run GitCommand.diff_unmerged b w h = refl
small_head-run (GitCommand.merge_branch x message no_ff) b w h = refl
small_head-run GitCommand.merge_stop b w h = refl
small_head-run GitCommand.add_all b w h = refl
small_head-run (GitCommand.commit_all message allow_empty) b w h = refl
small_head-run (GitCommand.rebase_onto onto) b w h = absurd (ground (arith, h))
small_head-run GitCommand.rebase_stop b w h = absurd (ground (arith, h))
small_head-run GitCommand.status_lines b w h = refl
small_head-run (GitCommand.fetch_from remote branch) b w h = refl
small_head-run (GitCommand.push_to remote branch force set_upstream) b w h = refl
small_head-run (GitCommand.stash_push message) b w h = refl
small_head-run GitCommand.stash_take b w h = refl

small_is_head-checkout :
    (ref b : String) (w : Repo)
    → (ref == b) ≡ false
    → has_succeeded (git_run (GitCommand.checkout_ref ref) w).0 ≡ true
    → ((git_run (GitCommand.checkout_ref ref) w).1.head == b) ≡ false
small_is_head-checkout ref b w differs ok = ground (arith, differs, ok)

abbrev small-GitLaws : GitLaws small_git
small-GitLaws = record {
  tip = λ b w. w.tips b;
  is_head = λ b w. w.head == b;
  tip-run = small_tip-run;
  is_head-run = small_head-run;
  is_head-checkout = small_is_head-checkout;
}

abbrev pub small_executor : Executor Repo
small_executor = record {
  execute = λ command timeout w. (ran (command == "good") (pos 0) "" "", w);
  mentions_timeout = λ s. false;
  refusal = λ s. s;
  run_plugin = λ name w. (none, ("", w));
}

abbrev pub small_artifacts : Artifacts Repo
small_artifacts = record {
  make_dir = λ level w. (none, w);
  load = λ level name w. none;
  save = λ level name c w. w;
  now = λ w. 0;
  first_500 = λ s. s;
}

small-GateLaws : GateLaws small_executor small_artifacts (λ w. w.tips "main")
small-GateLaws = record {
  tip-execute = λ command timeout w. refl;
  tip-make_dir = λ level w. refl;
  tip-save = λ level name c w. refl;
}

abbrev pub gate : String → QualityGate
gate command = record { name = "lint"; command = command; required = true; timeout = 60 }

abbrev pub coordinator : String → Coordinator
coordinator command = record { feature = "f"; quality_gates = gate command ∷ [] }

abbrev pub start : Site Repo
start = record {
  runner = record {
    world = record {
      head = "main";
      tips = λ b. if b == "main" then some "c0" else if b == "w" then some "c1" else none;
    };
    results = [];
  };
  staging_branch = none;
  gate_results = [];
}

abbrev flow : String → Answer MergeFlowResult × Site Repo
flow command =
    full_merge_flow small_executor small_artifacts small_git none (coordinator command) 1
      (some ("w" ∷ [])) "main" false false start

abbrev succeeded : Answer MergeFlowResult → Bool
succeeded (done r) = r.success
succeeded (raised p) = false

good_gates_merge :
    (succeeded (flow "good").0 ≡ true) × ((flow "good").1.runner.world.tips "main" ≡ some "merged")
unfolding full_merge_flow guarded_flow flow_steps prepare_merge create_staging_branch branch_exists
    run create_branch get_commit gate_step run_gates_at run_all_gates run_gates run_gate merge_steps
    execute_merge checkout merge_each merge current_branch delete_branch finalize detach finish_flow
good_gates_merge = (refl, refl)

-- A failure before the merge returns without `abort`: the staging branch stays.
bad_gates_refuse :
    ((flow "bad").1.runner.world.tips "main" ≡ some "c0")
    × ((flow "bad").1.runner.world.tips "staging" ≡ some "c0")
unfolding full_merge_flow guarded_flow flow_steps prepare_merge create_staging_branch branch_exists
    run create_branch get_commit gate_step run_gates_at run_all_gates run_gates run_gate merge_steps
    execute_merge checkout merge_each merge current_branch delete_branch finalize detach finish_flow
bad_gates_refuse = (refl, refl)

full_merge_flow_guarded_example :
    let s' = (flow "good").1 in
    let g = gates_per_round false false (gate "good" ∷ []) in
    (s'.runner.world.tips "main" ≡ some "c0") ⊎ AllPassed (g + g) s'.gate_results
full_merge_flow_guarded_example =
    full_merge_flow_guarded small_executor small_artifacts small_git none (coordinator "good")
      small-GitLaws "main" small-GateLaws refl "main" 1 false false (some ("w" ∷ [])) start refl
