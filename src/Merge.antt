-- ===== src/Merge.antt =====
-- zerg/merge.py: the merge of a level. `W` is the outside world: the repository, the files of the
-- artifacts, the clock, and all that gate commands read and change.
pub mod Pipeline
pub mod Steps
pub mod Quiet
pub mod Passed
pub mod GateSteps
pub mod Flow
pub mod Guarded
pub mod Tests
use zerg.Common.{
  ℕ, zero, suc, ◌+◌, Bool, true, false, not, ◌&&◌, ◌||◌, Option, none, some, List, [], ◌∷◌, ◌++◌,
  String, ◌==◌, nat_eq, string_eq, ltb, if◌then◌else◌, get_or, select, all, length,
}
use zerg.Common.Int.{ℤ, pos}
use zerg.Gates.{
  GateResult, QualityGate, GateRunResult, Executor, Runner, same_result, run_gate, run_all_gates,
}
use zerg.Git.{
  Git, current_branch, branch_exists, delete_branch, checkout, abort_merge, merge,
  create_staging_branch, list_worker_branches, delete_feature_branches, run,
}
use zerg.Git.Calls.{
  GitCommand, Problem, merge_conflict, git_failed, git_timed_out, other, Answer, done, raised, Act,
  pure, ◌>>=◌, ◌>>◌, raise, rescue,
}
use zerg.Merge.Pipeline.{
  Artifacts, Site, GatePipeline, on_world, run_pre_merge_gates, run_post_merge_gates,
}
use zerg.Merge.Steps.{prepare_merge, execute_merge, finalize, abort}

pub record Coordinator : Type 0 where
  pub feature : String
  pub quality_gates : List QualityGate

pub data FlowError : Type 0 where
  no_worker_branches : FlowError
  pre_merge_gates_failed : FlowError
  post_merge_gates_failed : FlowError
  conflict_in : (conflicting_files : List String) → FlowError
  failed_with : (problem : Problem) → FlowError
  merge_timed_out : FlowError

pub record MergeFlowResult : Type 0 where
  pub success : Bool
  pub level : ℕ
  pub source_branches : List String
  pub target_branch : String
  pub merge_commit : Option String
  pub gate_results : List GateRunResult
  pub error : Option FlowError

abbrev pub set_staging : {W : Type 0} → String → Act (Site W) (Unit {0})
set_staging b s = (done tt, record s { staging_branch = some b })

abbrev pub extend_results : {W : Type 0} → List GateRunResult → Act (Site W) (Unit {0})
extend_results vs s = (done tt, record s { gate_results = s.gate_results ++ vs })

-- What `full_merge_flow` is given, the branches found.
pub record Request : Type 0 where
  pub level : ℕ
  pub worker_branches : List String
  pub target_branch : String
  pub skip_gates : Bool
  pub skip_tests : Bool

abbrev pub new_site : {W : Type 0} → Runner W → Site W
new_site r = record { runner = r; staging_branch = none; gate_results = [] }

abbrev pub flow_failed : {W : Type 0} → Request → FlowError → Act (Site W) MergeFlowResult
flow_failed q e s = (
  done (record {
    success = false;
    level = q.level;
    source_branches = q.worker_branches;
    target_branch = q.target_branch;
    merge_commit = none;
    gate_results = s.gate_results;
    error = some e;
  }),
  s,
)

abbrev pub flow_succeeded : {W : Type 0} → Request → String → Act (Site W) MergeFlowResult
flow_succeeded q commit s = (
  done (record {
    success = true;
    level = q.level;
    source_branches = q.worker_branches;
    target_branch = q.target_branch;
    merge_commit = some commit;
    gate_results = s.gate_results;
    error = none;
  }),
  s,
)

abbrev pub no_branches : ℕ → String → MergeFlowResult
no_branches level target_branch = record {
  success = false;
  level = level;
  source_branches = [];
  target_branch = target_branch;
  merge_commit = none;
  gate_results = [];
  error = some no_worker_branches;
}

abbrev pub flow_error : Problem → FlowError
flow_error (merge_conflict a b files) = conflict_in files
flow_error (git_failed e) = failed_with (git_failed e)
flow_error (git_timed_out c) = failed_with (git_timed_out c)
flow_error (other m) = failed_with (other m)

module _ {W : Type 0} (ex : Executor W) (art : Artifacts W) (git : Git W) (pipeline : GatePipeline)
    (m : Coordinator) where
  -- A step of `full_merge_flow` that runs gates: whether they passed, or are skipped.
  unfoldable pub gate_step : Bool → Act (Site W) (Bool × List GateRunResult) → Act (Site W) Bool
  gate_step true gates = pure true
  gate_step false gates = do answer ← gates; extend_results (answer.1); pure (answer.0)

  -- Step 5 and the cleanup.
  unfoldable pub finish_flow : Request → String → Act (Site W) MergeFlowResult
  finish_flow q staging = do
    commit ← on_world (finalize git staging q.target_branch)
    on_world (delete_branch git staging true)
    flow_succeeded q commit

  -- The steps 3 and 4, and what follows.
  unfoldable pub merge_steps : Request → String → Act (Site W) MergeFlowResult
  merge_steps q staging = do
    _ ← on_world (execute_merge git q.worker_branches staging)
    passed ←
        gate_step q.skip_gates
          (run_post_merge_gates ex art pipeline q.level q.skip_tests m.quality_gates)
    if passed
        then finish_flow q staging
        else (on_world (abort git (some staging)) >> flow_failed q post_merge_gates_failed)

  -- The body of the `try`.
  unfoldable pub flow_steps : Request → Act (Site W) MergeFlowResult
  flow_steps q = do
    staging ← on_world (prepare_merge git m.feature q.target_branch)
    set_staging staging
    passed ←
        gate_step q.skip_gates
          (run_pre_merge_gates ex art pipeline q.level q.skip_tests m.quality_gates)
    if passed then merge_steps q staging else flow_failed q pre_merge_gates_failed

  -- The handlers, which abort with the staging branch that the variable has.
  unfoldable pub flow_handler : Request → Problem → Act (Site W) MergeFlowResult
  flow_handler q p s = (on_world (abort git s.staging_branch) >> flow_failed q (flow_error p)) s

  unfoldable pub guarded_flow : Request → Act (Site W) MergeFlowResult
  guarded_flow q s = rescue (flow_steps q) (flow_handler q) (new_site s.runner)

  abbrev pub flow_on : ℕ → String → Bool → Bool → List String → Act (Site W) MergeFlowResult
  flow_on level target_branch skip_gates skip_tests [] = pure (no_branches level target_branch)
  flow_on level target_branch skip_gates skip_tests (b ∷ bs) = guarded_flow (record {
    level = level;
    worker_branches = b ∷ bs;
    target_branch = target_branch;
    skip_gates = skip_gates;
    skip_tests = skip_tests;
  })

  -- The call with its arguments: the worker branches are looked up where none are given.
  unfoldable pub full_merge_flow :
      ℕ → Option (List String) → String → Bool → Bool → Act (Site W) MergeFlowResult
  full_merge_flow level none target_branch skip_gates skip_tests = do
    found ← on_world (list_worker_branches git m.feature)
    flow_on level target_branch skip_gates skip_tests found
  full_merge_flow level (some given) target_branch skip_gates skip_tests =
      flow_on level target_branch skip_gates skip_tests given

module _ {W : Type 0} (git : Git W) where
  unfoldable pub get_mergeable_branches : Coordinator → Act W (List String)
  get_mergeable_branches m = list_worker_branches git m.feature

  unfoldable pub cleanup_feature_branches : Coordinator → Bool → Act W ℕ
  cleanup_feature_branches m force = delete_feature_branches git m.feature force
