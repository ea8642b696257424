-- ===== src/Coordinator/Tests.antt =====
-- Runs of zerg/level_coordinator.py over the small model of git.
use zerg.Common.{ℕ, ◌≡◌, refl, Bool, true, false, none, some, [], ◌∷◌, String, nat_eq, string_eq}
use zerg.Common.Dict.{insert, lookup}
use zerg.State.LevelRepo.{
  LevelMergeStatus, MergeAnswer, merge, get_level_merge_status, set_level_status,
  set_level_merge_status,
}
use zerg.State.Log.{append_event, set_paused, set_error}
use zerg.Workers.{WorkerState}
use zerg.Workers.Status.{WorkerStatus}
use zerg.Git.{
  create_staging_branch, branch_exists, run, create_branch, get_commit, checkout,
  merge as git_merge, current_branch, delete_branch,
}
use zerg.Git.Calls.{Answer, done, raised}
use zerg.Git.Triple.{After}
use zerg.Gates.{run_all_gates, run_gates, run_gate}
use zerg.Merge.Pipeline.{run_gates_at}
use zerg.Merge.Steps.{prepare_merge, execute_merge, merge_each, finalize, detach}
use zerg.Merge.{full_merge_flow, guarded_flow, flow_steps, gate_step, merge_steps, finish_flow}
use zerg.Merge.Tests.{Repo, small_git, small_executor, small_artifacts, coordinator, start}
use zerg.Coordinator.Effects.{
  Texts, Station, merge_succeeded, merge_failed, rebase_all_workers, set_recoverable_error,
}
use zerg.Coordinator.{
  LevelConfig, Setup, handle_level_complete, merge_now, merge_attempts, timed_merge, merge_level,
}
use zerg.Coordinator.Outcome.{Handled, Raised, handle_level_complete_lem}

abbrev texts : Texts
texts = record {
  json = λ d. "data";
  conflict_reason = λ l. "conflict";
  failure_message = λ l n e. "failed";
  says_conflict = λ p. false;
}

abbrev config : ℕ → LevelConfig
config timeout = record {
  defer_merge_to_ship = false;
  gates_at_ship_only = false;
  merge_timeout_seconds = timeout;
  merge_max_retries = 2;
}

abbrev setup : String → Setup Repo
setup command = record {
  executor = small_executor;
  art = small_artifacts;
  git = small_git;
  pipeline = none;
  merger = coordinator command;
  config = config 600;
  texts = texts;
  ticks = λ i j. 0;
  sleep = λ n w. w;
  callbacks = [];
}

abbrev worker : WorkerState
worker = record {
  worker_id = 1;
  status = WorkerStatus.running;
  current_task = none;
  port = none;
  container_id = none;
  worktree_path = none;
  branch = some "w";
  health_check_at = none;
  started_at = none;
  ready_at = none;
  last_task_completed_at = none;
  tasks_completed = 0;
  context_usage = 0;
}

abbrev station : Station Repo
station = record {
  site = start;
  controller = record { tasks = []; levels = []; current_level = 1; started = true };
  backpressure = none;
  tasks = [];
  level_state = record { current_level = some 1; levels = [] };
  execution = record { execution_log = []; paused = none; error = none };
  workers = (1, worker) ∷ [];
  assigner = none;
  paused = false;
  last_merge_result = none;
}

abbrev answer_of : Answer Bool × Station Repo → Bool × (MergeAnswer × Bool)
answer_of (done a, s) = (a, (get_level_merge_status 1 s.level_state, s.paused))
answer_of (raised p, s) = (false, (get_level_merge_status 1 s.level_state, s.paused))

-- A merge that succeeds leaves the level "rebasing".
good_gates :
    answer_of (handle_level_complete (setup "good") 1 station)
    ≡ (true, (merge LevelMergeStatus.rebasing, false))
unfolding handle_level_complete merge_now merge_attempts timed_merge merge_level merge_succeeded
    rebase_all_workers get_level_merge_status set_level_status set_level_merge_status append_event
    insert lookup full_merge_flow guarded_flow flow_steps prepare_merge create_staging_branch
    branch_exists run create_branch get_commit gate_step run_gates_at run_all_gates run_gates
    run_gate merge_steps execute_merge checkout merge_each git_merge current_branch delete_branch
    finalize detach finish_flow
good_gates = refl

bad_gates :
    answer_of (handle_level_complete (setup "bad") 1 station)
    ≡ (false, (merge LevelMergeStatus.failed, true))
unfolding handle_level_complete merge_now merge_attempts timed_merge merge_level merge_failed
    set_recoverable_error get_level_merge_status set_level_status set_level_merge_status
    append_event set_paused set_error insert lookup full_merge_flow guarded_flow flow_steps
    prepare_merge create_staging_branch branch_exists run create_branch get_commit gate_step
    run_gates_at run_all_gates run_gates run_gate merge_steps execute_merge checkout merge_each
    git_merge current_branch delete_branch finalize detach finish_flow
bad_gates = refl

handle_level_complete_lem_example :
    After
      (Handled (setup "good") 1 station.level_state false LevelMergeStatus.rebasing)
      (Raised (setup "good") 1 station.level_state false)
      (handle_level_complete (setup "good") 1 station)
handle_level_complete_lem_example = handle_level_complete_lem (setup "good") 1 station
