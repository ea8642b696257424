-- ===== src/Workers/Tests.antt =====
-- Runs of zerg/state/worker_repo.py and zerg/worker_registry.py.
use zerg.Common.{ℕ, ◌≡◌, refl, true, none, some, [], ◌∷◌, ◌==◌, nat_eq, string_eq, if◌then◌else◌}
use zerg.Common.Dict.{lookup, insert}
use zerg.Workers.Status.{WorkerStatus}
use zerg.Workers.{
  WorkerState, to_dict, Workers, is_blank, found, get_worker_state, set_worker_state,
  set_worker_ready, get_ready_workers, wait_for_workers_ready,
}
use zerg.Workers.Stored.{get_worker_state-set_worker_state}
use zerg.Workers.Registry.{WorkerRegistry, register, update_status, active, size}

abbrev worker : ℕ → WorkerStatus → WorkerState
worker id status = record {
  worker_id = id;
  status = status;
  current_task = some "A";
  port = some 49152;
  container_id = none;
  worktree_path = none;
  branch = some "zerg/worker";
  health_check_at = some 7;
  started_at = some 3;
  ready_at = none;
  last_task_completed_at = none;
  tasks_completed = 2;
  context_usage = 0;
}

abbrev one_worker : Workers
one_worker = set_worker_state (worker 1 WorkerStatus.running) []

get_worker_state-set_worker_state_example :
    get_worker_state 1 (set_worker_state (worker 2 WorkerStatus.idle) one_worker) ≡ (
      if (worker 2 WorkerStatus.idle).worker_id == 1
      then found (worker 2 WorkerStatus.idle)
      else get_worker_state 1 one_worker)
get_worker_state-set_worker_state_example =
    get_worker_state-set_worker_state (worker 2 WorkerStatus.idle) one_worker 1

becomes_ready : get_ready_workers (set_worker_ready 1 9 one_worker) ≡ 1 ∷ []
unfolding get_ready_workers set_worker_ready set_worker_state to_dict is_blank lookup insert
becomes_ready = refl

second_poll :
    wait_for_workers_ready (1 ∷ []) (one_worker ∷ set_worker_ready 1 9 one_worker ∷ []) ≡ true
unfolding wait_for_workers_ready get_ready_workers set_worker_ready set_worker_state to_dict
    is_blank lookup insert
second_poll = refl

abbrev registry : WorkerRegistry
registry = register 2 (worker 2 WorkerStatus.idle) (register 1 (worker 1 WorkerStatus.running) [])

one_active : size (active (update_status 1 WorkerStatus.crashed registry)) ≡ 1
unfolding size active update_status register lookup insert
one_active = refl
