-- ===== src/Workers.antt =====
-- zerg/state/worker_repo.py over the "workers" part of the shared state, WorkerState of
-- zerg/types.py, and zerg/worker_registry.py. The key of a stored worker is the text of its number,
-- and is kept as the number; times are ticks, and context_usage counts a fixed fraction. A missing
-- key and a stored None are both none; a missing "workers" entry is an empty dictionary.
pub mod Status
pub mod Stored
pub mod Registry
mod Tests
use zerg.Common.{
  ℕ, zero, suc, Bool, true, false, not, ◌&&◌, ◌||◌, Option, none, some, List, [], ◌∷◌, String, ◌==◌,
  nat_eq, string_eq, if◌then◌else◌, get_or, select, is_none, elem, all, map, ◌>>=◌,
}
use zerg.Common.Dict.{Dict, lookup, insert, keys}
use zerg.State.{Stamp, blank, at}
use zerg.Workers.Status.{WorkerStatus, value, worker_status, ready}

pub record WorkerState : Type 0 where
  pub worker_id : ℕ
  pub status : WorkerStatus
  pub current_task : Option String
  pub port : Option ℕ
  pub container_id : Option String
  pub worktree_path : Option String
  pub branch : Option String
  pub health_check_at : Option ℕ
  pub started_at : Option ℕ
  pub ready_at : Option ℕ
  pub last_task_completed_at : Option ℕ
  pub tasks_completed : ℕ
  pub context_usage : ℕ

-- The dictionary of a worker in the state file.
pub record StoredWorker : Type 0 where
  pub worker_id : Option ℕ
  pub status : Option String
  pub current_task : Option String
  pub port : Option ℕ
  pub container_id : Option String
  pub worktree_path : Option String
  pub branch : Option String
  pub health_check_at : Option Stamp
  pub started_at : Option Stamp
  pub ready_at : Option Stamp
  pub last_task_completed_at : Option Stamp
  pub tasks_completed : Option ℕ
  pub context_usage : Option ℕ

-- `t.isoformat() if t else None`
abbrev pub stamped : Option ℕ → Option Stamp
stamped none = none
stamped (some t) = some (at t)

-- `datetime.fromisoformat(v) if v else None`
abbrev pub unstamped : Option Stamp → Option ℕ
unstamped none = none
unstamped (some blank) = none
unstamped (some (at t)) = some t

unfoldable pub to_dict : WorkerState → StoredWorker
to_dict w = record {
  worker_id = some w.worker_id;
  status = some (value w.status);
  current_task = w.current_task;
  port = w.port;
  container_id = w.container_id;
  worktree_path = w.worktree_path;
  branch = w.branch;
  health_check_at = stamped w.health_check_at;
  started_at = stamped w.started_at;
  ready_at = stamped w.ready_at;
  last_task_completed_at = stamped w.last_task_completed_at;
  tasks_completed = some w.tasks_completed;
  context_usage = some w.context_usage;
}

-- The worker, or none for the KeyError of a missing number or status and the ValueError of a
-- status with no member.
unfoldable pub from_dict : StoredWorker → Option WorkerState
from_dict d = d.worker_id >>= λ worker_id. d.status >>= λ v. worker_status v >>= λ status.
    some (record {
      worker_id = worker_id;
      status = status;
      current_task = d.current_task;
      port = d.port;
      container_id = d.container_id;
      worktree_path = d.worktree_path;
      branch = d.branch;
      health_check_at = unstamped d.health_check_at;
      started_at = unstamped d.started_at;
      ready_at = unstamped d.ready_at;
      last_task_completed_at = unstamped d.last_task_completed_at;
      tasks_completed = get_or d.tasks_completed 0;
      context_usage = get_or d.context_usage 0;
    })

abbrev pub Workers : Type 0
Workers = Dict ℕ StoredWorker

-- `not worker_data`
unfoldable pub is_blank : StoredWorker → Bool
is_blank d =
    is_none d.worker_id
    && is_none d.status
    && is_none d.current_task
    && is_none d.port
    && is_none d.container_id
    && is_none d.worktree_path
    && is_none d.branch
    && is_none d.health_check_at
    && is_none d.started_at
    && is_none d.ready_at
    && is_none d.last_task_completed_at
    && is_none d.tasks_completed
    && is_none d.context_usage

pub data Fetched : Type 0 where
  absent : Fetched
  raised : Fetched
  found : WorkerState → Fetched

-- `WorkerState.from_dict` of an entry, with its exception.
abbrev pub fetched : Option WorkerState → Fetched
fetched none = raised
fetched (some w) = found w

unfoldable pub get_worker_state : ℕ → Workers → Fetched
get_worker_state worker_id workers = elim (lookup worker_id workers) [
  | none ↦ absent
  | some d ↦ if is_blank d then absent else fetched (from_dict d)
]

unfoldable pub set_worker_state : WorkerState → Workers → Workers
set_worker_state w workers = insert w.worker_id (to_dict w) workers

-- All workers in the order of the file, or none when one of them does not read back.
unfoldable pub get_all_workers : Workers → Option (Dict ℕ WorkerState)
get_all_workers [] = some []
get_all_workers ((k, d) ∷ workers) =
    from_dict d >>= λ w. get_all_workers workers >>= λ rest. some ((k, w) ∷ rest)

unfoldable pub set_worker_ready : ℕ → ℕ → Workers → Workers
set_worker_ready worker_id now workers = elim (lookup worker_id workers) [
  | none ↦ workers
  | some d ↦
      if is_blank d
      then workers
      else insert worker_id (record d { status = some (value ready); ready_at = some (at now) })
          workers
]

-- `worker_data.get("status") == WorkerStatus.READY.value`
abbrev pub is_ready : StoredWorker → Bool
is_ready d = elim d.status [ none ↦ false | some v ↦ v == value ready ]

unfoldable pub get_ready_workers : Workers → List ℕ
get_ready_workers workers = keys (select (λ e. is_ready e.1) workers)

-- Each element of the list is what a round of the loop loads before the timeout.
unfoldable pub wait_for_workers_ready : List ℕ → List Workers → Bool
wait_for_workers_ready worker_ids [] = false
wait_for_workers_ready worker_ids (workers ∷ later) =
    all (λ w. elem w (get_ready_workers workers)) worker_ids
    || wait_for_workers_ready worker_ids later
