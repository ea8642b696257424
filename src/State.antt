-- ===== src/State.antt =====
-- zerg/state/task_repo.py and zerg/dependency_checker.py over the "tasks" part of the shared state.
-- Each call that writes runs under `atomic_update` (zerg/state/persistence.py), which locks the
-- state file, reads it and writes it back, so a call is a function from the stored tasks to the
-- stored tasks, and the calls of several workers are a sequence of such functions. A call that only
-- reads (get_task_status, get_tasks_by_status, get_tasks_ready_for_retry) looks at the copy that
-- its process has, which is what was stored at its last load or update; it is a function of the
-- tasks, and the copy is the argument. A missing "tasks" entry is
-- read as an empty dictionary, and that is how it is modelled. Times are counted in ticks.
pub mod Claims
pub mod Exclusive
pub mod Retry
pub mod LevelRepo
pub mod Log
mod Tests
use zerg.Common.{
  is_empty, ℕ, ◌+◌, ◌-◌, Bool, true, false, not, ◌&&◌, ◌||◌, Option, none, some, List, [], ◌∷◌,
  String, ◌==◌, nat_eq, string_eq, leb, if◌then◌else◌, get_or, select,
}
use zerg.Common.Dict.{Dict, lookup, insert, keys}
use zerg.Constants.{value, todo, pending, claimed, in_progress, complete, failed}

-- What `next_retry_at` holds: the empty string, or a timestamp.
pub data Stamp : Type 0 where
  blank : Stamp
  at : ℕ → Stamp

-- The entry of a task; a missing key is `none`, and so is a stored None.
pub record TaskState : Type 0 where
  pub status : Option String
  pub worker_id : Option ℕ
  pub level : Option ℕ
  pub error : Option String
  pub retry_count : Option ℕ
  pub updated_at : Option ℕ
  pub started_at : Option ℕ
  pub completed_at : Option ℕ
  pub claimed_at : Option ℕ
  pub last_retry_at : Option ℕ
  pub next_retry_at : Option Stamp

abbrev pub Tasks : Type 0
Tasks = Dict String TaskState

-- `{}`
abbrev pub empty : TaskState
empty = record {
  status = none;
  worker_id = none;
  level = none;
  error = none;
  retry_count = none;
  updated_at = none;
  started_at = none;
  completed_at = none;
  claimed_at = none;
  last_retry_at = none;
  next_retry_at = none;
}

-- `state["tasks"].get(task_id, {})`
unfoldable pub entry : String → Tasks → TaskState
entry task_id tasks = get_or (lookup task_id tasks) empty

unfoldable pub get_task_status : String → Tasks → Option String
get_task_status task_id tasks = elim (lookup task_id tasks) [ none ↦ none | some t ↦ t.status ]

abbrev pub is_status : String → Option String → Bool
is_status s o = elim o [ none ↦ false | some v ↦ v == s ]

-- `if error:`
abbrev pub set_error : Option String → TaskState → TaskState
set_error none t = t
set_error (some e) t = if e == "" then t else record t { error = some e }

abbrev pub set_worker : Option ℕ → TaskState → TaskState
set_worker none t = t
set_worker (some w) t = record t { worker_id = some w }

abbrev pub set_completed : String → ℕ → TaskState → TaskState
set_completed status now t =
    if status == value complete then record t { completed_at = some now } else t

abbrev pub set_started : String → ℕ → TaskState → TaskState
set_started status now t =
    if status == value in_progress then record t { started_at = some now } else t

-- The entry after `set_task_status`, with its readings of the clock.
abbrev pub restated : String → Option ℕ → Option String → ℕ → ℕ → TaskState → TaskState
restated status worker_id error now now' t = set_started status now' (
    set_completed status now' (
      set_error error
        (set_worker worker_id (record t { status = some status; updated_at = some now }))))

unfoldable pub set_task_status : String → String → Option ℕ → Option String → ℕ → ℕ → Tasks → Tasks
set_task_status task_id status worker_id error now now' tasks =
    insert task_id (restated status worker_id error now now' (entry task_id tasks)) tasks

unfoldable pub record_task_claimed : String → ℕ → ℕ → Tasks → Tasks
record_task_claimed task_id worker_id now tasks =
    insert task_id
      (record (entry task_id tasks) { claimed_at = some now; worker_id = some worker_id }) tasks

-- zerg/dependency_checker.py, over the dependencies that the parser holds.
unfoldable pub get_incomplete_dependencies :
    Dict String (List String) → String → Tasks → List String
get_incomplete_dependencies dependencies task_id tasks =
    select (λ d. not (is_status (value complete) (get_task_status d tasks)))
      (get_or (lookup task_id dependencies) [])

unfoldable pub are_dependencies_complete : Dict String (List String) → String → Tasks → Bool
are_dependencies_complete dependencies task_id tasks =
    is_empty (get_incomplete_dependencies dependencies task_id tasks)

unfoldable pub get_all_dependencies : Dict String (List String) → String → List String
get_all_dependencies dependencies task_id = get_or (lookup task_id dependencies) []

abbrev pub statuses : List String → Tasks → Dict String String → Dict String String
statuses [] tasks d = d
statuses (k ∷ ks) tasks d = statuses ks tasks (insert k (get_or (get_task_status k tasks) "") d)

unfoldable pub get_dependency_status :
    Dict String (List String) → String → Tasks → Dict String String
get_dependency_status dependencies task_id tasks =
    statuses (get_all_dependencies dependencies task_id) tasks []

-- `current_level is not None and task_state.get("level") != current_level`
abbrev pub wrong_level : Option ℕ → Option ℕ → Bool
wrong_level none level = false
wrong_level (some current) none = true
wrong_level (some current) (some level) = not (level == current)

abbrev pub is_blocked : Option (Dict String (List String)) → String → Tasks → Bool
is_blocked none task_id tasks = false
is_blocked (some dependencies) task_id tasks =
    not (are_dependencies_complete dependencies task_id tasks)

abbrev pub is_claimable : String → Bool
is_claimable status = status == value todo || status == value pending

-- `existing_worker is not None and existing_worker != worker_id`
abbrev pub is_taken : Option ℕ → ℕ → Bool
is_taken none worker_id = false
is_taken (some w) worker_id = not (w == worker_id)

-- The early returns of `claim_task`, in their order.
unfoldable pub refuses_claim :
    String → ℕ → Option ℕ → Option (Dict String (List String)) → Tasks → Bool
refuses_claim task_id worker_id current_level checker tasks =
    let t = entry task_id tasks in
    if wrong_level current_level t.level
    then true
    else if is_blocked checker task_id tasks
    then true
    else if not (is_claimable (get_or t.status (value pending)))
    then true
    else is_taken t.worker_id worker_id

unfoldable pub claim_task :
    String → ℕ → Option ℕ → Option (Dict String (List String)) → ℕ → ℕ → Tasks → Bool × Tasks
claim_task task_id worker_id current_level checker now now' tasks =
    if refuses_claim task_id worker_id current_level checker tasks then (false, tasks) else (
      true,
      record_task_claimed task_id worker_id now'
          (set_task_status task_id (value claimed) (some worker_id) none now now tasks),
    )

-- `task_state.get("worker_id") != worker_id`
abbrev pub owns : Option ℕ → ℕ → Bool
owns none worker_id = false
owns (some w) worker_id = w == worker_id

-- A task without an entry is a throw-away `{}`, which no worker owns.
unfoldable pub release_task : String → ℕ → Tasks → Tasks
release_task task_id worker_id tasks =
    let t = entry task_id tasks in
    if not (owns t.worker_id worker_id)
    then tasks
    else insert task_id (record t { status = some (value pending); worker_id = none }) tasks

unfoldable pub get_tasks_by_status : String → Tasks → List String
get_tasks_by_status status tasks = keys (select (λ e. is_status status e.1.status) tasks)

-- The IDs that `get_failed_tasks` lists.
unfoldable pub get_failed_tasks : Tasks → List String
get_failed_tasks tasks = keys (select (λ e. is_status (value failed) e.1.status) tasks)

-- `started_at and started_at <= now - timeout`
abbrev pub is_overdue : ℕ → ℕ → Option ℕ → Bool
is_overdue now timeout none = false
is_overdue now timeout (some started) = leb (started + timeout) now

pub record StaleTask : Type 0 where
  pub task_id : String
  pub worker_id : Option ℕ
  pub started_at : ℕ
  pub elapsed : ℕ

-- The elapsed time is in ticks, unrounded, with one reading of the clock for all tasks.
unfoldable pub get_stale_in_progress_tasks : ℕ → ℕ → Tasks → List StaleTask
get_stale_in_progress_tasks timeout now [] = []
get_stale_in_progress_tasks timeout now ((k, t) ∷ tasks) =
    let rest = get_stale_in_progress_tasks timeout now tasks in
    if is_status (value in_progress) t.status && is_overdue now timeout t.started_at
    then record {
      task_id = k;
      worker_id = t.worker_id;
      started_at = get_or t.started_at 0;
      elapsed = now - get_or t.started_at 0;
    }
      ∷ rest
    else rest
