-- ===== src/State/Retry.antt =====
-- zerg/state/retry_repo.py over the "tasks" part of the shared state.
use zerg.Common.{
  ℕ, ◌+◌, Bool, false, ◌&&◌, ◌||◌, Option, none, some, List, String, string_eq, leb, if◌then◌else◌,
  get_or, select,
}
use zerg.Common.Dict.{insert, contains, keys}
use zerg.Constants.{value, failed}
use zerg.State.{Stamp, blank, at, TaskState, Tasks, entry, is_status}

unfoldable pub get_retry_count : String → Tasks → ℕ
get_retry_count task_id tasks = get_or (entry task_id tasks).retry_count 0

-- `if next_retry_at: task_state["next_retry_at"] = next_retry_at`
abbrev pub set_next_retry : Option Stamp → TaskState → TaskState
set_next_retry none t = t
set_next_retry (some blank) t = t
set_next_retry (some (at n)) t = record t { next_retry_at = some (at n) }

-- The new count, and the state.
unfoldable pub increment_retry : String → Option Stamp → ℕ → Tasks → ℕ × Tasks
increment_retry task_id next_retry_at now tasks =
    let count = get_retry_count task_id tasks + 1 in
    (
      count,
      insert task_id
          (set_next_retry next_retry_at
            (record (entry task_id tasks) { retry_count = some count; last_retry_at = some now }))
          tasks,
    )

unfoldable pub get_retry_schedule : String → Tasks → Option Stamp
get_retry_schedule task_id tasks = (entry task_id tasks).next_retry_at

unfoldable pub set_retry_schedule : String → Stamp → Tasks → Tasks
set_retry_schedule task_id next_retry_at tasks =
    insert task_id (record (entry task_id tasks) { next_retry_at = some next_retry_at }) tasks

abbrev pub waiting_retry : String
waiting_retry = "waiting_retry"

-- `next_retry and next_retry <= now`
abbrev pub is_due : ℕ → Option Stamp → Bool
is_due now none = false
is_due now (some blank) = false
is_due now (some (at n)) = leb n now

abbrev pub is_ready : ℕ → TaskState → Bool
is_ready now t =
    is_due now t.next_retry_at
    && (is_status (value failed) t.status || is_status waiting_retry t.status)

unfoldable pub get_tasks_ready_for_retry : ℕ → Tasks → List String
get_tasks_ready_for_retry now tasks = keys (select (λ e. is_ready now e.1) tasks)

unfoldable pub reset_retries : String → Tasks → Tasks
reset_retries task_id tasks =
    if contains task_id tasks
    then insert task_id
        (record (entry task_id tasks) { retry_count = some 0; last_retry_at = none }) tasks
    else tasks
