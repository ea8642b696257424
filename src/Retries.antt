-- ===== src/Retries.antt =====
-- zerg/task_retry_manager.py, over the shared tasks and the LevelController in memory. The readings
-- of the clock are a function of their position in the call, `random.uniform` and Python's text of
-- an integer are parameters, and an exception is `none`. Writes to the structured log are left out.
pub mod Verify
pub mod Entries
pub mod Failure
pub mod Budget
pub mod Ready
pub mod Manual
mod Tests
use zerg.Common.{
  ℕ, ◌+◌, ◌-◌, Bool, true, false, Option, none, some, List, [], ◌∷◌, ◌++◌, String, ltb,
  if◌then◌else◌, get_or, ◌>>=◌,
}
use zerg.Common.Int.{pos_part}
use zerg.Constants.{value, pending, failed}
use zerg.Levels.{LevelController}
use zerg.Levels.Marks.{mark_task_failed}
use zerg.Backoff.{Uniform, calculate_delay}
use zerg.State.{
  StaleTask, Stamp, blank, at, Tasks, entry, set_task_status, get_task_status, is_status,
  get_failed_tasks, get_stale_in_progress_tasks,
}
use zerg.State.Retry.{
  waiting_retry, get_retry_count, increment_retry, set_retry_schedule, reset_retries,
  get_tasks_ready_for_retry,
}
use Prim.Native.String.{◌++◌ as ◌^^◌}

-- The settings under `workers` in the configuration, with the ticks in a tenth of a second.
pub record Config : Type 0 where
  pub max_retry_attempts : ℕ
  pub backoff_strategy : String
  pub backoff_base_seconds : ℕ
  pub backoff_max_seconds : ℕ
  pub ticks : ℕ

-- What the manager appends to the execution log.
pub data Event : Type 0 where
  task_retry_scheduled :
      (task_id : String) (worker_id retry_count delay next_retry_at : ℕ) (error : String) → Event
  task_failed_permanent : (task_id : String) (worker_id retry_count : ℕ) (error : String) → Event
  task_retry_ready task_manual_retry : (task_id : String) → Event
  task_stale_detected : (task_id : String) (worker_id : Option ℕ) (elapsed timeout : ℕ) → Event

pub record Manager : Type 0 where
  pub tasks : Tasks
  pub levels : LevelController
  pub log : List Event

-- `append_event`
abbrev pub append_event : Event → Manager → Manager
append_event e m = record m { log = m.log ++ e ∷ [] }

abbrev pub put_tasks : Tasks → Manager → Manager
put_tasks tasks m = record m { tasks = tasks }

-- The clock after `n` readings.
abbrev pub after : ℕ → (ℕ → ℕ) → ℕ → ℕ
after n clock i = clock (n + i)

-- What a call reads from outside.
pub record Outside : Type 0 where
  pub uniform : Uniform
  pub clock : ℕ → ℕ
  pub str : ℕ → String

-- The branch with retries left, when the delay is known.
unfoldable pub schedule : Outside → String → ℕ → String → ℕ → Manager → Manager
schedule o task_id worker_id error delay m =
    let next_retry_at = o.clock 0 + delay in
    let (count, tasks) = increment_retry task_id (some (at next_retry_at)) (o.clock 1) m.tasks in
    let scheduled = set_retry_schedule task_id (at next_retry_at) tasks in
    append_event (task_retry_scheduled task_id worker_id count delay next_retry_at error) (
      put_tasks (set_task_status task_id waiting_retry none none (o.clock 2) (o.clock 3) scheduled)
        m)

-- The branch with no retry left.
unfoldable pub give_up : Outside → String → ℕ → String → Manager → Manager
give_up o task_id worker_id error m =
    let count = get_retry_count task_id m.tasks in
    let message = "Failed after " ^^ (o.str count ^^ (" retries: " ^^ error)) in
    append_event (task_failed_permanent task_id worker_id count error) (record m {
      levels = mark_task_failed task_id m.levels;
      tasks =
          set_task_status task_id (value failed) (some worker_id) (some message) (o.clock 0)
            (o.clock 1) m.tasks;
    })

-- Whether a retry was scheduled; `none` is the ValueError for an unknown strategy.
unfoldable pub handle_task_failure :
    Config → Outside → String → ℕ → String → Manager → Option (Bool × Manager)
handle_task_failure config o task_id worker_id error m =
    let count = get_retry_count task_id m.tasks in
    if ltb count config.max_retry_attempts
    then elim (calculate_delay o.uniform config.ticks (count + 1) config.backoff_strategy
        config.backoff_base_seconds config.backoff_max_seconds) [
          | none ↦ none
          | some delay ↦ some (true, schedule o task_id worker_id error (pos_part delay) m)
        ]
    else some (false, give_up o task_id worker_id error m)

-- One round of the loop of `check_stale_tasks`.
unfoldable pub fail_stale : Config → Outside → ℕ → StaleTask → Manager → Option (Bool × Manager)
fail_stale config o timeout t m =
    let error =
      "Task stale: in_progress for "
      ^^ (o.str t.elapsed ^^ ("s exceeds " ^^ (o.str timeout ^^ "s timeout"))) in
    handle_task_failure config o t.task_id (get_or t.worker_id 0) error
      (append_event (task_stale_detected t.task_id t.worker_id t.elapsed timeout) m)

unfoldable pub fail_all_stale :
    Config → Outside → ℕ → List StaleTask → Manager → Option (List String × Manager)
fail_all_stale config o timeout [] m = some ([], m)
fail_all_stale config o timeout (t ∷ ts) m =
    let later = record o { clock = after 4 o.clock } in
    do
      (scheduled, m') ← fail_stale config o timeout t m
      (requeued, m'') ← fail_all_stale config later timeout ts m'
      some (if scheduled then t.task_id ∷ requeued else requeued, m'')

-- The tasks that were queued for retry.
unfoldable pub check_stale_tasks : Config → Outside → ℕ → Manager → Option (List String × Manager)
check_stale_tasks config o timeout m =
    fail_all_stale config (record o { clock = after 1 o.clock }) timeout
      (get_stale_in_progress_tasks timeout (o.clock 0) m.tasks) m

unfoldable pub requeue : (ℕ → ℕ) → String → Manager → Manager
requeue clock task_id m =
    let tasks = set_task_status task_id (value pending) none none (clock 0) (clock 1) m.tasks in
    append_event (task_retry_ready task_id) (put_tasks (set_retry_schedule task_id blank tasks) m)

unfoldable pub requeue_all : (ℕ → ℕ) → List String → Manager → Manager
requeue_all clock [] m = m
requeue_all clock (k ∷ ks) m = requeue_all (after 2 clock) ks (requeue clock k m)

unfoldable pub check_retry_ready_tasks : (ℕ → ℕ) → Manager → Manager
check_retry_ready_tasks clock m =
    requeue_all (after 1 clock) (get_tasks_ready_for_retry (clock 0) m.tasks) m

unfoldable pub retry_task : (ℕ → ℕ) → String → Manager → Bool × Manager
retry_task clock task_id m =
    if is_status (value failed) (get_task_status task_id m.tasks)
    then (
      true,
      append_event (task_manual_retry task_id) (
          put_tasks
            (set_task_status task_id (value pending) none none (clock 0) (clock 1)
              (reset_retries task_id m.tasks))
            m),
    )
    else (false, m)

unfoldable pub retry_each : (ℕ → ℕ) → List String → Manager → List String × Manager
retry_each clock [] m = ([], m)
retry_each clock (k ∷ ks) m =
    let (retried, m') = retry_task clock k m in
    let (rest, m'') = retry_each (after 2 clock) ks m' in (if retried then k ∷ rest else rest, m'')

-- The tasks that were queued for retry.
unfoldable pub retry_all_failed : (ℕ → ℕ) → Manager → List String × Manager
retry_all_failed clock m = retry_each clock (get_failed_tasks m.tasks) m
