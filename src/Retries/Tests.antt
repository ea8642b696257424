-- ===== src/Retries/Tests.antt =====
-- Runs of zerg/task_retry_manager.py: two retries, a linear backoff of 30 seconds up to 300.
use zerg.Common.{
  ℕ, ◌+◌, ◌*◌, ◌≡◌, refl, true, false, some, [], ◌∷◌, String, nat_eq, string_eq, arith,
  if◌then◌else◌,
}
use zerg.Common.Int.{pos, ◌≤ℤ◌, ◌+ℤ◌, ◌-ℤ◌}
use zerg.Common.Dict.{lookup, insert, IsDistinct}
use zerg.Constants.{value, failed}
use zerg.Backoff.{Uniform, min, raw_delay, jittered, calculate_delay, calculate_delay_bounds}
use zerg.State.{at, TaskState, empty, entry, is_status, set_task_status, get_failed_tasks}
use zerg.State.Retry.{get_retry_count, set_retry_schedule, get_tasks_ready_for_retry, is_ready}
use zerg.Retries.{
  Config, Outside, Manager, handle_task_failure, check_retry_ready_tasks, retry_all_failed,
  schedule, requeue_all, requeue,
}
use zerg.Retries.Failure.{
  IsScheduled, IsGivenUp, handle_task_failure-IsScheduled, handle_task_failure-IsGivenUp,
}
use zerg.Retries.Budget.{WithinBudget, start, next, failure, ready, retry_budget}
use zerg.Retries.Ready.{pending_again, check_retry_ready_tasks_lem}
use zerg.Retries.Manual.{restored, retry_all_failed_lem}

-- A generator that always draws its lower bound.
abbrev lowest : Uniform
lowest = record { draw = λ a b. a; lower = λ a b h. omega arith; upper = λ a b h. h }

abbrev config : Config
config = record {
  max_retry_attempts = 2;
  backoff_strategy = "linear";
  backoff_base_seconds = 30;
  backoff_max_seconds = 300;
  ticks = 1;
}

abbrev outside : ℕ → Outside
outside now = record { uniform = lowest; clock = λ i. now + i; str = λ n. "0" }

abbrev task : String → ℕ → TaskState
task status count = record empty { status = some status; retry_count = some count }

abbrev manager : Manager
manager = record {
  tasks = ("A", task "in_progress" 0) ∷ ("B", task "failed" 2) ∷ [];
  levels = record { levels = []; tasks = []; current_level = 1; started = true };
  log = [];
}

calculate_delay_bounds_example :
    (pos (9 * (min 60 300 * 1)) ≤ℤ pos 540)
    × (pos 540 ≤ℤ pos (11 * (min 60 300 * 1)))
    × (pos 540 ≤ℤ pos (11 * (300 * 1)))
unfolding calculate_delay raw_delay jittered ◌+ℤ◌ ◌-ℤ◌
calculate_delay_bounds_example =
    calculate_delay_bounds lowest 1 2 30 300 60 "linear" (pos 540) refl refl

handle_task_failure-IsScheduled_example :
    (m' : Manager) × (handle_task_failure config (outside 100) "A" 1 "exit 1" manager
      ≡ some (true, m'))
    × IsScheduled (outside 100) "A" manager m'
unfolding get_retry_count entry lookup raw_delay
handle_task_failure-IsScheduled_example =
    handle_task_failure-IsScheduled config (outside 100) "A" "exit 1" 1 manager refl (30, refl)

handle_task_failure-IsGivenUp_example :
    (m' : Manager) × (handle_task_failure config (outside 100) "B" 1 "exit 1" manager
      ≡ some (false, m'))
    × IsGivenUp "B" 1 manager m'
unfolding get_retry_count entry lookup
handle_task_failure-IsGivenUp_example =
    handle_task_failure-IsGivenUp config (outside 100) "B" "exit 1" 1 manager refl

manager-IsDistinct : IsDistinct manager.tasks
unfolding lookup
manager-IsDistinct = (refl, (refl, tt))

-- Task A waits since tick 100 for its retry.
abbrev waiting : Manager
waiting = record manager {
  tasks = ("A", record (task "waiting_retry" 1) { next_retry_at = some (at 370) }) ∷ [];
}

check_retry_ready_tasks_lem_example :
    let t = entry "A" waiting.tasks in
    let t' = entry "A" (check_retry_ready_tasks (λ i. 380 + i) waiting).tasks in
    (t' ≡ (if is_ready 380 t then pending_again t'.updated_at t else t)) × (is_ready 380 t' ≡ false)
unfolding lookup
check_retry_ready_tasks_lem_example =
    check_retry_ready_tasks_lem (λ i. 380 + i) "A" waiting (refl, tt)

requeues_when_due :
    (entry "A" (check_retry_ready_tasks (λ i. 380 + i) waiting).tasks).status ≡ some "pending"
unfolding check_retry_ready_tasks get_tasks_ready_for_retry requeue_all requeue set_task_status
    set_retry_schedule entry lookup insert
requeues_when_due = refl

retry_all_failed_lem_example :
    let t = entry "B" manager.tasks in
    let (retried, m') = retry_all_failed (λ i. 500 + i) manager in
    let t' = entry "B" m'.tasks in
    (retried ≡ get_failed_tasks manager.tasks)
    × (t' ≡ (if is_status (value failed) t.status then restored t'.updated_at t else t))
    × (is_status (value failed) t'.status ≡ false)
retry_all_failed_lem_example = retry_all_failed_lem (λ i. 500 + i) "B" manager manager-IsDistinct

manager-WithinBudget : WithinBudget config manager.tasks
unfolding get_retry_count entry lookup
manager-WithinBudget k = ground arith

abbrev after_failure : Manager
after_failure = schedule (outside 100) "A" 1 "exit 1" 270 manager

failure_runs :
    handle_task_failure config (outside 100) "A" 1 "exit 1" manager ≡ some (true, after_failure)
unfolding handle_task_failure calculate_delay raw_delay jittered ◌+ℤ◌ ◌-ℤ◌ get_retry_count entry
    lookup
failure_runs = refl

retry_budget_example :
    WithinBudget config (check_retry_ready_tasks (λ i. 380 + i) after_failure).tasks
retry_budget_example =
    retry_budget config
      (next (next start (failure (outside 100) "A" "exit 1" 1 true after_failure failure_runs))
        (ready (λ i. 380 + i)))
      manager-WithinBudget
