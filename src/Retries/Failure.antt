-- ===== src/Retries/Failure.antt =====
-- What becomes of a task that failed: `handle_task_failure` of zerg/task_retry_manager.py. At the
-- limit of retries docs/configuration.md and ARCHITECTURE.md have the task marked blocked; the code,
-- and so what is stated here, marks it failed.
use zerg.Common.{
  ℕ, ◌+◌, ◌≤◌, ◌≡◌, refl, true, false, some, String, ◌==◌, string_eq, ltb, if◌then◌else◌, arith,
  beq_refl,
}
use zerg.Common.Int.{ℤ, pos_part}
use zerg.Constants.{value, failed}
use zerg.Levels.Marks.{mark_task_failed}
use zerg.Backoff.{raw_delay, min, jittered, calculate_delay}
use zerg.State.{at, entry}
use zerg.State.Retry.{waiting_retry, get_retry_count}
use zerg.Retries.{Config, Outside, Manager, schedule, give_up, handle_task_failure}
use zerg.Retries.Entries.{entry-schedule, entry-give_up}

-- The task waits for its retry, one more is counted, and nothing else has changed.
pub record IsScheduled (o : Outside) (k : String) (m m' : Manager) : Type 0 where
  pub status : (entry k m'.tasks).status ≡ some waiting_retry
  pub count : get_retry_count k m'.tasks ≡ get_retry_count k m.tasks + 1
  pub next : (n : ℕ) × ((entry k m'.tasks).next_retry_at ≡ some (at n)) × (o.clock 0 ≤ n)
  pub levels : m'.levels ≡ m.levels
  pub others :
      (j : String) → entry j m'.tasks ≡ (if k == j then entry k m'.tasks else entry j m.tasks)

-- The task failed for good, in the shared state and in the controller.
pub record IsGivenUp (k : String) (w : ℕ) (m m' : Manager) : Type 0 where
  pub status : (entry k m'.tasks).status ≡ some (value failed)
  pub worker : (entry k m'.tasks).worker_id ≡ some w
  pub count : get_retry_count k m'.tasks ≡ get_retry_count k m.tasks
  pub levels : m'.levels ≡ mark_task_failed k m.levels
  pub others :
      (j : String) → entry j m'.tasks ≡ (if k == j then entry k m'.tasks else entry j m.tasks)

schedule-IsScheduled :
    (o : Outside) (k error : String) (w delay : ℕ) (m : Manager)
    → IsScheduled o k m (schedule o k w error delay m)
unfolding schedule get_retry_count
schedule-IsScheduled o k error w delay m =
    let own = entry-schedule o k k error w delay m in
    record {
      status = ground (arith, own, beq_refl k);
      count = ground (arith, own, beq_refl k);
      next = (o.clock 0 + delay, ground (arith, own, beq_refl k), omega arith);
      levels = refl;
      others = λ j. ground (arith, own, entry-schedule o k j error w delay m, beq_refl k);
    }

give_up-IsGivenUp :
    (o : Outside) (k error : String) (w : ℕ) (m : Manager) → IsGivenUp k w m (give_up o k w error m)
unfolding give_up get_retry_count
give_up-IsGivenUp o k error w m =
    let own = entry-give_up o k k error w m in
    record {
      status = ground (arith, own, beq_refl k);
      worker = ground (arith, own, beq_refl k);
      count = ground (arith, own, beq_refl k);
      levels = refl;
      others = λ j. ground (arith, own, entry-give_up o k j error w m, beq_refl k);
    }

-- The three strategies that the configuration knows.
abbrev pub IsKnown : Config → ℕ → Type 0
IsKnown config attempt =
    (delay : ℕ) × (raw_delay attempt config.backoff_strategy config.backoff_base_seconds
      ≡ some delay)

calculate_delay_known :
    (config : Config) (o : Outside) (attempt : ℕ)
    → IsKnown config attempt
    → (delay : ℤ) × (calculate_delay o.uniform config.ticks attempt config.backoff_strategy
          config.backoff_base_seconds config.backoff_max_seconds
        ≡ some delay)
unfolding calculate_delay
calculate_delay_known config o attempt (delay, h) = (
  jittered o.uniform config.ticks (min delay config.backoff_max_seconds),
  rw (h, calculate_delay) refl,
)

-- With a known strategy a failure never raises. While the retry count is below the limit the answer
-- is yes: the task waits for a time not before now, its count goes up by one, and the controller
-- and every other task are as before.
pub handle_task_failure-IsScheduled :
    (config : Config) (o : Outside) (k error : String) (w : ℕ) (m : Manager)
    → ltb (get_retry_count k m.tasks) config.max_retry_attempts ≡ true
    → IsKnown config (get_retry_count k m.tasks + 1)
    → (m' : Manager) × (handle_task_failure config o k w error m ≡ some (true, m'))
      × IsScheduled o k m m'
unfolding handle_task_failure
handle_task_failure-IsScheduled config o k error w m h known =
    let (delay, e) = calculate_delay_known config o (get_retry_count k m.tasks + 1) known in
    (
      schedule o k w error (pos_part delay) m,
      rw (h, e) refl,
      schedule-IsScheduled o k error w (pos_part delay) m,
    )

-- At the limit the answer is no: the task is failed in the shared state, with its worker and its
-- count kept, the controller has marked it failed, and every other task is as before.
pub handle_task_failure-IsGivenUp :
    (config : Config) (o : Outside) (k error : String) (w : ℕ) (m : Manager)
    → ltb (get_retry_count k m.tasks) config.max_retry_attempts ≡ false
    → (m' : Manager) × (handle_task_failure config o k w error m ≡ some (false, m'))
      × IsGivenUp k w m m'
unfolding handle_task_failure
handle_task_failure-IsGivenUp config o k error w m h =
    (give_up o k w error m, rw h refl, give_up-IsGivenUp o k error w m)
