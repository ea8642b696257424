-- ===== src/Retries/Entries.antt =====
-- What each call of the retry manager does to the entry of each task.
use zerg.Common.{
  ℕ, ◌+◌, ◌≡◌, true, ◌&&◌, none, some, String, ◌==◌, nat_eq, string_eq, if◌then◌else◌, arith,
  beq_refl,
}
use zerg.Constants.{value, pending, failed}
use zerg.State.{
  Stamp, blank, at, TaskState, Tasks, entry, restated, set_task_status, get_task_status, is_status,
}
use zerg.State.Claims.{entry-insert, entry-set_task_status}
use zerg.State.Retry.{
  waiting_retry, get_retry_count, increment_retry, set_retry_schedule, reset_retries,
}
use zerg.Retries.{Outside, Manager, schedule, give_up, requeue, retry_task}
use Prim.Native.String.{◌++◌ as ◌^^◌}

entry-increment_retry :
    (k j : String) (n now : ℕ) (tasks : Tasks)
    → entry j (increment_retry k (some (at n)) now tasks).1 ≡ (
        if k == j
        then record (entry k tasks) {
          retry_count = some (get_retry_count k tasks + 1);
          last_retry_at = some now;
          next_retry_at = some (at n);
        }
        else entry j tasks)
unfolding increment_retry
entry-increment_retry k j n now tasks = entry-insert k j _ tasks

entry-set_retry_schedule :
    (k j : String) (s : Stamp) (tasks : Tasks)
    → entry j (set_retry_schedule k s tasks)
      ≡ (if k == j then record (entry k tasks) { next_retry_at = some s } else entry j tasks)
unfolding set_retry_schedule
entry-set_retry_schedule k j s tasks = entry-insert k j _ tasks

entry-reset_retries :
    (k j : String) (tasks : Tasks)
    → is_status (value failed) (get_task_status k tasks) ≡ true
    → entry j (reset_retries k tasks) ≡ (
        if k == j
        then record (entry k tasks) { retry_count = some 0; last_retry_at = none }
        else entry j tasks)
unfolding reset_retries get_task_status
entry-reset_retries k j tasks h = ground (
  arith,
  entry-insert k j (record (entry k tasks) { retry_count = some 0; last_retry_at = none }) tasks,
)

-- The entry of a task that waits for its retry.
abbrev pub waiting : Outside → ℕ → ℕ → TaskState → TaskState
waiting o delay count t = record t {
  status = some waiting_retry;
  updated_at = some (o.clock 2);
  retry_count = some count;
  last_retry_at = some (o.clock 1);
  next_retry_at = some (at (o.clock 0 + delay));
}

pub entry-schedule :
    (o : Outside) (k j error : String) (w delay : ℕ) (m : Manager)
    → entry j (schedule o k w error delay m).tasks ≡ (
        if k == j
        then waiting o delay (get_retry_count k m.tasks + 1) (entry k m.tasks)
        else entry j m.tasks)
unfolding schedule
entry-schedule o k j error w delay m =
    let n = o.clock 0 + delay in
    let counted = (increment_retry k (some (at n)) (o.clock 1) m.tasks).1 in
    let scheduled = set_retry_schedule k (at n) counted in
    ground (
      arith,
      entry-set_task_status k j waiting_retry none none (o.clock 2) (o.clock 3) scheduled,
      entry-set_retry_schedule k j (at n) counted,
      entry-set_retry_schedule k k (at n) counted,
      entry-increment_retry k j n (o.clock 1) m.tasks,
      entry-increment_retry k k n (o.clock 1) m.tasks,
      beq_refl k,
    )

pub entry-give_up :
    (o : Outside) (k j error : String) (w : ℕ) (m : Manager)
    → let message =
        "Failed after " ^^ (o.str (get_retry_count k m.tasks) ^^ (" retries: " ^^ error)) in
      entry j (give_up o k w error m).tasks ≡ (
        if k == j
        then restated
            (value failed)
            (some w)
            (some message)
            (o.clock 0)
            (o.clock 1)
            (entry k m.tasks)
        else entry j m.tasks)
unfolding give_up
entry-give_up o k j error w m = entry-set_task_status k j _ _ _ _ _ m.tasks

-- The entry of a task that is queued again.
abbrev pub requeued : (ℕ → ℕ) → TaskState → TaskState
requeued clock t = record t {
  status = some (value pending);
  updated_at = some (clock 0);
  next_retry_at = some blank;
}

pub entry-requeue :
    (clock : ℕ → ℕ) (k j : String) (m : Manager)
    → entry j (requeue clock k m).tasks
      ≡ (if k == j then requeued clock (entry k m.tasks) else entry j m.tasks)
unfolding requeue
entry-requeue clock k j m =
    let tasks = set_task_status k (value pending) none none (clock 0) (clock 1) m.tasks in
    ground (
      arith,
      entry-set_retry_schedule k j blank tasks,
      entry-set_task_status k j (value pending) none none (clock 0) (clock 1) m.tasks,
      entry-set_task_status k k (value pending) none none (clock 0) (clock 1) m.tasks,
      beq_refl k,
    )

-- The entry of a failed task after a manual retry.
abbrev pub retried : (ℕ → ℕ) → TaskState → TaskState
retried clock t = record t {
  status = some (value pending);
  updated_at = some (clock 0);
  retry_count = some 0;
  last_retry_at = none;
}

pub entry-retry_task :
    (clock : ℕ → ℕ) (k j : String) (m : Manager)
    → entry j (retry_task clock k m).1.tasks ≡ (
        if is_status (value failed) (get_task_status k m.tasks) && (k == j)
        then retried clock (entry k m.tasks)
        else entry j m.tasks)
unfolding retry_task
entry-retry_task clock k j m =
    let tasks = reset_retries k m.tasks in
    ground (
      arith,
      entry-set_task_status k j (value pending) none none (clock 0) (clock 1) tasks,
      entry-reset_retries k j m.tasks,
      entry-reset_retries k k m.tasks,
      beq_refl k,
    )
