-- ===== src/Retries/Ready.antt =====
-- The tasks whose backoff has elapsed: `check_retry_ready_tasks` of zerg/task_retry_manager.py.
use zerg.Common.{
  ℕ, ◌≡◌, refl, false, Option, some, List, [], ◌∷◌, String, string_eq, if◌then◌else◌, elem, arith,
}
use zerg.Common.Dict.{IsDistinct, elem-keys-select}
use zerg.Constants.{value, pending}
use zerg.State.{blank, TaskState, Tasks, entry}
use zerg.State.Retry.{is_ready, get_tasks_ready_for_retry}
use zerg.Retries.{Manager, after, requeue, requeue_all, check_retry_ready_tasks}
use zerg.Retries.Entries.{entry-requeue}

-- The entry of a task that is queued again at some time.
abbrev pub pending_again : Option ℕ → TaskState → TaskState
pending_again updated t = record t {
  status = some (value pending);
  updated_at = updated;
  next_retry_at = some blank;
}

entry-requeue_all :
    (clock : ℕ → ℕ) (ks : List String) (j : String) (m : Manager)
    → let t = entry j m.tasks in
      let t' = entry j (requeue_all clock ks m).tasks in
      t' ≡ (if elem j ks then pending_again t'.updated_at t else t)
unfolding requeue_all
entry-requeue_all clock [] j m = refl
entry-requeue_all clock (k ∷ ks) j m =
    let rest = entry-requeue_all (after 2 clock) ks j (requeue clock k m) in
    ground (arith, rest, entry-requeue clock k j m, string_eq.same_iff k j, string_eq.same_iff j k)

ready_of_entry :
    (now : ℕ) (k : String) (tasks : Tasks)
    → IsDistinct tasks
    → elem k (get_tasks_ready_for_retry now tasks) ≡ is_ready now (entry k tasks)
unfolding get_tasks_ready_for_retry entry
ready_of_entry now k tasks u = ground (arith, elem-keys-select (is_ready now) k tasks u)

-- Exactly the tasks whose retry is due at the call's first reading of the clock, and which failed or
-- wait, are queued again: such a task is pending and has no retry time left, and but for the time of
-- its update nothing else of it changes. The entry of every other task is as before. So no task is
-- ready at that time any more.
pub check_retry_ready_tasks_lem :
    (clock : ℕ → ℕ) (k : String) (m : Manager)
    → IsDistinct m.tasks
    → let t = entry k m.tasks in
      let t' = entry k (check_retry_ready_tasks clock m).tasks in
      (t' ≡ (if is_ready (clock 0) t then pending_again t'.updated_at t else t))
      × (is_ready (clock 0) t' ≡ false)
unfolding check_retry_ready_tasks
check_retry_ready_tasks_lem clock k m u =
    let ready = get_tasks_ready_for_retry (clock 0) m.tasks in
    let same = ready_of_entry (clock 0) k m.tasks u in
    let after_all = entry-requeue_all (after 1 clock) ready k m in
    (ground (arith, same, after_all), ground (arith, same, after_all))
