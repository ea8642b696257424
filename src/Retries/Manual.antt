-- ===== src/Retries/Manual.antt =====
-- Retries by hand: `retry_task` and `retry_all_failed` of zerg/task_retry_manager.py.
use zerg.Common.{
  All-of_elem, ℕ, ◌≡◌, refl, Bool, true, false, Option, none, some, List, [], ◌∷◌, String,
  string_eq, if◌then◌else◌, elem, arith, NoRepeat, All,
}
use zerg.Common.Dict.{IsDistinct, elem-keys-select, keys-NoRepeat}
use zerg.Constants.{value, pending, failed}
use zerg.State.{TaskState, Tasks, entry, is_status, get_task_status, get_failed_tasks}
use zerg.Retries.{Manager, after, retry_task, retry_each, retry_all_failed}
use zerg.Retries.Entries.{entry-retry_task}

abbrev is_failed : String → Tasks → Bool
is_failed k tasks = is_status (value failed) (entry k tasks).status

status_of_entry :
    (k : String) (tasks : Tasks)
    → is_status (value failed) (get_task_status k tasks) ≡ is_failed k tasks
unfolding get_task_status entry
status_of_entry k tasks = ground arith

-- The entry of a failed task after a retry by hand at some time.
abbrev pub restored : Option ℕ → TaskState → TaskState
restored updated t = record t {
  status = some (value pending);
  updated_at = updated;
  retry_count = some 0;
  last_retry_at = none;
}

All-after_retry :
    (clock : ℕ → ℕ) (k : String) (ks : List String) (m : Manager)
    → elem k ks ≡ false
    → All (λ j. is_failed j m.tasks ≡ true) ks
    → All (λ j. is_failed j (retry_task clock k m).1.tasks ≡ true) ks
All-after_retry clock k [] m n f = tt
All-after_retry clock k (j ∷ ks) m n (here, there) = (
  ground (arith, entry-retry_task clock k j m),
  All-after_retry clock k ks m (ground arith) there,
)

retry_task_answer :
    (clock : ℕ → ℕ) (k : String) (m : Manager) → (retry_task clock k m).0 ≡ is_failed k m.tasks
unfolding retry_task
retry_task_answer clock k m = ground (arith, status_of_entry k m.tasks)

retry_each_lem :
    (clock : ℕ → ℕ) (ks : List String) (j : String) (m : Manager)
    → NoRepeat ks
    → All (λ k. is_failed k m.tasks ≡ true) ks
    → let t = entry j m.tasks in
      let (retried, m') = retry_each clock ks m in
      (retried ≡ ks)
      × (entry j m'.tasks ≡ (if elem j ks then restored (entry j m'.tasks).updated_at t else t))
unfolding retry_each
retry_each_lem clock [] j m n f = (refl, refl)
retry_each_lem clock (k ∷ ks) j m (fresh, n) (here, there) =
    let (retried, m') = retry_task clock k m in
    let rest =
      retry_each_lem (after 2 clock) ks j m' n (All-after_retry clock k ks m fresh there) in
    (
      ground (arith, rest.0, retry_task_answer clock k m),
      ground (
        arith,
        rest.1,
        entry-retry_task clock k j m,
        status_of_entry k m.tasks,
        string_eq.same_iff k j,
        string_eq.same_iff j k,
      ),
    )

failed_of_entry :
    (k : String) (tasks : Tasks)
    → IsDistinct tasks
    → elem k (get_failed_tasks tasks) ≡ is_failed k tasks
unfolding get_failed_tasks entry
failed_of_entry k tasks u =
    ground (arith, elem-keys-select (λ t. is_status (value failed) t.status) k tasks u)

failed-NoRepeat : (tasks : Tasks) → IsDistinct tasks → NoRepeat (get_failed_tasks tasks)
unfolding get_failed_tasks
failed-NoRepeat tasks u = keys-NoRepeat (λ t. is_status (value failed) t.status) tasks u

-- Retrying all failed tasks answers exactly the tasks that failed, in the order of the state. Each of
-- them is pending with a retry count of 0, and but for its times of update and retry nothing else of
-- it changes; the entry of every other task is as before. No task is failed any more.
pub retry_all_failed_lem :
    (clock : ℕ → ℕ) (j : String) (m : Manager)
    → IsDistinct m.tasks
    → let t = entry j m.tasks in
      let (retried, m') = retry_all_failed clock m in
      let t' = entry j m'.tasks in
      (retried ≡ get_failed_tasks m.tasks)
      × (t' ≡ (if is_status (value failed) t.status then restored t'.updated_at t else t))
      × (is_status (value failed) t'.status ≡ false)
unfolding retry_all_failed
retry_all_failed_lem clock j m u =
    let ks = get_failed_tasks m.tasks in
    let failures : All (λ k. is_failed k m.tasks ≡ true) ks =
      All-of_elem ks (λ k e. ground (arith, failed_of_entry k m.tasks u)) in
    let each = retry_each_lem clock ks j m (failed-NoRepeat m.tasks u) failures in
    let same = failed_of_entry j m.tasks u in
    (each.0, ground (arith, each.1, same), ground (arith, each.1, same))
