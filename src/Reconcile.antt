-- ===== src/Reconcile.antt =====
-- zerg/state_reconciler.py. A round reads the stored tasks as they are when it starts. The state is
-- what the reconciler holds: the stored tasks and workers, the LevelController, and the result that
-- the steps fill. Heartbeats are only reported, and are left out.
pub mod LevelId
pub mod Transition
mod Tests
use zerg.Common.{
  ℕ, zero, suc, ◌+◌, Bool, true, false, not, ◌&&◌, ◌||◌, Option, none, some, List, [], ◌∷◌, ◌++◌,
  String, ◌==◌, nat_eq, string_eq, if◌then◌else◌, is_none, elem, select, one_if,
}
use zerg.Common.Int.{ℤ, pos, eqb_ℤ}
use zerg.Common.Dict.{Dict, lookup, insert, keys, count_values}
use zerg.Constants.{value, complete, failed, in_progress, claimed}
use zerg.Levels.{LevelStatus, LevelController, put_level}
use zerg.Levels.Marks.{mark_task_complete, mark_task_failed, mark_task_in_progress}
use zerg.State.{TaskState, Tasks, is_status, set_task_status}
use zerg.State.Retry.{reset_retries}
use zerg.Sync.{get_task_status, is_running}
use zerg.Workers.{Workers, StoredWorker}

pub data ReconciliationFix : Type 0 where
  task_status_sync :
      (task_id : String) (level worker_id : Option ℕ) (old_value new_value : Option String)
      → ReconciliationFix
  level_parsed : (task_id : String) (level : ℕ) (worker_id : Option ℕ) → ReconciliationFix
  stuck_task_recovered : (task_id : String) (level : Option ℕ) (worker_id : ℕ) → ReconciliationFix
  level_counts_corrected : (level completed failures : ℕ) → ReconciliationFix

-- A fix of the counts is recorded after they were assigned, so that its old value is the new one.
-- `errors` lists the tasks that the errors are about.
pub record Reconciler : Type 0 where
  pub tasks : Tasks
  pub workers : Workers
  pub levels : LevelController
  pub fixes_applied : List ReconciliationFix
  pub divergences_found : ℕ
  pub tasks_checked : ℕ
  pub errors : List String

abbrev pub apply_fix : ReconciliationFix → LevelController → Reconciler → Reconciler
apply_fix f c r = record r { levels = c; fixes_applied = r.fixes_applied ++ f ∷ [] }

-- `level_filter is not None and task_level != level_filter`
abbrev pub is_filtered : Option ℕ → Option ℕ → Bool
is_filtered none level = false
is_filtered (some l) none = true
is_filtered (some l) (some level) = not (level == l)

-- `disk_status != level_status`; a stored task without a status has the empty one.
abbrev pub diverges : Option String → Option String → Bool
diverges none memory = not (is_status "" memory)
diverges (some v) memory = not (is_status v memory)

-- One round of the loop of `_reconcile_task_states`.
unfoldable pub reconcile_task : ℕ → Option ℕ → String → TaskState → Reconciler → Reconciler
reconcile_task now level_filter k t r =
    let checked = record r { tasks_checked = suc r.tasks_checked } in
    let found = record checked { divergences_found = suc r.divergences_found } in
    let memory = get_task_status k r.levels in
    let fix = task_status_sync k t.level t.worker_id memory t.status in
    if is_filtered level_filter t.level
    then checked
    else if not (diverges t.status memory)
    then checked
    else if is_status (value complete) t.status
    then apply_fix fix (mark_task_complete k now r.levels).1 found
    else if is_status (value failed) t.status
    then apply_fix fix (mark_task_failed k r.levels) found
    else if is_running t.status && not (is_running memory)
    then apply_fix fix (mark_task_in_progress k t.worker_id r.levels) found
    else found

unfoldable pub reconcile_task_states : (ℕ → ℕ) → Option ℕ → Tasks → Reconciler → Reconciler
reconcile_task_states clock level_filter [] r = r
reconcile_task_states clock level_filter ((k, t) ∷ tasks) r =
    reconcile_task_states (λ i. clock (i + 1)) level_filter tasks
      (reconcile_task (clock 0) level_filter k t r)

-- `w.get("status") in ("ready", "running", "idle")`
abbrev pub is_active : StoredWorker → Bool
is_active w = elim w.status [
  | none ↦ false
  | some v ↦ v == "ready" || v == "running" || v == "idle"
]

abbrev pub active_workers : Workers → List ℕ
active_workers workers = keys (select (λ e. is_active e.1) workers)

-- The worker of a task that is in progress on none of the active ones.
unfoldable pub stuck_on : List ℕ → TaskState → Option ℕ
stuck_on active t = elim t.worker_id [
  | none ↦ none
  | some w ↦ if is_status (value in_progress) t.status && not (elem w active) then some w else none
]

abbrev pub recover : ℕ → ℕ → String → TaskState → ℕ → Reconciler → Reconciler
recover now now' k t w r =
    apply_fix (stuck_task_recovered k t.level w) (mark_task_failed k r.levels) (record r {
      tasks =
          reset_retries k
            (set_task_status k (value failed) none (some "worker_crash") now now' r.tasks);
    })

-- The loop over the tasks as they were when it began.
unfoldable pub fix_stuck_in_progress_tasks :
    (ℕ → ℕ) → List ℕ → Option ℕ → Tasks → Reconciler → Reconciler
fix_stuck_in_progress_tasks clock active level_filter [] r = r
fix_stuck_in_progress_tasks clock active level_filter ((k, t) ∷ tasks) r =
    let next : Reconciler = elim (stuck_on active t) [
      | none ↦ r
      | some w ↦ recover (clock 0) (clock 1) k t w r
    ] in
    fix_stuck_in_progress_tasks (λ i. clock (i + 2)) active level_filter tasks
      (if is_filtered level_filter t.level then r else next)

-- `ts.get("level") == level` and `ts.get("status") == s`
abbrev pub stored_at : ℕ → TaskState → Bool
stored_at level t = elim t.level [ none ↦ false | some l ↦ l == level ]

abbrev pub stored_as : ℕ → String → TaskState → Bool
stored_as level s t = stored_at level t && is_status s t.status

abbrev pub with_counts : ℕ → ℕ → LevelStatus → LevelStatus
with_counts completed failures s = record s {
  completed_tasks = pos completed;
  failed_tasks = pos failures;
}

unfoldable pub verify_level_completion : ℕ → Reconciler → Reconciler
verify_level_completion level r =
    let completed = count_values (stored_as level (value complete)) r.tasks in
    let failures = count_values (stored_as level (value failed)) r.tasks in
    elim (lookup level r.levels.levels) [
      | none ↦ r
      | some s ↦
          let off_completed = not (eqb_ℤ s.completed_tasks (pos completed)) in
          let off_failed = not (eqb_ℤ s.failed_tasks (pos failures)) in
          let found = record r {
            divergences_found = r.divergences_found + one_if off_completed + one_if off_failed;
          } in
          if off_completed || off_failed
          then apply_fix (level_counts_corrected level completed failures)
              (put_level level (with_counts completed failures s) r.levels) found
          else found
    ]

-- `status not in (COMPLETE, FAILED)`, at the level.
abbrev pub is_open_at : ℕ → TaskState → Bool
is_open_at level t =
    stored_at level t
    && not (is_status (value complete) t.status || is_status (value failed) t.status)

unfoldable pub final_level_check : ℕ → Reconciler → Reconciler
final_level_check level r = record r {
  errors = r.errors ++ keys (select (λ e. is_open_at level e.1) r.tasks);
}
