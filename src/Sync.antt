-- ===== src/Sync.antt =====
-- zerg/state_sync_service.py: bringing the LevelController up to date with the stored tasks.
pub mod Status
pub mod Agreement
mod Tests
use zerg.Common.{
  ℕ, ◌+◌, Bool, true, false, not, ◌&&◌, ◌||◌, Option, none, some, List, [], ◌∷◌, String, ◌==◌,
  nat_eq, string_eq, if◌then◌else◌, elem, is_some, map,
}
use zerg.Common.Dict.{lookup}
use zerg.Constants.{value, todo, pending, complete, failed, in_progress, claimed}
use zerg.Levels.{LevelController}
use zerg.Levels.Marks.{mark_task_complete, mark_task_failed, mark_task_in_progress}
use zerg.State.{TaskState, Tasks, is_status}

-- `LevelController.get_task_status`
unfoldable pub get_task_status : String → LevelController → Option String
get_task_status task_id c = elim (lookup task_id c.tasks) [ none ↦ none | some t ↦ t.status ]

abbrev pub is_running : Option String → Bool
is_running s = is_status (value in_progress) s || is_status (value claimed) s

-- One round of the loop of `sync_from_disk`.
unfoldable pub sync_task : ℕ → String → TaskState → LevelController → LevelController
sync_task now task_id d c =
    let level_status = get_task_status task_id c in
    if is_status (value complete) d.status && not (is_status (value complete) level_status)
    then (mark_task_complete task_id now c).1
    else if is_status (value failed) d.status && not (is_status (value failed) level_status)
    then mark_task_failed task_id c
    else if is_running d.status && not (is_running level_status)
    then mark_task_in_progress task_id d.worker_id c
    else c

-- Round number `i` reads the clock as `clock i`.
unfoldable pub sync_from_disk : (ℕ → ℕ) → Tasks → LevelController → LevelController
sync_from_disk clock [] c = c
sync_from_disk clock ((k, d) ∷ disk) c =
    sync_from_disk (λ i. clock (i + 1)) disk (sync_task (clock 0) k d c)

-- `worker_id is not None and worker_id not in active_worker_ids`
abbrev pub is_stranded : List ℕ → Option ℕ → Bool
is_stranded active none = false
is_stranded active (some w) = not (elem w active)

unfoldable pub reassign : List ℕ → TaskState → TaskState
reassign active t =
    if (is_status (value pending) t.status || is_status (value todo) t.status)
      && is_stranded active t.worker_id
    then record t { worker_id = none }
    else t

unfoldable pub reassign_stranded_tasks : List ℕ → Tasks → Tasks
reassign_stranded_tasks active tasks = map (λ e. (e.0, reassign active e.1)) tasks
