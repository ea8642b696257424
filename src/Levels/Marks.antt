-- ===== src/Levels/Marks.antt =====
-- zerg/levels.py: the calls that move a task, and the advance to the next level.
use zerg.Common.{
  ℕ, ◌+◌, Bool, true, false, not, ◌||◌, Option, none, some, List, String, ◌==◌, nat_eq, string_eq,
  if◌then◌else◌, get_or, ltb, [], ◌∷◌,
}
use zerg.Common.Int.{pos, ◌+ℤ◌, ◌-ℤ◌, max_zero}
use zerg.Common.Dict.{lookup, contains, keys, count_values}
use zerg.Constants.{value, todo, pending, complete, failed, in_progress}
use zerg.Levels.{
  Task, LevelStatus, LevelController, Result, ok, err, has_status, put_level, put_task, start_level,
  is_level_resolved,
}

abbrev pub with_status : String → Task → Task
with_status s t = record t { status = some s }

-- Applies a change to the status of a level, if the level is known.
unfoldable pub update_level : ℕ → (LevelStatus → LevelStatus) → LevelController → LevelController
update_level level f c = elim (lookup level c.levels) [
  | none ↦ c
  | some s ↦ put_level level (f s) c
]

abbrev pub count_complete : LevelStatus → LevelStatus
count_complete s = record s {
  completed_tasks = s.completed_tasks +ℤ pos 1;
  in_progress_tasks = max_zero (s.in_progress_tasks -ℤ pos 1);
}

abbrev pub count_failed : LevelStatus → LevelStatus
count_failed s = record s {
  failed_tasks = s.failed_tasks +ℤ pos 1;
  in_progress_tasks = max_zero (s.in_progress_tasks -ℤ pos 1);
}

-- The task is set to complete and counted; the level is not yet closed.
unfoldable pub complete_task : String → Task → LevelController → LevelController
complete_task task_id t c =
    update_level t.level count_complete (put_task task_id (with_status (value complete) t) c)

abbrev pub close_level : ℕ → ℕ → LevelController → LevelController
close_level level now c =
    update_level level (λ s. record s { status = "complete"; completed_at = some now }) c

-- Whether this completed the level.
unfoldable pub mark_task_complete : String → ℕ → LevelController → Bool × LevelController
mark_task_complete task_id now c = elim (lookup task_id c.tasks) [
  | none ↦ (false, c)
  | some t ↦
      let c' = complete_task task_id t c in
      if is_level_resolved t.level c' then (true, close_level t.level now c') else (false, c')
]

unfoldable pub mark_task_failed : String → LevelController → LevelController
mark_task_failed task_id c = elim (lookup task_id c.tasks) [
  | none ↦ c
  | some t ↦ update_level t.level count_failed (put_task task_id (with_status (value failed) t) c)
]

abbrev pub assign_to : Option ℕ → Task → Task
assign_to none t = t
assign_to (some w) t = record t { assigned_worker = some w }

unfoldable pub mark_task_in_progress : String → Option ℕ → LevelController → LevelController
mark_task_in_progress task_id worker_id c = elim (lookup task_id c.tasks) [
  | none ↦ c
  | some t ↦
      update_level t.level (λ s. record s { in_progress_tasks = s.in_progress_tasks +ℤ pos 1 })
        (put_task task_id (assign_to worker_id (with_status (value in_progress) t)) c)
]

-- The counter of the status that the task had loses one.
abbrev pub uncount : String → LevelStatus → LevelStatus
uncount old s =
    if old == value complete
    then record s { completed_tasks = s.completed_tasks -ℤ pos 1 }
    else if old == value failed
    then record s { failed_tasks = s.failed_tasks -ℤ pos 1 }
    else if old == value in_progress
    then record s { in_progress_tasks = s.in_progress_tasks -ℤ pos 1 }
    else s

unfoldable pub reset_task : String → LevelController → LevelController
reset_task task_id c = elim (lookup task_id c.tasks) [
  | none ↦ c
  | some t ↦
      update_level t.level (uncount (get_or t.status (value todo)))
        (put_task task_id (with_status (value pending) t) c)
]

unfoldable pub can_advance : LevelController → Bool
can_advance c =
    if not c.started || c.current_level == 0
    then true
    else if not (is_level_resolved c.current_level c)
    then false
    else contains (c.current_level + 1) c.levels

abbrev pub min_from : ℕ → List ℕ → ℕ
min_from m [] = m
min_from m (k ∷ ks) = min_from (if ltb k m then k else m) ks

-- `min(keys)` of a dictionary with at least one key.
abbrev pub min_key : List ℕ → Option ℕ
min_key [] = none
min_key (k ∷ ks) = some (min_from k ks)

-- The level that `advance_level` goes to, if it is known.
unfoldable pub next_level : LevelController → Option ℕ
next_level c = if not c.started then min_key (keys c.levels) else some (c.current_level + 1)

unfoldable pub advance_level : ℕ → LevelController → Result (Option ℕ) × LevelController
advance_level now c = elim (next_level c) [
  | none ↦ (ok none, c)
  | some n ↦
      if not (contains n c.levels)
      then (ok none, c)
      else let (r, c') = start_level n now c in
        (elim r [ ok ids ↦ ok (some n) | err e ↦ err e ], c')
]

-- The counts that `get_status` reports: total, completed, failed, in progress.
pub record Summary : Type 0 where
  pub total_tasks : ℕ
  pub completed_tasks : ℕ
  pub failed_tasks : ℕ
  pub in_progress_tasks : ℕ
  pub is_complete : Bool

unfoldable pub get_status : LevelController → Summary
get_status c =
    let completed = count_values (has_status (value complete)) c.tasks in
    let failures = count_values (has_status (value failed)) c.tasks in
    let total = count_values (λ t. true) c.tasks in
    record {
      total_tasks = total;
      completed_tasks = completed;
      failed_tasks = failures;
      in_progress_tasks = count_values (has_status (value in_progress)) c.tasks;
      is_complete = completed + failures == total;
    }

unfoldable pub get_level_status : ℕ → LevelController → Option LevelStatus
get_level_status level c = lookup level c.levels

unfoldable pub get_task : String → LevelController → Option Task
get_task task_id c = lookup task_id c.tasks
