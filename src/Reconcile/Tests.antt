-- ===== src/Reconcile/Tests.antt =====
-- Runs of zerg/state_reconciler.py: of two tasks at level 1 one is stored as complete, and the other
-- is in progress on a worker that is gone.
use zerg.Common.{
  ℕ, ◌≡◌, refl, true, Option, none, some, List, [], ◌∷◌, String, ◌==◌, nat_eq, string_eq,
  if◌then◌else◌, ◌&&◌, leb, ◌-◌, is_empty,
}
use zerg.Common.Int.{pos, ◌+ℤ◌, ◌-ℤ◌}
use zerg.Common.Dict.{lookup, insert, count_values}
use zerg.Constants.{Level}
use zerg.Levels.{Task, LevelStatus, LevelController, new_status, is_resolved, is_level_resolved}
use zerg.Levels.Marks.{
  mark_task_complete, mark_task_failed, mark_task_in_progress, complete_task, update_level,
}
use zerg.State.{Tasks, empty, entry, set_task_status}
use zerg.State.Retry.{reset_retries}
use zerg.Sync.{get_task_status}
use zerg.Reconcile.{
  Reconciler, reconcile_task, reconcile_task_states, stuck_on, fix_stuck_in_progress_tasks,
  stored_at, verify_level_completion, final_level_check,
}
use zerg.Reconcile.LevelId.{parse_level_from_task_id, fix_missing_task_levels}
use zerg.Reconcile.Transition.{
  before_verify, reconcile_level_transition, reconcile_level_transition_resolved,
}

-- The digits of ASCII, and an ID of which no level can be read.
abbrev digit : ℕ → Option ℕ
digit c = if leb 48 c && leb c 57 then some (c - 48) else none

abbrev code_points : String → List ℕ
code_points s = 65 ∷ []

-- "X-L12-3"
level_read : parse_level_from_task_id digit (88 ∷ 45 ∷ 76 ∷ 49 ∷ 50 ∷ 45 ∷ 51 ∷ []) ≡ some 12
unfolding parse_level_from_task_id
level_read = refl

abbrev task : String → Task
task id = record { id = id; level = 1; status = none; assigned_worker = none }

abbrev controller : LevelController
controller = record {
  levels = (1, new_status Level.foundation 2) ∷ [];
  tasks = ("A", task "A") ∷ ("B", task "B") ∷ [];
  current_level = 1;
  started = true;
}

abbrev stored : Tasks
stored =
    ("A", record empty { status = some "complete"; level = some 1 })
    ∷ ("B", record empty { status = some "in_progress"; level = some 1; worker_id = some 7 })
    ∷ []

abbrev reconciler : Reconciler
reconciler = record {
  tasks = stored;
  workers = [];
  levels = controller;
  fixes_applied = [];
  divergences_found = 0;
  tasks_checked = 0;
  errors = [];
}

abbrev clock : ℕ → ℕ
clock i = 5

abbrev counted : LevelStatus
counted = record (new_status Level.foundation 2) { completed_tasks = pos 1; failed_tasks = pos 1 }

before :
    lookup 1 (before_verify code_points digit clock clock 1 reconciler).levels.levels ≡ some counted
unfolding fix_missing_task_levels parse_level_from_task_id reconcile_task_states reconcile_task
    fix_stuck_in_progress_tasks stuck_on get_task_status mark_task_complete mark_task_failed
    mark_task_in_progress complete_task update_level set_task_status entry reset_retries lookup
    insert is_level_resolved is_resolved ◌+ℤ◌ ◌-ℤ◌
before = refl

no_errors :
    is_empty (reconcile_level_transition code_points digit clock clock 1 reconciler).errors ≡ true
unfolding reconcile_level_transition verify_level_completion final_level_check
    fix_missing_task_levels parse_level_from_task_id reconcile_task_states reconcile_task
    fix_stuck_in_progress_tasks stuck_on get_task_status mark_task_complete mark_task_failed
    mark_task_in_progress complete_task update_level set_task_status entry reset_retries lookup
    insert is_level_resolved is_resolved ◌+ℤ◌ ◌-ℤ◌
no_errors = refl

reconcile_level_transition_resolved_example :
    is_level_resolved 1
      (reconcile_level_transition code_points digit clock clock 1 reconciler).levels
    ≡ (count_values (stored_at 1) (before_verify code_points digit clock clock 1 reconciler).tasks
        == counted.total_tasks)
reconcile_level_transition_resolved_example =
    reconcile_level_transition_resolved code_points digit clock clock 1 counted reconciler before
      no_errors
