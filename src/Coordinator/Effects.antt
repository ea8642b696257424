-- ===== src/Coordinator/Effects.antt =====
-- What LevelCoordinator of zerg/level_coordinator.py changes when a level starts, and when its merge
-- succeeds, fails or is put off. What it does for information only is left out: the structured log,
-- metrics, plugin events, STATE.md and the tasks of the task list.
use zerg.Common.{
  ℕ, Bool, true, false, Option, none, some, List, [], ◌∷◌, String, ◌==◌, nat_eq, string_eq,
  if◌then◌else◌, get_or, length,
}
use zerg.Common.Dict.{Dict}
use mathlib.Core.Option
use zerg.Constants.{value, pending}
use zerg.Levels.{LevelController, LevelError, Result, ok, err}
use zerg.State.{Tasks, set_task_status}
use zerg.State.LevelRepo.{
  LevelMergeStatus, LevelState, set_current_level, set_level_status, set_level_merge_status,
}
use zerg.State.Log.{ExecutionState, append_event, set_paused, set_error}
use zerg.Assign.{WorkerAssignment, get_task_worker}
use zerg.Workers.{WorkerState}
use zerg.Git.Calls.{Problem}
use zerg.Merge.Pipeline.{Site}
use zerg.Merge.{MergeFlowResult, FlowError, conflict_in, failed_with}
use zerg.Levels as Levels
use zerg.Backpressure as Backpressure

-- The data of the events.
pub data EventData : Type 0 where
  level_started : (level tasks : ℕ) → EventData
  merge_deferred : (level : ℕ) → EventData
  merge_retry : (level attempt backoff_seconds : ℕ) (error : Option FlowError) → EventData
  level_merged : (level : ℕ) (merge_commit : Option String) → EventData
  reason : String → EventData
  error_data : String → EventData

-- The texts that are built: the data of an event, the reason of a pause, the message of a merge
-- that failed, which is unknown where no attempt was made; and whether the message of another
-- exception than a merge conflict says "conflict".
pub record Texts : Type 0 where
  pub json : EventData → String
  pub conflict_reason : ℕ → String
  pub failure_message : ℕ → ℕ → Option (Option FlowError) → String
  pub says_conflict : Problem → Bool

-- What the coordinator holds and changes. The branches are those of the workers of the registry.
pub record Station (W : Type 0) : Type 0 where
  pub site : Site W
  pub controller : LevelController
  pub backpressure : Option Backpressure.Controller
  pub tasks : Tasks
  pub level_state : LevelState
  pub execution : ExecutionState
  pub workers : Dict ℕ WorkerState
  pub assigner : Option WorkerAssignment
  pub paused : Bool
  pub last_merge_result : Option MergeFlowResult

abbrev pub level_result : ℕ → Bool → Option FlowError → MergeFlowResult
level_result level success error = record {
  success = success;
  level = level;
  source_branches = [];
  target_branch = "main";
  merge_commit = none;
  gate_results = [];
  error = error;
}

-- `if worker.branch`
abbrev pub branches_of : List WorkerState → List String
branches_of [] = []
branches_of (w ∷ ws) =
    if get_or w.branch "" == "" then branches_of ws else get_or w.branch "" ∷ branches_of ws

-- `str(error_msg).lower()` says "conflict".
abbrev pub mentions_conflict : (Problem → Bool) → Option (Option FlowError) → Bool
mentions_conflict says (some (some (conflict_in files))) = true
mentions_conflict says (some (some (failed_with p))) = says p
mentions_conflict says _ = false

abbrev pub paused_level : ℕ → ℕ → Bool × Backpressure.Controller → Backpressure.Controller
paused_level level now (should_pause, b) =
    if should_pause then Backpressure.pause_level level now b else b

-- A failure is recorded, and the level paused if it should be.
abbrev pub press : ℕ → ℕ → Backpressure.Controller → Backpressure.Controller
press level now b =
    paused_level level now (Backpressure.should_pause level (Backpressure.record_failure level b))

-- The tasks of a level go to the workers that they are assigned to.
unfoldable pub assign_tasks : Option WorkerAssignment → List String → ℕ → Tasks → Tasks
assign_tasks assigner [] now tasks = tasks
assign_tasks none (k ∷ ks) now tasks = tasks
assign_tasks (some a) (k ∷ ks) now tasks = elim (get_task_worker k a) [
  | none ↦ assign_tasks (some a) ks now tasks
  | some w ↦
      assign_tasks (some a) ks now (set_task_status k (value pending) (some w) none now now tasks)
]

module _ {W : Type 0} where
  abbrev pub with_status : ℕ → String → Option String → (ℕ → ℕ) → Station W → Station W
  with_status level status commit clock s = record s {
    level_state = set_level_status level status commit clock s.level_state;
  }

  abbrev pub with_merge_status :
      ℕ → LevelMergeStatus → Option String → (ℕ → ℕ) → Station W → Station W
  with_merge_status level status details clock s = record s {
    level_state = set_level_merge_status level status details clock s.level_state;
  }

  -- The loop over the workers does nothing but log.
  unfoldable pub rebase_all_workers : ℕ → (ℕ → ℕ) → Station W → Station W
  rebase_all_workers level clock s = with_merge_status level LevelMergeStatus.rebasing none clock s

  abbrev pub on_pressure :
      (Backpressure.Controller → Backpressure.Controller) → Station W → Station W
  on_pressure f s = record s { backpressure = Option.map f s.backpressure }

module _ {W : Type 0} (texts : Texts) where
  -- `append_event`, with a reading of the clock.
  abbrev pub log_event : String → EventData → ℕ → Station W → Station W
  log_event event details now s = record s {
    execution = append_event event (some (texts.json details)) now s.execution;
  }

  unfoldable pub pause_for_intervention : String → ℕ → Station W → Station W
  pause_for_intervention text now s =
      log_event "paused_for_intervention" (reason text) now
        (record s { paused = true; execution = set_paused true s.execution })

  unfoldable pub set_recoverable_error : String → ℕ → Station W → Station W
  set_recoverable_error text now s =
      log_event "recoverable_error" (error_data text) now (record s {
        paused = true;
        execution = set_paused true (set_error (some text) s.execution);
      })

  -- A merge that succeeded, up to the callbacks. `ticks` answers the clock readings of each call.
  unfoldable pub merge_succeeded : ℕ → Option String → (ℕ → ℕ → ℕ) → Station W → Station W
  merge_succeeded level commit ticks s =
      let recorded = on_pressure (Backpressure.record_success level) s in
      let stated = with_status level "complete" commit (ticks 1) recorded in
      let merged = with_merge_status level LevelMergeStatus.complete none (ticks 2) stated in
      let logged = log_event "level_complete" (level_merged level commit) (ticks 3 0) merged in
      rebase_all_workers level (ticks 4) logged

  -- The last branch: no attempt succeeded.
  unfoldable pub merge_failed :
      ℕ → ℕ → Option (Option FlowError) → (ℕ → ℕ → ℕ) → Station W → Station W
  merge_failed level retries error ticks s =
      let message = texts.failure_message level retries error in
      let pressed = on_pressure (press level (ticks 5 0)) s in
      if mentions_conflict texts.says_conflict error
      then pause_for_intervention (texts.conflict_reason level) (ticks 7 0) (
          with_merge_status level LevelMergeStatus.conflict (some (texts.json (error_data message)))
            (ticks 6) pressed)
      else set_recoverable_error message (ticks 7 0)
          (with_merge_status level LevelMergeStatus.failed none (ticks 6) pressed)

  -- The branch of a merge that is put off.
  unfoldable pub merge_put_off : ℕ → (ℕ → ℕ → ℕ) → Station W → Station W
  merge_put_off level ticks s = log_event "level_complete" (merge_deferred level) (ticks 3 0) (
      with_merge_status level LevelMergeStatus.pending none (ticks 2)
        (with_status level "complete" none (ticks 1) s))

  abbrev pub begin_level :
      ℕ → (ℕ → ℕ → ℕ) → Result (List String) → Station W → Result (Unit {0}) × Station W
  begin_level level ticks (err e) s = (err e, s)
  begin_level level ticks (ok ks) s =
      let pressed = on_pressure (Backpressure.register_level level (length ks)) s in
      let current : Station W = record pressed {
        level_state = set_current_level level pressed.level_state;
      } in
      let running = with_status level "running" none (ticks 1) current in
      let logged =
        log_event "level_started" (level_started level (length ks)) (ticks 2 0) running in
      (ok tt, record logged { tasks = assign_tasks s.assigner ks (ticks 3 0) logged.tasks })

  unfoldable pub start_level : ℕ → (ℕ → ℕ → ℕ) → Station W → Result (Unit {0}) × Station W
  start_level level ticks s =
      let (answer, c) = Levels.start_level level (ticks 0 0) s.controller in
      begin_level level ticks answer (record s { controller = c })
