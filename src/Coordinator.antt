-- ===== src/Coordinator.antt =====
-- LevelCoordinator of zerg/level_coordinator.py: the merge of a level, its attempts, and the end of
-- the level. A callback, any callable in the source, may raise and change the outside world, but
-- not what the coordinator works on.
pub mod Effects
pub mod Stored
pub mod Handled
pub mod Outcome
mod Tests
use zerg.Common.{
  ℕ, zero, suc, ◌+◌, ◌-◌, ◌*◌, ◌^◌, Bool, true, false, not, ◌&&◌, ◌||◌, Option, none, some, List,
  [], ◌∷◌, ◌++◌, String, ◌==◌, nat_eq, string_eq, ltb, if◌then◌else◌, get_or, length,
}
use zerg.Common.Dict.{Dict, values}
use mathlib.Core.Option
use zerg.Constants.{value, pending}
use zerg.Levels.{LevelController, LevelError, Result, ok, err}
use zerg.State.{Tasks, set_task_status}
use zerg.State.LevelRepo.{
  LevelMergeStatus, LevelState, set_current_level, set_level_status, set_level_merge_status,
}
use zerg.State.Log.{ExecutionState, append_event, set_paused, set_error}
use zerg.Assign.{WorkerAssignment, get_task_worker}
use zerg.Workers.{WorkerState}
use zerg.Gates.{Executor}
use zerg.Git.{Git}
use zerg.Git.Calls.{Problem, Answer, done, raised, Act, pure, ◌>>=◌, ◌>>◌, modify}
use zerg.Merge.Pipeline.{Artifacts, Site, GatePipeline, on_world}
use zerg.Merge.{
  MergeFlowResult, FlowError, conflict_in, failed_with, merge_timed_out, full_merge_flow,
}
use zerg.Merge as Merging
use zerg.Levels as Levels
use zerg.Backpressure as Backpressure
use zerg.Coordinator.Effects.{
  EventData, Station, Texts, assign_tasks, begin_level, branches_of, error_data, level_merged,
  level_result, level_started, log_event, mentions_conflict, merge_deferred, merge_failed,
  merge_put_off, merge_retry, merge_succeeded, on_pressure, pause_for_intervention, paused_level,
  press, reason, rebase_all_workers, set_recoverable_error, start_level, with_merge_status,
  with_status,
}

pub record LevelConfig : Type 0 where
  pub defer_merge_to_ship : Bool
  pub gates_at_ship_only : Bool
  pub merge_timeout_seconds : ℕ
  pub merge_max_retries : ℕ

-- What the coordinator is made with. `ticks` answers the clock readings of each call.
pub record Setup (W : Type 0) : Type 0 where
  pub executor : Executor W
  pub art : Artifacts W
  pub git : Git W
  pub pipeline : GatePipeline
  pub merger : Merging.Coordinator
  pub config : LevelConfig
  pub texts : Texts
  pub ticks : ℕ → ℕ → ℕ
  pub sleep : ℕ → W → W
  pub callbacks : List (ℕ → Act W (Unit {0}))

-- A callback changes the world.
abbrev pub on_site : {W A : Type 0} → Answer A × Site W → Station W → Answer A × Station W
on_site (a, site) s = (a, record s { site = site })

abbrev pub call : {W A : Type 0} → Act W A → Act (Station W) A
call callback s = on_site (on_world callback s.site) s

abbrev pub run_callbacks :
    {W : Type 0} → List (ℕ → Act W (Unit {0})) → ℕ → Act (Station W) (Unit {0})
run_callbacks [] level = pure tt
run_callbacks (callback ∷ more) level = call (callback level) >> run_callbacks more level

module _ {W : Type 0} (e : Setup W) where
  abbrev pub keep_result :
      Answer MergeFlowResult × Site W → Station W → Answer MergeFlowResult × Station W
  keep_result (done r, site) s = (done r, record s { site = site; last_merge_result = some r })
  keep_result (raised p, site) s = (raised p, record s { site = site })

  abbrev pub merge_branches : ℕ → List String → Act (Station W) MergeFlowResult
  merge_branches level [] s = (done (level_result level true none), s)
  merge_branches level (b ∷ bs) s =
      keep_result
        (full_merge_flow e.executor e.art e.git e.pipeline e.merger level (some (b ∷ bs)) "main"
          e.config.gates_at_ship_only false s.site)
        s

  unfoldable pub merge_level : ℕ → Act (Station W) MergeFlowResult
  merge_level level s = merge_branches level (branches_of (values s.workers)) s

  -- The result of a merge that took too long is lost, though the executor waits for its end.
  abbrev pub in_time :
      ℕ → ℕ → Answer MergeFlowResult × Station W → Answer MergeFlowResult × Station W
  in_time level start (a, s) =
      if ltb e.config.merge_timeout_seconds (e.art.now s.site.runner.world - start)
      then (done (level_result level false (some merge_timed_out)), s)
      else (a, s)

  unfoldable pub timed_merge : ℕ → Act (Station W) MergeFlowResult
  timed_merge level s = in_time level (e.art.now s.site.runner.world) (merge_level level s)

  -- `2**attempt * 10`
  abbrev pub wait_for_retry : ℕ → ℕ → MergeFlowResult → Act (Station W) (Unit {0})
  wait_for_retry level attempt r s =
      let backoff = 2 ^ attempt * 10 in
      let logged =
        log_event e.texts "merge_retry" (merge_retry level (attempt + 1) backoff r.error)
          (e.ticks (10 + attempt) 0) s in
      (
        done tt,
        record logged {
          site = record logged.site {
            runner = record logged.site.runner { world = e.sleep backoff logged.site.runner.world };
          };
        },
      )

  -- `for attempt in range(max_retries)`, with the attempts that are left.
  unfoldable pub merge_attempts :
      ℕ → ℕ → ℕ → Option MergeFlowResult → Act (Station W) (Option MergeFlowResult)
  merge_attempts level attempt zero last = pure last
  merge_attempts level attempt (suc n) last = do
    r ← timed_merge level
    if r.success || n == 0
        then pure (some r)
        else (wait_for_retry level attempt r >> merge_attempts level (attempt + 1) n (some r))

  abbrev pub error_of : Option MergeFlowResult → Option (Option FlowError)
  error_of none = none
  error_of (some r) = some r.error

  abbrev pub finish : ℕ → Option MergeFlowResult → Bool → Option String → Act (Station W) Bool
  finish level result true commit = do
    modify (merge_succeeded e.texts level commit e.ticks)
    run_callbacks e.callbacks level
    pure true
  finish level result false commit = do
    modify (merge_failed e.texts level e.config.merge_max_retries (error_of result) e.ticks)
    pure false

  abbrev pub conclude : ℕ → Option MergeFlowResult → Act (Station W) Bool
  conclude level none = finish level none false none
  conclude level (some r) = finish level (some r) r.success r.merge_commit

  unfoldable pub merge_now : ℕ → Act (Station W) Bool
  merge_now level = do
    modify (with_merge_status level LevelMergeStatus.merging none (e.ticks 0))
    result ← merge_attempts level 0 e.config.merge_max_retries none
    conclude level result

  unfoldable pub put_off : ℕ → Act (Station W) Bool
  put_off level = do
    modify (merge_put_off e.texts level e.ticks)
    run_callbacks e.callbacks level
    pure true

  unfoldable pub handle_level_complete : ℕ → Act (Station W) Bool
  handle_level_complete level =
      if e.config.defer_merge_to_ship then put_off level else merge_now level
