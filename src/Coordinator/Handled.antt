-- ===== src/Coordinator/Handled.antt =====
-- How `handle_level_complete` of zerg/level_coordinator.py leaves the level.
use zerg.Common.{
  ℕ, ◌≡◌, refl, ◌∙◌, Bool, true, Option, none, some, String, nat_eq, string_eq, ◌⊎◌, inl, inr,
  Bool-cases,
}
use zerg.State.LevelRepo.{
  LevelMergeStatus, LevelState, merge, set_level_status, set_level_merge_status,
  get_level_merge_status,
}
use zerg.State.Log.{append_event, set_paused}
use zerg.Merge.{FlowError}
use zerg.Coordinator.Stored.{stored_status, SameOthers, remarked, completed}
use zerg.Coordinator.Effects.{
  Texts, Station, rebase_all_workers, pause_for_intervention, set_recoverable_error,
  merge_succeeded, merge_failed, merge_put_off, mentions_conflict, error_data,
}

module _ {W : Type 0} (texts : Texts) (level : ℕ) (l₀ : LevelState) (paused₀ : Bool) where
  abbrev pub Untouched : Station W → Type 0
  Untouched s =
      (stored_status level s.level_state ≡ stored_status level l₀)
      × SameOthers level l₀ s.level_state
      × (s.paused ≡ paused₀)

  -- The level is complete, with this merge status.
  abbrev pub Completed : LevelMergeStatus → Station W → Type 0
  Completed m s =
      (stored_status level s.level_state ≡ some "complete")
      × (get_level_merge_status level s.level_state ≡ merge m)
      × SameOthers level l₀ s.level_state
      × (s.paused ≡ paused₀)

  -- Execution is paused, and the level is not complete by this.
  abbrev pub Stopped : Station W → Type 0
  Stopped s =
      (stored_status level s.level_state ≡ stored_status level l₀)
      × ((get_level_merge_status level s.level_state ≡ merge LevelMergeStatus.conflict)
          ⊎ (get_level_merge_status level s.level_state ≡ merge LevelMergeStatus.failed))
      × SameOthers level l₀ s.level_state
      × (s.paused ≡ true)
      × (s.execution.paused ≡ some true)

  pub merge_put_off-Completed :
      (ticks : ℕ → ℕ → ℕ) (s : Station W)
      → Untouched s
      → Completed LevelMergeStatus.pending (merge_put_off texts level ticks s)
  unfolding merge_put_off
  merge_put_off-Completed ticks s (e, same, p) =
      let l = set_level_status level "complete" none (ticks 1) s.level_state in
      let (c, others) = completed level none (ticks 1) s.level_state l₀ same in
      let (f, g, h) = remarked level LevelMergeStatus.pending none (ticks 2) l l₀ others in
      (f ∙ c, g, h, p)

  pub merge_succeeded-Completed :
      (commit : Option String) (ticks : ℕ → ℕ → ℕ) (s : Station W)
      → Untouched s
      → Completed LevelMergeStatus.rebasing (merge_succeeded texts level commit ticks s)
  unfolding merge_succeeded rebase_all_workers
  merge_succeeded-Completed commit ticks s (e, same, p) =
      let l = set_level_status level "complete" commit (ticks 1) s.level_state in
      let l' = set_level_merge_status level LevelMergeStatus.complete none (ticks 2) l in
      let (c, others) = completed level commit (ticks 1) s.level_state l₀ same in
      let (f, g, h) = remarked level LevelMergeStatus.complete none (ticks 2) l l₀ others in
      let (f', g', h') = remarked level LevelMergeStatus.rebasing none (ticks 4) l' l₀ h in
      (f' ∙ f ∙ c, g', h', p)

  pub merge_failed-Stopped :
      (retries : ℕ) (error : Option (Option FlowError)) (ticks : ℕ → ℕ → ℕ) (s : Station W)
      → Untouched s
      → Stopped (merge_failed texts level retries error ticks s)
  unfolding merge_failed pause_for_intervention set_recoverable_error append_event set_paused
  merge_failed-Stopped retries error ticks s (e, same, p) =
      let message = texts.failure_message level retries error in
      elim (Bool-cases (mentions_conflict texts.says_conflict error)) [
        | inl q ↦
            let (f, g, h) =
              remarked level LevelMergeStatus.conflict (some (texts.json (error_data message)))
                (ticks 6) s.level_state l₀ same in
            rw q (f ∙ e, inl g, h, refl, refl)
        | inr q ↦
            let (f, g, h) =
              remarked level LevelMergeStatus.failed none (ticks 6) s.level_state l₀ same in
            rw q (f ∙ e, inr g, h, refl, refl)
      ]
