-- ===== src/Coordinator/Outcome.antt =====
-- The answers of `handle_level_complete` of zerg/level_coordinator.py.
use zerg.Common.{
  ℕ, zero, suc, ◌+◌, ◌≡◌, refl, ◌∙◌, Bool, true, false, ◌||◌, Option, none, some, List, [], ◌∷◌,
  String, ◌==◌, nat_eq, string_eq, if◌then◌else◌, arith,
}
use zerg.Common.Dict.{values}
use zerg.State.LevelRepo.{LevelMergeStatus, LevelState}
use zerg.Git.Calls.{Answer, done, raised, Act, pure}
use zerg.Git.Triple.{
  After, Ensures, Keeps, Ensures-bind, Ensures-weaken, Ensures-if, Ensures-pure, After-of_state,
  Ensures-modify,
}
use zerg.Merge.Pipeline.{Site, on_world}
use zerg.Merge.{MergeFlowResult, full_merge_flow}
use zerg.Coordinator.Stored.{SameOthers, remarked}
use zerg.Coordinator.Handled.{
  Untouched, Completed, Stopped, merge_put_off-Completed, merge_succeeded-Completed,
  merge_failed-Stopped,
}
use zerg.Coordinator.Effects.{
  Station, branches_of, with_merge_status, merge_succeeded, merge_put_off,
}
use zerg.Coordinator.{
  Setup, run_callbacks, keep_result, merge_branches, merge_level, in_time, timed_merge,
  wait_for_retry, merge_attempts, finish, conclude, merge_now, put_off, handle_level_complete,
  error_of, on_site, call,
}

module _ {W : Type 0} (e : Setup W) (level : ℕ) (l₀ : LevelState) (paused₀ : Bool) where
  abbrev Before : Station W → Type 0
  Before = Untouched e.texts level l₀ paused₀

  -- A merge changes the repository, and not what is said of the levels.
  keep_result-Before :
      (x : Answer MergeFlowResult × Site W) (s : Station W)
      → Before s
      → Before (keep_result e x s).1
  keep_result-Before (done r, site) s h = h
  keep_result-Before (raised p, site) s h = h

  merge_branches-Before :
      (bs : List String) (s : Station W) → Before s → Before (merge_branches e level bs s).1
  merge_branches-Before [] s h = h
  merge_branches-Before (b ∷ bs) s h =
      keep_result-Before
        (full_merge_flow e.executor e.art e.git e.pipeline e.merger level (some (b ∷ bs)) "main"
          e.config.gates_at_ship_only false s.site)
        s h

  in_time-Before :
      (start : ℕ) (x : Answer MergeFlowResult × Station W)
      → Before x.1
      → Before (in_time e level start x).1
  in_time-Before start (a, s) h = ground (arith, h)

  timed_merge-Before : Keeps Before (timed_merge e level)
  unfolding timed_merge merge_level
  timed_merge-Before = record {
    after = λ s h. After-of_state Before (timed_merge e level s) (
        in_time-Before (e.art.now s.site.runner.world) (merge_level e level s)
          (merge_branches-Before (branches_of (values s.workers)) s h));
  }

  wait_for_retry-Before :
      (attempt : ℕ) (r : MergeFlowResult) → Keeps Before (wait_for_retry e level attempt r)
  wait_for_retry-Before attempt r = record { after = λ s h. h }

  merge_attempts-Before :
      (n attempt : ℕ) (last : Option MergeFlowResult)
      → Keeps Before (merge_attempts e level attempt n last)
  unfolding merge_attempts
  merge_attempts-Before zero attempt last = Ensures-pure last
  merge_attempts-Before (suc n) attempt last = Ensures-bind timed_merge-Before λ r.
      Ensures-if (r.success || n == 0) (Ensures-pure (some r)) (
        Ensures-bind (wait_for_retry-Before attempt r)
          λ _. merge_attempts-Before n (attempt + 1) (some r))

  -- An exception leaves the other levels, and whether execution is paused.
  abbrev pub Raised : Station W → Type 0
  Raised s = SameOthers level l₀ s.level_state × (s.paused ≡ paused₀)

  abbrev pub Handled : LevelMergeStatus → Bool → Station W → Type 0
  Handled m true = Completed e.texts level l₀ paused₀ m
  Handled m false = Stopped e.texts level l₀ paused₀

  After-on_site :
      {A : Type 0} (m : LevelMergeStatus) (x : Answer A × Site W) (s : Station W)
      → Handled m true s
      → After (λ _. Handled m true) Raised (on_site x s)
  After-on_site m (done a, site) s h = h
  After-on_site m (raised p, site) s (status, merged, same, paused) = (same, paused)

  call-Completed :
      {A : Type 0} (m : LevelMergeStatus) (callback : Act W A)
      → Ensures (Handled m true) (call callback) (λ _. Handled m true) Raised
  call-Completed m callback = record {
    after = λ s h. After-on_site m (on_world callback s.site) s h;
  }

  run_callbacks-Completed :
      (m : LevelMergeStatus) (cs : List (ℕ → Act W (Unit {0})))
      → Ensures (Handled m true) (run_callbacks cs level) (λ _. Handled m true) Raised
  run_callbacks-Completed m [] = Ensures-pure tt
  run_callbacks-Completed m (c ∷ cs) =
      Ensures-bind (call-Completed m (c level)) λ _. run_callbacks-Completed m cs

  answer_yes : (m : LevelMergeStatus) → Ensures (Handled m true) (pure true) (Handled m) Raised
  answer_yes m = record { after = λ s h. h }

  finish-Handled :
      (result : Option MergeFlowResult) (success : Bool) (commit : Option String)
      → Ensures Before
          (finish e level result success commit)
          (Handled LevelMergeStatus.rebasing)
          Raised
  finish-Handled result true commit =
      Ensures-bind
        (Ensures-modify {Q = Handled LevelMergeStatus.rebasing true}
          (merge_succeeded e.texts level commit e.ticks)
          (merge_succeeded-Completed e.texts level l₀ paused₀ commit e.ticks))
        λ _.
          Ensures-bind (run_callbacks-Completed LevelMergeStatus.rebasing e.callbacks)
            λ _. answer_yes LevelMergeStatus.rebasing
  finish-Handled result false commit = record {
    after = λ s h.
        merge_failed-Stopped e.texts level l₀ paused₀ e.config.merge_max_retries (error_of e result)
          e.ticks s h;
  }

  conclude-Handled :
      (result : Option MergeFlowResult)
      → Ensures Before (conclude e level result) (Handled LevelMergeStatus.rebasing) Raised
  conclude-Handled none = finish-Handled none false none
  conclude-Handled (some r) = finish-Handled (some r) r.success r.merge_commit

  merge_now-Handled : Ensures Before (merge_now e level) (Handled LevelMergeStatus.rebasing) Raised
  unfolding merge_now
  merge_now-Handled =
      Ensures-bind
        (Ensures-modify {Q = Before}
          (with_merge_status level LevelMergeStatus.merging none (e.ticks 0))
          (λ s (status, same, paused).
            let (f, g, h) =
              remarked level LevelMergeStatus.merging none (e.ticks 0) s.level_state l₀ same in
            (f ∙ status, h, paused)))
        λ _.
          Ensures-bind
            (Ensures-weaken (merge_attempts-Before e.config.merge_max_retries 0 none) (λ _ _ h. h)
              (λ s (status, same, paused). (same, paused)))
            conclude-Handled

  put_off-Handled : Ensures Before (put_off e level) (Handled LevelMergeStatus.pending) Raised
  unfolding put_off
  put_off-Handled =
      Ensures-bind
        (Ensures-modify {Q = Handled LevelMergeStatus.pending true}
          (merge_put_off e.texts level e.ticks)
          (merge_put_off-Completed e.texts level l₀ paused₀ e.ticks))
        λ _.
          Ensures-bind (run_callbacks-Completed LevelMergeStatus.pending e.callbacks)
            λ _. answer_yes LevelMergeStatus.pending

  abbrev final_status : Bool → LevelMergeStatus
  final_status defer = if defer then LevelMergeStatus.pending else LevelMergeStatus.rebasing

  by_config :
      (defer : Bool) (s : Station W)
      → Before s
      → After
          (Handled (final_status defer))
          Raised
          ((if defer then put_off e level else merge_now e level) s)
  by_config true s h = put_off-Handled.after s h
  by_config false s h = merge_now-Handled.after s h

-- When a level is complete and no exception comes out of the merge or a callback: the answer is yes,
-- and then the stored level is complete, its merge pending if merges are put off and else rebasing,
-- and execution is paused only if it was; or it is no, and then execution is paused, the merge of the
-- level is marked as a conflict or failed, and its status is as before. In each case, and also where
-- an exception comes out, the other levels are as before.
pub handle_level_complete_lem :
    {W : Type 0} (e : Setup W) (level : ℕ) (s : Station W)
    → let m =
        if e.config.defer_merge_to_ship
        then LevelMergeStatus.pending
        else LevelMergeStatus.rebasing in
      After
        (Handled e level s.level_state s.paused m)
        (Raised e level s.level_state s.paused)
        (handle_level_complete e level s)
unfolding handle_level_complete
handle_level_complete_lem e level s =
    by_config e level s.level_state s.paused e.config.defer_merge_to_ship s (refl, λ k. refl, refl)
