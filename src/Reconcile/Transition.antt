-- ===== src/Reconcile/Transition.antt =====
-- `reconcile_periodic` and `reconcile_level_transition` of zerg/state_reconciler.py.
use zerg.Common.{
  ℕ, ◌≡◌, ◌∙◌, sym, subst, refl, true, Option, none, some, List, [], ◌∷◌, String, ◌==◌, nat_eq,
  string_eq, select, arith, is_empty-append, ◌+◌, is_empty,
}
use zerg.Common.Int.{pos, eqb_ℤ, eq_of_parts, ◌+ℤ◌}
use zerg.Common.Dict.{lookup, keys, count_values, lookup-insert_self}
use zerg.Constants.{value, complete, failed}
use zerg.Levels.{LevelStatus, LevelController, is_resolved, is_level_resolved}
use zerg.State.{Tasks}
use zerg.Sync.Status.{complete_apart}
use zerg.Reconcile.{
  Reconciler, reconcile_task_states, active_workers, fix_stuck_in_progress_tasks, stored_at,
  stored_as, with_counts, verify_level_completion, is_open_at, final_level_check,
}
use zerg.Reconcile.LevelId.{fix_levels}

module _ (code_points : String → List ℕ) (digit : ℕ → Option ℕ) where
  -- `clock` answers the readings of the clock of the comparison.
  unfoldable pub reconcile_periodic : (ℕ → ℕ) → Reconciler → Reconciler
  reconcile_periodic clock r =
      fix_levels code_points digit (reconcile_task_states clock none r.tasks r)

  -- The steps before the level is verified.
  abbrev pub before_verify : (ℕ → ℕ) → (ℕ → ℕ) → ℕ → Reconciler → Reconciler
  before_verify clock clock' level r =
      let a = fix_levels code_points digit r in
      let b = reconcile_task_states clock (some level) a.tasks a in
      fix_stuck_in_progress_tasks clock' (active_workers b.workers) (some level) b.tasks b

  unfoldable pub reconcile_level_transition : (ℕ → ℕ) → (ℕ → ℕ) → ℕ → Reconciler → Reconciler
  reconcile_level_transition clock clock' level r =
      final_level_check level (verify_level_completion level (before_verify clock clock' level r))

-- The counters as they are, when the test finds them right.
same_counts :
    (completed failures : ℕ) (s : LevelStatus)
    → eqb_ℤ s.completed_tasks (pos completed) ≡ true
    → eqb_ℤ s.failed_tasks (pos failures) ≡ true
    → with_counts completed failures s ≡ s
same_counts completed failures s h h' =
    let e : s.completed_tasks ≡ pos completed =
      eq_of_parts s.completed_tasks (pos completed) (ground arith) in
    let e' : s.failed_tasks ≡ pos failures =
      eq_of_parts s.failed_tasks (pos failures) (ground arith) in
    rw (sym e, sym e') refl

-- After the verification the counters of the level are those of the stored tasks.
verify_counts :
    (level : ℕ) (s : LevelStatus) (r : Reconciler)
    → lookup level r.levels.levels ≡ some s
    → (lookup level (verify_level_completion level r).levels.levels
        ≡ some (
            with_counts
              (count_values (stored_as level (value complete)) r.tasks)
              (count_values (stored_as level (value failed)) r.tasks)
              s))
      × ((verify_level_completion level r).tasks ≡ r.tasks)
unfolding verify_level_completion
verify_counts level s r e =
    let completed = count_values (stored_as level (value complete)) r.tasks in
    let failures = count_values (stored_as level (value failed)) r.tasks in
    ground (
      arith,
      e,
      same_counts completed failures s,
      lookup-insert_self level (with_counts completed failures s) r.levels.levels,
    )

open_none :
    (level : ℕ) (tasks : Tasks)
    → is_empty (keys (select (λ e. is_open_at level e.1) tasks)) ≡ true
    → count_values (stored_as level (value complete)) tasks
        + count_values (stored_as level (value failed)) tasks
      ≡ count_values (stored_at level) tasks
open_none level [] h = omega arith
open_none level ((k, t) ∷ tasks) h = ground (arith, open_none level tasks, complete_apart t.status)

final_errors :
    (level : ℕ) (r : Reconciler)
    → is_empty (final_level_check level r).errors ≡ true
    → is_empty (keys (select (λ e. is_open_at level e.1) r.tasks)) ≡ true
unfolding final_level_check
final_errors level r h =
    ground (arith, is_empty-append r.errors (keys (select (λ e. is_open_at level e.1) r.tasks)))

resolved_by :
    (completed failures stored : ℕ) (s : LevelStatus)
    → completed + failures ≡ stored
    → is_resolved (with_counts completed failures s) ≡ (stored == s.total_tasks)
unfolding is_resolved ◌+ℤ◌
resolved_by completed failures stored s h = ground (arith, h)

is_level_resolved-known :
    (level : ℕ) (s : LevelStatus) (c : LevelController)
    → lookup level c.levels ≡ some s
    → is_level_resolved level c ≡ is_resolved s
unfolding is_level_resolved
is_level_resolved-known level s c e = ground arith

module _ (level : ℕ) (s : LevelStatus) (r : Reconciler)
    (known : lookup level r.levels.levels ≡ some s)
    (clean : is_empty (final_level_check level (verify_level_completion level r)).errors
      ≡ true) where
  checked_resolved :
      is_level_resolved level (final_level_check level (verify_level_completion level r)).levels
      ≡ (count_values (stored_at level) r.tasks == s.total_tasks)
  unfolding final_level_check
  checked_resolved =
      let (found, kept) = verify_counts level s r known in
      let none_open : is_empty (keys (select (λ e. is_open_at level e.1) r.tasks)) ≡ true =
        subst (λ ts. is_empty (keys (select (λ e. is_open_at level e.1) ts)) ≡ true) kept
          (final_errors level (verify_level_completion level r) clean) in
      is_level_resolved-known level _ (verify_level_completion level r).levels found
      ∙ resolved_by (count_values (stored_as level (value complete)) r.tasks)
          (count_values (stored_as level (value failed)) r.tasks)
          (count_values (stored_at level) r.tasks) s (open_none level r.tasks none_open)

-- When the reconciliation before a level transition reports no error, the level is resolved
-- exactly when as many tasks are stored at this level as the level has in total.
pub reconcile_level_transition_resolved :
    (code_points : String → List ℕ) (digit : ℕ → Option ℕ) (clock clock' : ℕ → ℕ) (level : ℕ)
    (s : LevelStatus) (r : Reconciler)
    → lookup level (before_verify code_points digit clock clock' level r).levels.levels ≡ some s
    → is_empty (reconcile_level_transition code_points digit clock clock' level r).errors ≡ true
    → is_level_resolved level
        (reconcile_level_transition code_points digit clock clock' level r).levels
      ≡ (count_values (stored_at level) (before_verify code_points digit clock clock' level r).tasks
          == s.total_tasks)
unfolding reconcile_level_transition
reconcile_level_transition_resolved code_points digit clock clock' level s r known clean =
    checked_resolved level s (before_verify code_points digit clock clock' level r) known clean
