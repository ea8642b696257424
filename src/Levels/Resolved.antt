-- ===== src/Levels/Resolved.antt =====
-- When a level of zerg/levels.py counts as resolved, and what a second mark of a task does.
use zerg.Common.{
  NoRepeat, ℕ, ◌+◌, ◌≤◌, ◌≡◌, refl, Bool, true, false, ◌&&◌, ◌||◌, not, some, List, [], ◌∷◌, String,
  nat_eq, string_eq, arith, Option-cases, inl, inr, All, all, nat_beq, one_if,
}
use zerg.Common.Int.{◌+ℤ◌}
use zerg.Common.Dict.{Dict, lookup, insert, contains, values, count_values, count_values-insert}
use zerg.Constants.{value, complete, failed}
use zerg.Levels.{
  Task, LevelStatus, LevelController, put_task, is_terminal, initialize, is_resolved,
  is_level_resolved,
}
use zerg.Levels.Marks.{mark_task_complete, complete_task, count_complete, with_status}
use zerg.Levels.Tally.{
  counts, at_level, IsCounted, IsTallied, failed_of_complete, lookup-update_level,
  update_level_tasks,
}
use zerg.Levels.Steps.{Reach, Reach-IsTallied, complete_task-IsTallied}
use zerg.Levels.Initial.{ids, initialize-IsTallied}

-- Every task of level `l` is complete or failed.
abbrev pub all_terminal : ℕ → Dict String Task → Bool
all_terminal l tasks = all (λ t. not (at_level l t) || is_terminal t) (values tasks)

-- A task's status is one string, so it is not both complete and failed.
counts_apart :
    (l : ℕ) (t : Task)
    → one_if (counts l (value complete) t) + one_if (counts l (value failed) t)
      ≡ one_if (at_level l t && is_terminal t)
counts_apart l t = elim (Option-cases t.status) [
  | inl e ↦ ground arith
  | inr (v, e) ↦ ground (arith, failed_of_complete v)
]

-- The complete and the failed tasks of a level are at most its tasks, and all of them exactly when
-- every task is terminal.
terminal_counts :
    (l : ℕ) (tasks : Dict String Task)
    → let n =
        count_values (counts l (value complete)) tasks
        + count_values (counts l (value failed)) tasks in
      (n ≤ count_values (at_level l) tasks)
      × (nat_beq n (count_values (at_level l) tasks) ≡ all_terminal l tasks)
terminal_counts l [] = (omega arith, refl)
terminal_counts l ((k, t) ∷ tasks) = ground (arith, counts_apart l t, terminal_counts l tasks)

pub is_resolved-IsCounted :
    (l : ℕ) (tasks : Dict String Task) (s : LevelStatus)
    → IsCounted l tasks s
    → is_resolved s ≡ all_terminal l tasks
unfolding is_resolved ◌+ℤ◌
is_resolved-IsCounted l tasks s v =
    ground (arith, terminal_counts l tasks, v.completed, v.failed, v.total)

pub is_level_resolved-IsTallied :
    (l : ℕ) (c : LevelController)
    → IsTallied c
    → is_level_resolved l c ≡ (contains l c.levels && all_terminal l c.tasks)
unfolding is_level_resolved
is_level_resolved-IsTallied l c v = elim (Option-cases (lookup l c.levels)) [
  | inl e ↦ ground arith
  | inr (s, e) ↦
      let counted : IsCounted l c.tasks s = rw e at (v.level l) in
      ground (arith, is_resolved-IsCounted l c.tasks s counted)
]

-- From a task graph with distinct IDs, none of its tasks complete or failed, any calls keep the
-- counters exact: a level is resolved exactly when it exists and each of its tasks is complete or
-- failed, as long as a complete or failed task is not marked again before a reset.
pub is_level_resolved-Reach :
    (ts : List Task) (c d : LevelController) (l : ℕ)
    → NoRepeat (ids ts)
    → All (λ t. is_terminal t ≡ false) ts
    → initialize ts ≡ some c
    → Reach c d
    → is_level_resolved l d ≡ (contains l d.levels && all_terminal l d.tasks)
is_level_resolved-Reach ts c d l n o e r =
    is_level_resolved-IsTallied l d (Reach-IsTallied r (initialize-IsTallied ts c n o e))

-- The level status right after the task is set to complete.
completed_lookup :
    (task_id : String) (t : Task) (s : LevelStatus) (c : LevelController)
    → lookup t.level c.levels ≡ some s
    → lookup t.level (complete_task task_id t c).levels ≡ some (count_complete s)
unfolding complete_task
completed_lookup task_id t s c e = ground (
  arith,
  lookup-update_level t.level t.level count_complete
      (put_task task_id (with_status (value complete) t) c),
)

recount : (s : LevelStatus) → is_resolved s ≡ true → is_resolved (count_complete s) ≡ false
unfolding is_resolved ◌+ℤ◌
recount s h = ground arith

recounted :
    (task_id : String) (t : Task) (c : LevelController)
    → is_level_resolved t.level c ≡ true
    → is_level_resolved t.level (complete_task task_id t c) ≡ false
unfolding is_level_resolved
recounted task_id t c r = elim (Option-cases (lookup t.level c.levels)) [
  | inl absent ↦ absurd (ground arith)
  | inr (s, there) ↦ ground (arith, completed_lookup task_id t s c there, recount s)
]

-- Marking a complete or failed task of a resolved level complete once more counts it twice: the
-- call answers no, and the level is resolved no longer though all of its tasks are.
pub mark_task_complete_again :
    (task_id : String) (now : ℕ) (t : Task) (c : LevelController)
    → lookup task_id c.tasks ≡ some t
    → is_level_resolved t.level c ≡ true
    → ((mark_task_complete task_id now c).0 ≡ false)
      × (is_level_resolved t.level (mark_task_complete task_id now c).1 ≡ false)
unfolding mark_task_complete
mark_task_complete_again task_id now t c e r = ground (arith, recounted task_id t c r)

complete_task_parts :
    (task_id : String) (t : Task) (c : LevelController)
    → ((complete_task task_id t c).tasks ≡ insert task_id (with_status (value complete) t) c.tasks)
      × (contains t.level (complete_task task_id t c).levels ≡ contains t.level c.levels)
unfolding complete_task
complete_task_parts task_id t c =
    let put = put_task task_id (with_status (value complete) t) c in
    ground (
      arith,
      update_level_tasks t.level count_complete put,
      lookup-update_level t.level t.level count_complete put,
    )

-- The first time a task of a tallied controller is marked complete, the call answers whether, with
-- this task complete, every task of its level is complete or failed.
pub mark_task_complete_answer :
    (task_id : String) (now : ℕ) (t : Task) (c : LevelController)
    → IsTallied c
    → lookup task_id c.tasks ≡ some t
    → is_terminal t ≡ false
    → (mark_task_complete task_id now c).0 ≡ (
        contains t.level c.levels
        && all_terminal t.level (insert task_id (with_status (value complete) t) c.tasks))
unfolding mark_task_complete
mark_task_complete_answer task_id now t c v e nt =
    let v' = complete_task-IsTallied task_id t c e nt v in
    let c' = complete_task task_id t c in
    ground (arith, is_level_resolved-IsTallied t.level c' v', complete_task_parts task_id t c)

overcounted :
    (l : ℕ) (tasks : Dict String Task) (s : LevelStatus)
    → IsCounted l tasks s
    → count_values (counts l (value complete)) tasks
        + count_values (counts l (value failed)) tasks
        + 1
      ≡ count_values (at_level l) tasks
    → is_resolved (count_complete s) ≡ true
unfolding is_resolved ◌+ℤ◌
overcounted l tasks s v one = ground (arith, v.completed, v.failed, v.total)

resolved_lookup :
    (task_id : String) (t : Task) (s : LevelStatus) (c : LevelController)
    → lookup t.level c.levels ≡ some s
    → is_level_resolved t.level (complete_task task_id t c) ≡ is_resolved (count_complete s)
unfolding is_level_resolved
resolved_lookup task_id t s c e = ground (arith, completed_lookup task_id t s c e)

-- Marking a failed task complete leaves its failure counted: when exactly one task of its level is
-- neither complete nor failed, the call answers that the level is resolved, though that task is
-- still open.
pub mark_task_complete_failed :
    (task_id : String) (now : ℕ) (t : Task) (c : LevelController)
    → IsTallied c
    → lookup task_id c.tasks ≡ some t
    → t.status ≡ some (value failed)
    → contains t.level c.levels ≡ true
    → count_values (counts t.level (value complete)) c.tasks
        + count_values (counts t.level (value failed)) c.tasks
        + 1
      ≡ count_values (at_level t.level) c.tasks
    → ((mark_task_complete task_id now c).0 ≡ true)
      × (all_terminal t.level (insert task_id (with_status (value complete) t) c.tasks) ≡ false)
unfolding mark_task_complete
mark_task_complete_failed task_id now t c v e f known one =
    let t' = with_status (value complete) t in
    let open_task : all_terminal t.level (insert task_id t' c.tasks) ≡ false = ground (
      arith,
      terminal_counts t.level (insert task_id t' c.tasks),
      count_values-insert (counts t.level (value complete)) task_id t' t c.tasks e,
      count_values-insert (counts t.level (value failed)) task_id t' t c.tasks e,
      count_values-insert (at_level t.level) task_id t' t c.tasks e,
    ) in
    elim (Option-cases (lookup t.level c.levels)) [
      | inl absent ↦ absurd (ground arith)
      | inr (s, there) ↦
          let counted : IsCounted t.level c.tasks s = rw there at (v.level t.level) in
          let early : is_level_resolved t.level (complete_task task_id t c) ≡ true = ground (
            arith,
            overcounted t.level c.tasks s counted one,
            resolved_lookup task_id t s c there,
          ) in
          (ground (arith, early), open_task)
    ]
