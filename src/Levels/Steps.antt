-- ===== src/Levels/Steps.antt =====
-- The life of a LevelController of zerg/levels.py: its calls as steps, and the counters under them.
use zerg.Common.{
  ℕ, ◌-◌, ◌≡◌, refl, Bool, true, false, Option, some, String, nat_eq, string_eq, arith,
  Option-cases, Bool-cases, inl, inr,
}
use zerg.Common.Int.{pos, ◌+ℤ◌}
use zerg.Common.Dict.{lookup, insert, contains, lookup-insert}
use zerg.Constants.{value, pending, complete, failed, in_progress}
use zerg.Levels.{
  Task, LevelStatus, LevelController, is_terminal, start_level, first_blocking, is_level_resolved,
}
use zerg.Levels.Marks.{
  with_status, update_level, count_complete, count_failed, complete_task, mark_task_complete,
  mark_task_failed, assign_to, mark_task_in_progress, reset_task, next_level, advance_level,
}
use zerg.Levels.Tally.{
  IsCounted, IsTallied, lookup-update_level, update_level_tasks, replace-IsTallied, complete_Moves,
  fail_Moves, begin_Moves, reset_Moves,
}

-- A change that leaves the three counters of a level leaves the tally.
restatus-IsTallied :
    (k : ℕ) (f : LevelStatus → LevelStatus) (c : LevelController)
    → ((s : LevelStatus)
        → ((f s).completed_tasks ≡ s.completed_tasks)
          × ((f s).failed_tasks ≡ s.failed_tasks)
          × ((f s).total_tasks ≡ s.total_tasks))
    → IsTallied c
    → IsTallied (update_level k f c)
restatus-IsTallied k f c same v = record {
  level = λ l. elim (Option-cases (lookup l c.levels)) [
    | inl e ↦ rw (lookup-update_level k l f c, e) tt
    | inr (s, e) ↦
        let counted : IsCounted l c.tasks s = rw e at (v.level l) in
        rw (update_level_tasks k f c, lookup-update_level k l f c, e)
          (ground (arith, same s, counted.completed, counted.failed, counted.total))
  ];
}

-- The task is unknown, or neither complete nor failed.
abbrev pub IsOpen : String → LevelController → Type 0
IsOpen task_id c = (t : Task) → lookup task_id c.tasks ≡ some t → is_terminal t ≡ false

pub complete_task-IsTallied :
    (task_id : String) (t : Task) (c : LevelController)
    → lookup task_id c.tasks ≡ some t
    → is_terminal t ≡ false
    → IsTallied c
    → IsTallied (complete_task task_id t c)
unfolding complete_task
complete_task-IsTallied task_id t c e nt =
    replace-IsTallied task_id t (with_status (value complete) t) refl c count_complete e
      (λ l s. complete_Moves t l s nt)

pub mark_task_complete-IsTallied :
    (task_id : String) (now : ℕ) (c : LevelController)
    → IsOpen task_id c
    → IsTallied c
    → IsTallied (mark_task_complete task_id now c).1
unfolding mark_task_complete
mark_task_complete-IsTallied task_id now c o v = elim (Option-cases (lookup task_id c.tasks)) [
  | inl e ↦ rw (e, mark_task_complete) v
  | inr (t, e) ↦
      let c' = complete_task task_id t c in
      let done = complete_task-IsTallied task_id t c e (o t e) v in
      let closed =
        restatus-IsTallied t.level (λ s. record s { status = "complete"; completed_at = some now })
          c' (λ s. (refl, refl, refl)) done in
      elim (Bool-cases (is_level_resolved t.level c')) [
        | inl r ↦ rw (e, mark_task_complete, r) closed
        | inr r ↦ rw (e, mark_task_complete, r) done
      ]
]

pub mark_task_failed-IsTallied :
    (task_id : String) (c : LevelController)
    → IsOpen task_id c
    → IsTallied c
    → IsTallied (mark_task_failed task_id c)
unfolding mark_task_failed
mark_task_failed-IsTallied task_id c o v = elim (Option-cases (lookup task_id c.tasks)) [
  | inl e ↦ rw (e, mark_task_failed) v
  | inr (t, e) ↦
      rw (e, mark_task_failed)
        (replace-IsTallied task_id t (with_status (value failed) t) refl c count_failed e
          (λ l s. fail_Moves t l s (o t e)) v)
]

pub mark_task_in_progress-IsTallied :
    (task_id : String) (worker : Option ℕ) (c : LevelController)
    → IsOpen task_id c
    → IsTallied c
    → IsTallied (mark_task_in_progress task_id worker c)
unfolding mark_task_in_progress
mark_task_in_progress-IsTallied task_id worker c o v =
    elim (Option-cases (lookup task_id c.tasks)) [
      | inl e ↦ rw (e, mark_task_in_progress) v
      | inr (t, e) ↦
          rw (e, mark_task_in_progress)
            (replace-IsTallied task_id t (assign_to worker (with_status (value in_progress) t))
              (ground arith) c (λ s. record s { in_progress_tasks = s.in_progress_tasks +ℤ pos 1 })
              e (λ l s. begin_Moves t worker l s (s.in_progress_tasks +ℤ pos 1) (o t e)) v)
    ]

pub reset_task-IsTallied :
    (task_id : String) (c : LevelController) → IsTallied c → IsTallied (reset_task task_id c)
unfolding reset_task
reset_task-IsTallied task_id c v = elim (Option-cases (lookup task_id c.tasks)) [
  | inl e ↦ rw (e, reset_task) v
  | inr (t, e) ↦
      rw (e, reset_task)
        (replace-IsTallied task_id t (with_status (value pending) t) refl c _ e
          (λ l s. reset_Moves t l s) v)
]

start-IsTallied :
    (level now current : ℕ) (on : Bool) (s : LevelStatus) (c : LevelController)
    → lookup level c.levels ≡ some s
    → IsTallied c
    → IsTallied (record c {
      levels = insert level (record s { status = "running"; started_at = some now }) c.levels;
      current_level = current;
      started = on;
    })
start-IsTallied level now current on s c e v = record {
  level = λ l. ground (
    arith,
    v.level l,
    lookup-insert level l (record s { status = "running"; started_at = some now }) c.levels,
  );
}

pub start_level-IsTallied :
    (level now : ℕ) (c : LevelController) → IsTallied c → IsTallied (start_level level now c).1
unfolding start_level
start_level-IsTallied level now c v = elim (Option-cases (lookup level c.levels)) [
  | inl e ↦ rw (e, start_level) v
  | inr (s, e) ↦ elim (Option-cases (first_blocking 1 (level - 1) c)) [
    | inl free ↦ rw (e, start_level, free) (start-IsTallied level now level true s c e v)
    | inr (prev, held) ↦ rw (e, start_level, held) v
  ]
]

pub advance_level-IsTallied :
    (now : ℕ) (c : LevelController) → IsTallied c → IsTallied (advance_level now c).1
unfolding advance_level
advance_level-IsTallied now c v = elim (Option-cases (next_level c)) [
  | inl e ↦ rw (e, advance_level) v
  | inr (n, e) ↦ elim (Bool-cases (contains n c.levels)) [
    | inl there ↦ rw (e, advance_level, there) (start_level-IsTallied n now c v)
    | inr absent ↦ rw (e, advance_level, absent) v
  ]
]

-- One call. A task that is complete or failed is not marked again before a reset.
pub data Step (c : LevelController) : LevelController → Type 0 where
  begin :
      (task_id : String) (worker : Option ℕ)
      → IsOpen task_id c
      → Step c (mark_task_in_progress task_id worker c)
  finish :
      (task_id : String) (now : ℕ) → IsOpen task_id c → Step c (mark_task_complete task_id now c).1
  fail : (task_id : String) → IsOpen task_id c → Step c (mark_task_failed task_id c)
  reset : (task_id : String) → Step c (reset_task task_id c)
  start : (level now : ℕ) → Step c (start_level level now c).1
  advance : (now : ℕ) → Step c (advance_level now c).1

pub data Reach (c : LevelController) : LevelController → Type 0 where
  here : Reach c c
  next : {d d' : LevelController} → Reach c d → Step d d' → Reach c d'

Step-IsTallied : {c d : LevelController} → Step c d → IsTallied c → IsTallied d
Step-IsTallied {c} (begin task_id worker o) v = mark_task_in_progress-IsTallied task_id worker c o v
Step-IsTallied {c} (finish task_id now o) v = mark_task_complete-IsTallied task_id now c o v
Step-IsTallied {c} (fail task_id o) v = mark_task_failed-IsTallied task_id c o v
Step-IsTallied {c} (reset task_id) v = reset_task-IsTallied task_id c v
Step-IsTallied {c} (start level now) v = start_level-IsTallied level now c v
Step-IsTallied {c} (advance now) v = advance_level-IsTallied now c v

pub Reach-IsTallied : {c d : LevelController} → Reach c d → IsTallied c → IsTallied d
Reach-IsTallied here v = v
Reach-IsTallied (next r s) v = Step-IsTallied s (Reach-IsTallied r v)
