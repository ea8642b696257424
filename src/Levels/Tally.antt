-- ===== src/Levels/Tally.antt =====
-- The counters of a level of zerg/levels.py against the tasks themselves.
use zerg.Common.{
  ℕ, ◌≡◌, refl, Bool, true, false, ◌&&◌, Option, none, some, String, ◌==◌, nat_eq, string_eq,
  if◌then◌else◌, arith, one_if, get_or, Option-cases, Bool-cases, inl, inr, nat_beq_iff,
}
use zerg.Common.Int.{ℤ, pos, ◌+ℤ◌, ◌-ℤ◌, int_laws}
use zerg.Common.Dict.{Dict, lookup, insert, count_values, count_values-insert, lookup-insert}
use zerg.Constants.{value, todo, pending, complete, failed, in_progress}
use zerg.Levels.{Task, LevelStatus, LevelController, has_status, is_terminal, put_task}
use zerg.Levels.Marks.{with_status, update_level, count_complete, count_failed, assign_to, uncount}

-- A task at level `l` whose status is `s`.
abbrev pub counts : ℕ → String → Task → Bool
counts l s t = (t.level == l) && has_status s t

abbrev pub at_level : ℕ → Task → Bool
at_level l t = t.level == l

-- The counters of level `l` say how many of its tasks are complete, failed, and there at all.
pub record IsCounted (l : ℕ) (tasks : Dict String Task) (s : LevelStatus) : Type 0 where
  pub completed : s.completed_tasks ≡ pos (count_values (counts l (value complete)) tasks)
  pub failed : s.failed_tasks ≡ pos (count_values (counts l (value failed)) tasks)
  pub total : s.total_tasks ≡ count_values (at_level l) tasks

abbrev pub IsCountedIf : ℕ → Dict String Task → Option LevelStatus → Type 0
IsCountedIf l tasks none = Unit
IsCountedIf l tasks (some s) = IsCounted l tasks s

pub record IsTallied (c : LevelController) : Type 0 where
  pub level : (l : ℕ) → IsCountedIf l c.tasks (lookup l c.levels)

pub lookup-update_level :
    (k l : ℕ) (f : LevelStatus → LevelStatus) (c : LevelController)
    → lookup l (update_level k f c).levels
      ≡ elim (lookup l c.levels) [ none ↦ none | some s ↦ some (if k == l then f s else s) ]
unfolding update_level
lookup-update_level k l f c = elim (Option-cases (lookup k c.levels)) [
  | inl e ↦ ground (arith, nat_beq_iff k l)
  | inr (s, e) ↦ ground (arith, nat_beq_iff k l, lookup-insert k l (f s) c.levels)
]

pub update_level_tasks :
    (k : ℕ) (f : LevelStatus → LevelStatus) (c : LevelController)
    → (update_level k f c).tasks ≡ c.tasks
unfolding update_level
update_level_tasks k f c = ground arith

-- From `s` to `s'` the counters of level `l` move as the task does from `t` to `t'`.
abbrev pub Moves : ℕ → Task → Task → LevelStatus → LevelStatus → Type 0
Moves l t t' s s' =
    (s'.completed_tasks +ℤ pos (one_if (counts l (value complete) t))
      ≡ s.completed_tasks +ℤ pos (one_if (counts l (value complete) t')))
    × (s'.failed_tasks +ℤ pos (one_if (counts l (value failed) t))
        ≡ s.failed_tasks +ℤ pos (one_if (counts l (value failed) t')))
    × (s'.total_tasks ≡ s.total_tasks)

module _ (task_id : String) (t t' : Task) (same : t'.level ≡ t.level) where
  replace-IsCounted :
      (tasks : Dict String Task) (l : ℕ) (s s' : LevelStatus)
      → lookup task_id tasks ≡ some t
      → IsCounted l tasks s
      → Moves l t t' s s'
      → IsCounted l (insert task_id t' tasks) s'
  unfolding ◌+ℤ◌
  replace-IsCounted tasks l s s' h v m = record {
    completed =
        ground (
          arith,
          v.completed,
          count_values-insert (counts l (value complete)) task_id t' t tasks h,
        );
    failed =
        ground
          (arith, v.failed, count_values-insert (counts l (value failed)) task_id t' t tasks h);
    total = ground (arith, v.total, count_values-insert (at_level l) task_id t' t tasks h);
  }

  pub replace-IsTallied :
      (c : LevelController) (f : LevelStatus → LevelStatus)
      → lookup task_id c.tasks ≡ some t
      → ((l : ℕ) (s : LevelStatus) → Moves l t t' s (if t.level == l then f s else s))
      → IsTallied c
      → IsTallied (update_level t.level f (put_task task_id t' c))
  replace-IsTallied c f h m v = record {
    level = λ l. elim (Option-cases (lookup l c.levels)) [
      | inl e ↦ rw (lookup-update_level t.level l f (put_task task_id t' c), e) tt
      | inr (s, e) ↦
          rw
            (
              update_level_tasks t.level f (put_task task_id t' c),
              lookup-update_level t.level l f (put_task task_id t' c),
              e,
            )
            (replace-IsCounted c.tasks l s (if t.level == l then f s else s) h (rw e at (v.level l))
              (m l s))
    ];
  }

pub complete_Moves :
    (t : Task) (l : ℕ) (s : LevelStatus)
    → is_terminal t ≡ false
    → Moves l t (with_status (value complete) t) s (if t.level == l then count_complete s else s)
unfolding ◌+ℤ◌
complete_Moves t l s nt = ground arith

pub fail_Moves :
    (t : Task) (l : ℕ) (s : LevelStatus)
    → is_terminal t ≡ false
    → Moves l t (with_status (value failed) t) s (if t.level == l then count_failed s else s)
unfolding ◌+ℤ◌
fail_Moves t l s nt = ground arith

pub begin_Moves :
    (t : Task) (worker : Option ℕ) (l : ℕ) (s : LevelStatus) (n : ℤ)
    → is_terminal t ≡ false
    → Moves l t
        (assign_to worker (with_status (value in_progress) t))
        s
        (if t.level == l then record s { in_progress_tasks = n } else s)
unfolding ◌+ℤ◌
begin_Moves t none l s n nt = ground arith
begin_Moves t (some w) l s n nt = ground arith

pub failed_of_complete : (v : String) → (v == value complete) ≡ true → (v == value failed) ≡ false
failed_of_complete v e = rw ((string_eq.same_iff v (value complete)).0 e)

uncount_fields :
    (old : String) (s : LevelStatus)
    → ((uncount old s).completed_tasks
        ≡ (if old == value complete then s.completed_tasks -ℤ pos 1 else s.completed_tasks))
      × ((uncount old s).failed_tasks
          ≡ (if old == value failed then s.failed_tasks -ℤ pos 1 else s.failed_tasks))
      × ((uncount old s).total_tasks ≡ s.total_tasks)
uncount_fields old s = ground (arith, failed_of_complete old)

sub_add_one : (a : ℤ) → a -ℤ pos 1 +ℤ pos 1 ≡ a +ℤ pos 0
sub_add_one a = omega int_laws

reset_of :
    (status : Option String) (t : Task) (l : ℕ) (s : LevelStatus)
    → t.status ≡ status
    → Moves l t
        (with_status (value pending) t)
        s
        (if t.level == l then uncount (get_or t.status (value todo)) s else s)
reset_of none t l s e =
    let old : get_or t.status (value todo) ≡ value todo = rw e in
    rw old (ground (arith, uncount_fields (value todo) s))
reset_of (some v) t l s e = elim (Bool-cases (t.level == l)) [
  | inl here ↦
      ground (arith, uncount_fields v s, sub_add_one s.completed_tasks, sub_add_one s.failed_tasks)
  | inr there ↦ ground arith
]

pub reset_Moves :
    (t : Task) (l : ℕ) (s : LevelStatus)
    → Moves l t
        (with_status (value pending) t)
        s
        (if t.level == l then uncount (get_or t.status (value todo)) s else s)
reset_Moves t l s = reset_of t.status t l s refl
