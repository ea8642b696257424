-- ===== src/Levels/Tests.antt =====
-- Runs of zerg/levels.py: two tasks at level 1 and one at level 2.
use zerg.Common.{
  NoRepeat, All, ℕ, ◌≡◌, refl, true, false, ◌&&◌, none, some, List, [], ◌∷◌, String, nat_eq,
  string_eq, arith,
}
use zerg.Common.Int.{◌+ℤ◌, ◌-ℤ◌}
use zerg.Common.Dict.{Dict, lookup, insert, contains}
use zerg.Constants.{Level, value, complete}
use zerg.Levels.{
  is_terminal, Task, LevelController, LevelStatus, err, not_complete, initialize, index_tasks,
  build_levels, level_of_number, new_status, start_level, first_blocking, get_tasks_for_level,
  is_resolved, is_level_resolved,
}
use zerg.Levels.Marks.{
  mark_task_complete, mark_task_failed, complete_task, update_level, with_status,
}
use zerg.Levels.Tally.{IsTallied}
use zerg.Levels.Steps.{Step, Reach, here, next, finish, Reach-IsTallied, IsOpen}
use zerg.Levels.Initial.{ids, initialize-IsTallied}
use zerg.Levels.Resolved.{
  all_terminal, is_level_resolved-Reach, mark_task_complete_again, mark_task_complete_failed,
}
use zerg.Levels.Order.{start_level_refuses, start_level_order}

abbrev task : String → ℕ → Task
task id level = record { id = id; level = level; status = none; assigned_worker = none }

abbrev graph : List Task
graph = task "A" 1 ∷ task "B" 1 ∷ task "C" 2 ∷ []

abbrev controller : Dict ℕ LevelStatus → Dict String Task → LevelController
controller levels tasks = record {
  levels = levels;
  tasks = tasks;
  current_level = 0;
  started = false;
}

abbrev fresh : LevelController
fresh =
    controller ((1, new_status Level.foundation 2) ∷ (2, new_status Level.core 1) ∷ [])
      (("A", task "A" 1) ∷ ("B", task "B" 1) ∷ ("C", task "C" 2) ∷ [])

initialized : initialize graph ≡ some fresh
unfolding initialize index_tasks build_levels level_of_number lookup insert
initialized = refl

-- Both tasks of level 1 complete, one after the other.
abbrev after_a : LevelController
after_a = (mark_task_complete "A" 5 fresh).1

abbrev after_b : LevelController
after_b = (mark_task_complete "B" 6 after_a).1

distinct : NoRepeat (ids graph)
distinct = (refl, (refl, (refl, tt)))

unmarked : All (λ t. is_terminal t ≡ false) graph
unmarked = (refl, (refl, (refl, tt)))

a-IsOpen : IsOpen "A" fresh
unfolding lookup
a-IsOpen t e = ground arith

b-IsOpen : IsOpen "B" after_a
unfolding lookup insert mark_task_complete complete_task update_level is_level_resolved is_resolved
b-IsOpen t e = ground arith

life : Reach fresh after_b
life = next (next here (finish "A" 5 a-IsOpen)) (finish "B" 6 b-IsOpen)

fresh-IsTallied : IsTallied fresh
fresh-IsTallied = initialize-IsTallied graph fresh distinct unmarked initialized

is_level_resolved-Reach_example :
    is_level_resolved 1 after_b ≡ (contains 1 after_b.levels && all_terminal 1 after_b.tasks)
is_level_resolved-Reach_example =
    is_level_resolved-Reach graph fresh after_b 1 distinct unmarked initialized life

level_resolves : is_level_resolved 1 after_b ≡ true
unfolding lookup insert mark_task_complete complete_task update_level is_level_resolved is_resolved
    ◌+ℤ◌ ◌-ℤ◌
level_resolves = refl

start_level_order_example : all_terminal 1 after_b.tasks ≡ true
unfolding lookup insert mark_task_complete complete_task update_level is_level_resolved is_resolved
    ◌+ℤ◌ ◌-ℤ◌ start_level first_blocking get_tasks_for_level
start_level_order_example =
    start_level_order graph fresh after_b 2 1 9 ("C" ∷ []) distinct unmarked initialized life refl
      (omega arith) (omega arith) refl

start_level_refuses_example : start_level 2 4 fresh ≡ (err (not_complete 2 1), fresh)
unfolding lookup is_resolved ◌+ℤ◌
start_level_refuses_example =
    start_level_refuses 2 1 4 fresh refl (omega arith) (omega arith) refl
      (λ k a b. absurd (omega arith))

mark_task_complete_again_example :
    ((mark_task_complete "A" 8 after_b).0 ≡ false)
    × (is_level_resolved 1 (mark_task_complete "A" 8 after_b).1 ≡ false)
unfolding lookup insert mark_task_complete complete_task update_level is_level_resolved is_resolved
    ◌+ℤ◌ ◌-ℤ◌
mark_task_complete_again_example =
    mark_task_complete_again "A" 8 (with_status "complete" (task "A" 1)) after_b refl refl

-- Task A fails for good, is retried by hand and completes, while B has not begun.
abbrev failed_a : LevelController
failed_a = mark_task_failed "A" fresh

mark_task_complete_failed_example :
    ((mark_task_complete "A" 5 failed_a).0 ≡ true)
    × (all_terminal 1 (
          insert "A"
            (with_status (value complete) (with_status "failed" (task "A" 1)))
            failed_a.tasks)
        ≡ false)
unfolding lookup insert mark_task_failed update_level ◌+ℤ◌ ◌-ℤ◌
mark_task_complete_failed_example =
    mark_task_complete_failed "A" 5 (with_status "failed" (task "A" 1)) failed_a
      (Reach-IsTallied (next here (Step.fail "A" a-IsOpen)) fresh-IsTallied) refl refl refl refl
