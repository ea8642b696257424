-- ===== src/Levels.antt =====
-- zerg/levels.py: the LevelController. Levels and tasks are dictionaries; the counters are
-- integers, since `reset_task` subtracts with no guard. A method takes the readings of
-- `datetime.now()` that it makes.
pub mod Marks
pub mod Tally
pub mod Steps
pub mod Initial
pub mod Resolved
pub mod Order
mod Tests
use zerg.Common.{
  ℕ, zero, suc, ◌+◌, ◌-◌, Bool, true, false, not, ◌&&◌, ◌||◌, Option, none, some, List, [], ◌∷◌,
  ◌++◌, String, ◌==◌, nat_eq, string_eq, leb, if◌then◌else◌, length, is_none, get_or, count_if,
  select, map,
}
use zerg.Common.Int.{ℤ, pos, ◌+ℤ◌, ◌-ℤ◌, eqb_ℤ, max_zero}
use zerg.Common.Dict.{Dict, lookup, insert, contains, keys, values, count_values}
use zerg.Constants.{
  Level, quality, level_enum, level_name, value, todo, pending, complete, failed, in_progress,
}

-- The fields of the `Task` dictionary that the controller reads or writes.
pub record Task : Type 0 where
  pub id : String
  pub level : ℕ
  pub status : Option String
  pub assigned_worker : Option ℕ

-- zerg/types.py; `merge_commit`, which no call of the controller touches, is left out.
pub record LevelStatus : Type 0 where
  pub level : Level
  pub name : String
  pub total_tasks : ℕ
  pub completed_tasks : ℤ
  pub failed_tasks : ℤ
  pub in_progress_tasks : ℤ
  pub status : String
  pub started_at : Option ℕ
  pub completed_at : Option ℕ

pub record LevelController : Type 0 where
  pub levels : Dict ℕ LevelStatus
  pub tasks : Dict String Task
  pub current_level : ℕ
  pub started : Bool

pub data LevelError : Type 0 where
  no_such_level : (level : ℕ) → LevelError
  not_complete : (level blocking_level : ℕ) → LevelError

pub data Result {ℓ} (A : Type ℓ) : Type ℓ where
  ok : A → Result A
  err : LevelError → Result A

-- `task.get("status") == s`
abbrev pub has_status : String → Task → Bool
has_status s t = elim t.status [ none ↦ false | some v ↦ v == s ]

abbrev pub is_terminal : Task → Bool
is_terminal t = has_status (value complete) t || has_status (value failed) t

unfoldable pub is_resolved : LevelStatus → Bool
unfolding ◌+ℤ◌
is_resolved s = eqb_ℤ (s.completed_tasks +ℤ s.failed_tasks) (pos s.total_tasks)

-- `level_tasks[level].append(task_id)`, with an empty list for a new level.
abbrev pub add_task_id : ℕ → String → Dict ℕ (List String) → Dict ℕ (List String)
add_task_id level task_id d = insert level (get_or (lookup level d) [] ++ task_id ∷ []) d

-- The loop of `initialize` over the tasks.
unfoldable pub index_tasks :
    List Task → Dict String Task → Dict ℕ (List String) → Dict String Task × Dict ℕ (List String)
index_tasks [] tasks level_tasks = (tasks, level_tasks)
index_tasks (t ∷ ts) tasks level_tasks =
    index_tasks ts (insert t.id t tasks) (add_task_id t.level t.id level_tasks)

-- `Level(level_num) if level_num <= 5 else Level.QUALITY`
unfoldable pub level_of_number : ℕ → Option Level
level_of_number n = if leb n 5 then level_enum n else some quality

abbrev pub new_status : Level → ℕ → LevelStatus
new_status level total = record {
  level = level;
  name = level_name level;
  total_tasks = total;
  completed_tasks = pos 0;
  failed_tasks = pos 0;
  in_progress_tasks = pos 0;
  status = "pending";
  started_at = none;
  completed_at = none;
}

-- The loop of `initialize` over the levels; `none` is the ValueError of `Level(level_num)`.
unfoldable pub build_levels :
    Dict ℕ (List String) → Dict ℕ LevelStatus → Option (Dict ℕ LevelStatus)
build_levels [] levels = some levels
build_levels ((n, ids) ∷ rest) levels = elim (level_of_number n) [
  | none ↦ none
  | some l ↦ build_levels rest (insert n (new_status l (length ids)) levels)
]

unfoldable pub initialize : List Task → Option LevelController
unfolding index_tasks build_levels level_of_number
initialize ts =
    let (tasks, level_tasks) = index_tasks ts [] [] in
    elim (build_levels level_tasks []) [
      | none ↦ none
      | some levels ↦
          some (record { levels = levels; tasks = tasks; current_level = 0; started = false })
    ]

unfoldable pub get_tasks_for_level : ℕ → LevelController → List String
get_tasks_for_level level c = keys (select (λ e. e.1.level == level) c.tasks)

unfoldable pub get_pending_tasks_for_level : ℕ → LevelController → List String
get_pending_tasks_for_level level c = keys (
    select
      (λ e.
        e.1.level == level
        && (get_or e.1.status (value todo) == value todo
            || get_or e.1.status (value todo) == value pending))
      c.tasks)

-- `level in self._levels and not self._levels[level].is_resolved`
abbrev pub blocks : ℕ → LevelController → Bool
blocks level c = elim (lookup level c.levels) [ none ↦ false | some s ↦ not (is_resolved s) ]

-- The first of the `n` levels from `level` on that blocks.
unfoldable pub first_blocking : ℕ → ℕ → LevelController → Option ℕ
first_blocking level zero c = none
first_blocking level (suc n) c =
    if blocks level c then some level else first_blocking (level + 1) n c

abbrev pub put_level : ℕ → LevelStatus → LevelController → LevelController
put_level level s c = record c { levels = insert level s c.levels }

abbrev pub put_task : String → Task → LevelController → LevelController
put_task task_id t c = record c { tasks = insert task_id t c.tasks }

-- The task IDs of the level, or the error; the state is the new one in either case.
unfoldable pub start_level : ℕ → ℕ → LevelController → Result (List String) × LevelController
unfolding first_blocking get_tasks_for_level
start_level level now c = elim (lookup level c.levels) [
  | none ↦ (err (no_such_level level), c)
  | some s ↦ elim (first_blocking 1 (level - 1) c) [
    | some prev ↦ (err (not_complete level prev), c)
    | none ↦
        let c' = record c {
          levels = insert level (record s { status = "running"; started_at = some now }) c.levels;
          current_level = level;
          started = true;
        } in
        (ok (get_tasks_for_level level c'), c')
  ]
]

unfoldable pub is_level_complete : ℕ → LevelController → Bool
is_level_complete level c = elim (lookup level c.levels) [
  | none ↦ false
  | some s ↦ eqb_ℤ s.completed_tasks (pos s.total_tasks)
]

unfoldable pub is_level_resolved : ℕ → LevelController → Bool
unfolding is_resolved
is_level_resolved level c = elim (lookup level c.levels) [ none ↦ false | some s ↦ is_resolved s ]
