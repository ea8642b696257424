-- ===== src/Assign.antt =====
-- zerg/assign.py: tasks are spread over workers, level by level, the longest first. A missing key
-- of a `defaultdict` reads as 0 or the empty list; that the read also stores it makes no answer
-- differ. Python's `sorted` is a stable insertion sort.
pub mod Balance
pub mod Rebalance
mod Tests
use zerg.Common.{
  ℕ, zero, suc, ◌+◌, Bool, true, false, Option, none, some, List, [], ◌∷◌, ◌++◌, String, nat_eq,
  string_eq, ltb, leb, if◌then◌else◌, get_or, ◌>>=◌, length, map,
}
use zerg.Common.Dict.{Dict, lookup, insert, keys}

pub record Task : Type 0 where
  pub id : String
  pub level : Option ℕ
  pub estimate_minutes : Option ℕ

pub record WorkerAssignment : Type 0 where
  pub worker_count : ℕ
  pub assignments : Dict String ℕ
  pub worker_tasks : Dict ℕ (List String)
  pub worker_minutes : Dict ℕ ℕ

-- `task.get("level", 1)` and `task.get("estimate_minutes", 15)`
abbrev pub level_or : Task → ℕ
level_or t = get_or t.level 1

abbrev pub minutes_or : Task → ℕ
minutes_or t = get_or t.estimate_minutes 15

unfoldable pub minutes_of : ℕ → Dict ℕ ℕ → ℕ
minutes_of w minutes = get_or (lookup w minutes) 0

-- `minutes[w] += m`
unfoldable pub add_minutes : ℕ → ℕ → Dict ℕ ℕ → Dict ℕ ℕ
add_minutes w m minutes = insert w (get_or (lookup w minutes) 0 + m) minutes

unfoldable pub put_longest : Task → List Task → List Task
put_longest t [] = t ∷ []
put_longest t (u ∷ us) =
    if leb (minutes_or u) (minutes_or t) then t ∷ u ∷ us else u ∷ put_longest t us

-- `sorted(tasks, key=..., reverse=True)`: equal tasks keep their order.
unfoldable pub longest_first : List Task → List Task
longest_first [] = []
longest_first (t ∷ ts) = put_longest t (longest_first ts)

-- `min(range(n), key=...)`: the first worker with the least minutes.
unfoldable pub scan : Dict ℕ ℕ → ℕ → ℕ → ℕ → ℕ
scan minutes w zero best = best
scan minutes w (suc n) best =
    scan minutes (w + 1) n
      (if ltb (minutes_of w minutes) (minutes_of best minutes) then w else best)

unfoldable pub least_loaded : ℕ → Dict ℕ ℕ → Option ℕ
least_loaded zero minutes = none
least_loaded (suc n) minutes = some (scan minutes 1 n 0)

abbrev pub record_task : Task → ℕ → WorkerAssignment → WorkerAssignment
record_task t w a = record a {
  assignments = insert t.id w a.assignments;
  worker_tasks = insert w (get_or (lookup w a.worker_tasks) [] ++ t.id ∷ []) a.worker_tasks;
  worker_minutes = add_minutes w (minutes_or t) a.worker_minutes;
}

-- One round of the inner loop, with the minutes of the level. Without balancing these are the same
-- dictionary as `worker_minutes`, to which both additions then go. `none` is the ValueError of
-- `min` without workers.
unfoldable pub place :
    Bool → Task → WorkerAssignment → Dict ℕ ℕ → Option (WorkerAssignment × Dict ℕ ℕ)
place true t a level_minutes = least_loaded a.worker_count level_minutes >>= λ w.
    some (record_task t w a, add_minutes w (minutes_or t) level_minutes)
place false t a level_minutes = least_loaded a.worker_count a.worker_minutes >>= λ w.
    let a' = record_task t w a in
    some
      (record a' { worker_minutes = add_minutes w (minutes_or t) a'.worker_minutes }, level_minutes)

unfoldable pub place_all :
    Bool → List Task → WorkerAssignment → Dict ℕ ℕ → Option (WorkerAssignment × Dict ℕ ℕ)
place_all balance [] a level_minutes = some (a, level_minutes)
place_all balance (t ∷ ts) a level_minutes =
    place balance t a level_minutes >>= λ r. place_all balance ts r.0 r.1

unfoldable pub group : List Task → Dict ℕ (List Task) → Dict ℕ (List Task)
group [] d = d
group (t ∷ ts) d = group ts (insert (level_or t) (get_or (lookup (level_or t) d) [] ++ t ∷ []) d)

unfoldable pub put_level : ℕ → List ℕ → List ℕ
put_level l [] = l ∷ []
put_level l (k ∷ ks) = if ltb k l then k ∷ put_level l ks else l ∷ k ∷ ks

-- `sorted(levels)`
unfoldable pub sorted_levels : List ℕ → List ℕ
sorted_levels [] = []
sorted_levels (l ∷ ls) = put_level l (sorted_levels ls)

unfoldable pub place_levels :
    Bool → List ℕ → Dict ℕ (List Task) → WorkerAssignment → Option WorkerAssignment
place_levels balance [] level_tasks a = some a
place_levels balance (l ∷ ls) level_tasks a =
    place_all balance (longest_first (get_or (lookup l level_tasks) [])) a [] >>= λ r.
    place_levels balance ls level_tasks r.0

pub record WorkerAssignmentEntry : Type 0 where
  pub task_id : String
  pub worker_id : ℕ
  pub level : ℕ
  pub estimated_minutes : ℕ

unfoldable pub entries : List Task → Dict String ℕ → List WorkerAssignmentEntry
entries [] assignments = []
entries (t ∷ ts) assignments = elim (lookup t.id assignments) [
  | none ↦ entries ts assignments
  | some w ↦
      record { task_id = t.id; worker_id = w; level = level_or t; estimated_minutes = minutes_or t }
      ∷ entries ts assignments
]

unfoldable pub assign :
    List Task → Bool → WorkerAssignment → Option (List WorkerAssignmentEntry × WorkerAssignment)
assign tasks balance a =
    let level_tasks = group tasks [] in
    let cleared = record a { assignments = []; worker_tasks = []; worker_minutes = [] } in
    place_levels balance (sorted_levels (keys level_tasks)) level_tasks cleared >>= λ a'.
    some (entries tasks a'.assignments, a')

unfoldable pub get_worker_tasks : ℕ → WorkerAssignment → List String
get_worker_tasks worker_id a = get_or (lookup worker_id a.worker_tasks) []

unfoldable pub get_task_worker : String → WorkerAssignment → Option ℕ
get_task_worker task_id a = lookup task_id a.assignments

unfoldable pub get_worker_workload : ℕ → WorkerAssignment → ℕ
get_worker_workload worker_id a = get_or (lookup worker_id a.worker_minutes) 0

pub record Workload : Type 0 where
  pub task_count : ℕ
  pub estimated_minutes : ℕ
  pub tasks : List String

-- The entries for the workers from `w` on.
unfoldable pub summarize : WorkerAssignment → ℕ → ℕ → Dict ℕ Workload
summarize a w zero = []
summarize a w (suc n) =
    let tasks = get_worker_tasks w a in
    (
      w,
      record {
        task_count = length tasks;
        estimated_minutes = get_worker_workload w a;
        tasks = tasks;
      },
    )
    ∷ summarize a (w + 1) n

unfoldable pub get_workload_summary : WorkerAssignment → Dict ℕ Workload
get_workload_summary a = summarize a 0 a.worker_count
