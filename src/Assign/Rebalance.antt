-- ===== src/Assign/Rebalance.antt =====
-- `rebalance` of zerg/assign.py. The set of failed tasks is a list in the order in which Python
-- lists it. An exception (the ValueError of `max` or `remove`, a KeyError) is none.
use zerg.Common.{
  ℕ, zero, suc, ◌+◌, not, ◌&&◌, ◌||◌, Option, none, some, List, [], ◌∷◌, ◌++◌, String, ◌==◌, nat_eq,
  string_eq, if◌then◌else◌, get_or, ◌>>=◌, elem,
}
use zerg.Common.Int.{ℤ, pos, ◌+ℤ◌, ◌-ℤ◌, ltb_ℤ}
use zerg.Common.Dict.{Dict, lookup, insert}
use zerg.Assign.{WorkerAssignment}

-- The placeholder of the source, for every task.
unfoldable pub get_task_minutes : String → ℕ
get_task_minutes task_id = 15

unfoldable pub pending_minutes : List String → List String → List String → ℕ
pending_minutes completed failures [] = 0
pending_minutes completed failures (k ∷ ks) =
    let rest = pending_minutes completed failures ks in
    if elem k completed || elem k failures then rest else get_task_minutes k + rest

-- The capacities of `n` workers from `w` on, of 60 minutes each.
unfoldable pub capacities : List String → List String → WorkerAssignment → ℕ → ℕ → Dict ℕ ℤ
capacities completed failures a w zero = []
capacities completed failures a w (suc n) =
    let tasks = get_or (lookup w a.worker_tasks) [] in
    (w, pos 60 -ℤ pos (pending_minutes completed failures tasks))
    ∷ capacities completed failures a (w + 1) n

abbrev pub capacity_of : ℕ → Dict ℕ ℤ → ℤ
capacity_of w d = get_or (lookup w d) (pos 0)

-- `max(range(n), key=...)`: the first worker with the most capacity.
unfoldable pub scan_most : Dict ℕ ℤ → ℕ → ℕ → ℕ → ℕ
scan_most d w zero best = best
scan_most d w (suc n) best =
    scan_most d (w + 1) n (if ltb_ℤ (capacity_of best d) (capacity_of w d) then w else best)

unfoldable pub most_capacity : ℕ → Dict ℕ ℤ → Option ℕ
most_capacity zero d = none
most_capacity (suc n) d = some (scan_most d 1 n 0)

-- `xs.remove(k)`
unfoldable pub remove : String → List String → Option (List String)
remove k [] = none
remove k (j ∷ js) = let rest = remove k js in if j == k then some js else rest >>= λ r. some (j ∷ r)

pub record Rebalance : Type 0 where
  pub assignment : WorkerAssignment
  pub worker_capacity : Dict ℕ ℤ
  pub reassignments : List (String × (ℕ × ℕ))

-- `worker_capacity[w] += m`
abbrev pub add_capacity : ℕ → ℤ → Dict ℕ ℤ → Option (Dict ℕ ℤ)
add_capacity w m d = lookup w d >>= λ c. some (insert w (c +ℤ m) d)

unfoldable pub move_task : String → ℕ → ℕ → Rebalance → Option Rebalance
move_task task_id old_worker new_worker r =
    let a = r.assignment in
    let minutes = get_task_minutes task_id in
    remove task_id (get_or (lookup old_worker a.worker_tasks) []) >>= λ left.
    let tasks = insert old_worker left a.worker_tasks in
    let tasks' = insert new_worker (get_or (lookup new_worker tasks) [] ++ task_id ∷ []) tasks in
    add_capacity new_worker (pos 0 -ℤ pos minutes) r.worker_capacity >>= λ d.
    add_capacity old_worker (pos minutes) d >>= λ d'. some (record {
      assignment = record a {
        assignments = insert task_id new_worker a.assignments;
        worker_tasks = tasks';
      };
      worker_capacity = d';
      reassignments = r.reassignments ++ (task_id, (old_worker, new_worker)) ∷ [];
    })

unfoldable pub rebalance_task : String → Rebalance → Option Rebalance
rebalance_task task_id r = elim (lookup task_id r.assignment.assignments) [
  | none ↦ some r
  | some old_worker ↦ most_capacity r.assignment.worker_count r.worker_capacity >>= λ new_worker.
      let moved = move_task task_id old_worker new_worker r in
      if not (new_worker == old_worker) && ltb_ℤ (pos 0) (capacity_of new_worker r.worker_capacity)
      then moved
      else some r
]

unfoldable pub rebalance_all : List String → Rebalance → Option Rebalance
rebalance_all [] r = some r
rebalance_all (k ∷ ks) r = rebalance_task k r >>= λ r'. rebalance_all ks r'

unfoldable pub rebalance : List String → List String → WorkerAssignment → Option Rebalance
rebalance completed_tasks failed_tasks a = rebalance_all failed_tasks (record {
  assignment = a;
  worker_capacity = capacities completed_tasks failed_tasks a 0 a.worker_count;
  reassignments = [];
})
