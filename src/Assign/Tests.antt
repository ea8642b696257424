-- ===== src/Assign/Tests.antt =====
-- Runs of zerg/assign.py: four tasks of one level and one of the next, for two workers.
use zerg.Common.{
  ℕ, ◌+◌, ◌≤◌, ◌≡◌, refl, true, Option, none, some, List, [], ◌∷◌, String, nat_eq, string_eq, arith,
  map, ◌>>=◌,
}
use zerg.Common.Dict.{Dict, lookup, insert}
use zerg.Assign.{
  Task, WorkerAssignment, minutes_of, add_minutes, put_longest, longest_first, scan, least_loaded,
  place, place_all, group, put_level, sorted_levels, place_levels, entries, assign,
}
use zerg.Common.Int.{pos, ◌+ℤ◌, ◌-ℤ◌}
use zerg.Assign.Rebalance.{
  rebalance, rebalance_all, rebalance_task, most_capacity, scan_most, capacities, pending_minutes,
  get_task_minutes, move_task, remove,
}
use zerg.Assign.Balance.{total, estimated, place_all_balance, place_all_total}

abbrev task : String → ℕ → Option ℕ → Task
task id level minutes = record { id = id; level = some level; estimate_minutes = minutes }

abbrev level_one : List Task
level_one =
    task "A" 1 (some 10) ∷ task "B" 1 (some 40) ∷ task "C" 1 none ∷ task "D" 1 (some 20) ∷ []

abbrev two_workers : WorkerAssignment
two_workers = record { worker_count = 2; assignments = []; worker_tasks = []; worker_minutes = [] }

abbrev placed : WorkerAssignment
placed = record {
  worker_count = 2;
  assignments = ("B", 0) ∷ ("D", 1) ∷ ("C", 1) ∷ ("A", 1) ∷ [];
  worker_tasks = (0, "B" ∷ []) ∷ (1, "D" ∷ "C" ∷ "A" ∷ []) ∷ [];
  worker_minutes = (0, 40) ∷ (1, 45) ∷ [];
}

abbrev minutes : Dict ℕ ℕ
minutes = (0, 40) ∷ (1, 45) ∷ []

places_longest_first :
    place_all true (longest_first level_one) two_workers [] ≡ some (placed, minutes)
unfolding place_all place least_loaded scan add_minutes minutes_of longest_first put_longest lookup
    insert
places_longest_first = refl

assigns_by_level :
    (assign (task "E" 2 (some 5) ∷ level_one) true two_workers >>= λ r.
    some (map {B = String × ℕ} (λ e. (e.task_id, e.worker_id)) r.0))
    ≡ some (("E", 0) ∷ ("A", 1) ∷ ("B", 0) ∷ ("C", 1) ∷ ("D", 1) ∷ [])
unfolding assign group sorted_levels put_level place_levels entries place_all place least_loaded
    scan add_minutes minutes_of longest_first put_longest lookup insert
assigns_by_level = refl

place_all_balance_example : minutes_of 1 minutes ≤ minutes_of 0 minutes + 40
unfolding longest_first put_longest
place_all_balance_example =
    place_all_balance (longest_first level_one) two_workers placed minutes 40 1 0
      places_longest_first (omega arith, (omega arith, (omega arith, (omega arith, tt))))
      (omega arith) (omega arith)

place_all_total_example :
    total placed.worker_minutes
    ≡ total two_workers.worker_minutes + estimated (longest_first level_one)
place_all_total_example =
    place_all_total true (longest_first level_one) two_workers placed [] minutes
      places_longest_first

-- B failed, and both workers have room for 60 minutes: the first of them is B's own, and B stays.
rebalanced :
    rebalance ("D" ∷ "C" ∷ "A" ∷ []) ("B" ∷ []) placed
    ≡ some (record {
      assignment = record placed { assignments = ("B", 0) ∷ ("D", 1) ∷ ("C", 1) ∷ ("A", 1) ∷ [] };
      worker_capacity = (0, pos 60) ∷ (1, pos 60) ∷ [];
      reassignments = [];
    })
unfolding rebalance rebalance_all rebalance_task most_capacity scan_most capacities pending_minutes
    get_task_minutes move_task remove lookup insert ◌+ℤ◌ ◌-ℤ◌
rebalanced = refl

-- D failed and C and A wait: D moves to the worker with more room.
moved :
    rebalance [] ("D" ∷ []) placed
    ≡ some (record {
      assignment = record placed {
        assignments = ("B", 0) ∷ ("D", 0) ∷ ("C", 1) ∷ ("A", 1) ∷ [];
        worker_tasks = (0, "B" ∷ "D" ∷ []) ∷ (1, "C" ∷ "A" ∷ []) ∷ [];
      };
      worker_capacity = (0, pos 30) ∷ (1, pos 45) ∷ [];
      reassignments = ("D", (1, 0)) ∷ [];
    })
unfolding rebalance rebalance_all rebalance_task most_capacity scan_most capacities pending_minutes
    get_task_minutes move_task remove lookup insert ◌+ℤ◌ ◌-ℤ◌
moved = refl
