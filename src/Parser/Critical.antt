-- ===== src/Parser/Critical.antt =====
-- `get_critical_path` of zerg/parser.py. A missing key is none; the path is followed back on fuel,
-- one step for each task.
use zerg.Common.{
  ℕ, zero, suc, ◌+◌, Option, none, some, List, [], ◌∷◌, String, ◌==◌, string_eq, nat_eq, ltb,
  if◌then◌else◌, get_or, length, map,
}
use zerg.Common.Dict.{Dict, lookup, insert}
use zerg.Validation.{GraphTask}
use zerg.Parser.{TaskParser}
use zerg.Parser.Sort.{SortResult, sorted, cycle_detected, out_of_fuel, topological_sort}

-- `dist` and `pred`.
pub record Table : Type 0 where
  pub dist : Dict String ℕ
  pub pred : Dict String (Option String)

-- `task.get("estimate_minutes", 0)`
abbrev pub minutes_of : GraphTask → ℕ
minutes_of t = get_or t.estimate_minutes 0

-- `dist[tid] + self._tasks[tid].get("estimate_minutes", 0)`
unfoldable pub end_minutes : TaskParser → Table → String → Option ℕ
end_minutes p s k = elim (lookup k s.dist) [
  | none ↦ none
  | some x ↦ elim (lookup k p.tasks) [ none ↦ none | some t ↦ some (x + minutes_of t) ]
]

abbrev pub improve : String → String → Table → Option ℕ → Option ℕ → Option Table
improve task_id dep s (some dep_dist) (some old) =
    if ltb old dep_dist
    then some
        (record { dist = insert task_id dep_dist s.dist; pred = insert task_id (some dep) s.pred })
    else some s
improve task_id dep s none old = none
improve task_id dep s (some dep_dist) none = none

unfoldable pub relax_dep : TaskParser → String → String → Table → Option Table
relax_dep p task_id dep s = improve task_id dep s (end_minutes p s dep) (lookup task_id s.dist)

-- The loop over the dependencies of a task.
unfoldable pub relax_deps : TaskParser → String → List String → Table → Option Table
relax_deps p task_id [] s = some s
relax_deps p task_id (dep ∷ deps) s = elim (relax_dep p task_id dep s) [
  | none ↦ none
  | some s' ↦ relax_deps p task_id deps s'
]

-- The loop over the sorted tasks.
unfoldable pub relax_order : TaskParser → List String → Table → Option Table
relax_order p [] s = some s
relax_order p (k ∷ ks) s = elim (relax_deps p k (get_or (lookup k p.dependencies) []) s) [
  | none ↦ none
  | some s' ↦ relax_order p ks s'
]

unfoldable pub start_table : TaskParser → Table
start_table p = record { dist = map (λ e. (e.0, 0)) p.tasks; pred = map (λ e. (e.0, none)) p.tasks }

-- The rest of `max`: the first of the greatest.
abbrev pub better : String → String → Option ℕ → Option ℕ → Option String
better best k (some m) (some n) = some (if ltb m n then k else best)
better best k none n = none
better best k (some m) none = none

unfoldable pub latest_end : TaskParser → Table → String → List String → Option String
latest_end p s best [] = some best
latest_end p s best (k ∷ ks) = elim (better best k (end_minutes p s best) (end_minutes p s k)) [
  | none ↦ none
  | some next ↦ latest_end p s next ks
]

pub data CriticalPath : Type 0 where
  path : List String → CriticalPath
  cycle : (remaining : List String) → CriticalPath
  no_task : CriticalPath
  missing_key : CriticalPath
  out_of_steps : CriticalPath

-- The `while` loop, from the value of `pred`.
unfoldable pub follow : ℕ → Table → Option (Option String) → List String → CriticalPath
follow n s none found = missing_key
follow n s (some none) found = path found
follow zero s (some (some k)) found = if k == "" then path found else out_of_steps
follow (suc n) s (some (some k)) found =
    let rest = follow n s (lookup k s.pred) (k ∷ found) in if k == "" then path found else rest

abbrev pub path_from : ℕ → Table → Option String → CriticalPath
path_from n s none = missing_key
path_from n s (some k) = follow n s (lookup k s.pred) (k ∷ [])

abbrev pub path_of : TaskParser → List String → Option Table → CriticalPath
path_of p [] s = no_task
path_of p (k ∷ ks) none = missing_key
path_of p (k ∷ ks) (some s) = path_from (length (k ∷ ks)) s (latest_end p s k ks)

abbrev pub after_sort : TaskParser → SortResult → CriticalPath
after_sort p (sorted order) = path_of p order (relax_order p order (start_table p))
after_sort p (cycle_detected remaining) = cycle remaining
after_sort p out_of_fuel = out_of_steps

-- The path of the graph itself comes first, where it has one.
unfoldable pub get_critical_path : Option (List String) → TaskParser → CriticalPath
get_critical_path (some given) p = path given
get_critical_path none p = after_sort p (topological_sort p)
