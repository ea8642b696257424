-- ===== src/Parser/Tests.antt =====
-- Runs of zerg/parser.py on a graph of three tasks. The IDs are one letter long, and their code
-- points are those of "A".
use zerg.Common.{
  ℕ, ◌≡◌, refl, true, none, some, ◌≤◌, List, [], ◌∷◌, String, nat_eq, string_eq, is_empty, elem,
  count, one_if,
}
use zerg.Common.Dict.{lookup, insert}
use zerg.Validation.{GraphTask}
use zerg.Validation.TaskId.{validate_task_id}
use zerg.Validation.Ownership.{validate_file_ownership, claim_all, claim_files}
use zerg.Validation.Dependencies.{
  task_info, check_levels, level_errors, dependencies_of, visit_deps, has_cycle, search_all,
  validate_dependencies,
}
use zerg.Parser.{
  task_errors, unknown_errors, validate_task_graph, add_dependents, index, cleared, parsed,
  parse_dict, get_dependencies, get_dependents, are_dependencies_complete, ready_among,
  get_ready_tasks,
}
use zerg.Parser.Sort.{
  put_in_order, sort_queue, in_degrees, relax, take_task, sort_loop, sorted, cycle_detected,
  start_round, topological_sort,
}
use zerg.Common.Int.{◌-ℤ◌}
use zerg.Parser.Kahn.{in_order}
use zerg.Parser.Sorted.{topological_sort_lem}
use zerg.Parser.Critical.{
  start_table, end_minutes, relax_dep, relax_deps, relax_order, latest_end, follow, path,
  get_critical_path,
}
use zerg.Parser.Chain.{IsChain, total_minutes}
use zerg.Parser.CriticalPath.{get_critical_path_longest}
use zerg.Parser.Ready.{get_ready_tasks_progress}

abbrev code_points : String → List ℕ
code_points s = 65 ∷ []

abbrev task : String → ℕ → List String → GraphTask
task id level deps = record {
  id = id;
  level = level;
  dependencies = deps;
  create = [];
  modify = [];
  read = [];
  estimate_minutes = none;
}

abbrev graph : List GraphTask
graph = task "C" 3 ("A" ∷ "B" ∷ []) ∷ task "B" 2 ("A" ∷ []) ∷ task "A" 1 [] ∷ []

graph_accepted : parse_dict code_points graph ≡ parsed (index graph cleared)
unfolding parse_dict validate_task_graph task_errors unknown_errors validate_task_id
    validate_file_ownership claim_all claim_files validate_dependencies task_info level_errors
    check_levels search_all has_cycle visit_deps dependencies_of lookup insert
graph_accepted = refl

graph_sorted : topological_sort (index graph cleared) ≡ sorted ("A" ∷ "B" ∷ "C" ∷ [])
unfolding topological_sort start_round in_degrees sort_loop take_task relax sort_queue put_in_order
    get_dependents index add_dependents lookup insert ◌-ℤ◌
graph_sorted = refl

-- Two tasks that depend on each other, and one that does not, sorted without the checks.
abbrev tangled : List GraphTask
tangled = task "A" 1 ("B" ∷ []) ∷ task "B" 1 ("A" ∷ []) ∷ task "C" 1 [] ∷ []

tangled_refused : topological_sort (index tangled cleared) ≡ cycle_detected ("A" ∷ "B" ∷ [])
unfolding topological_sort start_round in_degrees sort_loop take_task relax sort_queue put_in_order
    get_dependents index add_dependents lookup insert ◌-ℤ◌
tangled_refused = refl

first_ready : get_ready_tasks [] [] (index graph cleared) ≡ task "A" 1 [] ∷ []
unfolding get_ready_tasks ready_among are_dependencies_complete get_dependencies index
    add_dependents lookup insert
first_ready = refl

topological_sort_lem_example :
    (order : List String) × (topological_sort (index graph cleared) ≡ sorted order)
    × ((a : String) → count a order ≡ one_if (elem a ("C" ∷ "B" ∷ "A" ∷ [])))
    × (in_order graph [] order ≡ true)
topological_sort_lem_example =
    topological_sort_lem code_points graph (index graph cleared) graph_accepted

abbrev all_done : List String
all_done = "A" ∷ "C" ∷ "B" ∷ []

nothing_ready : is_empty (get_ready_tasks all_done [] (index graph cleared)) ≡ true
unfolding get_ready_tasks ready_among are_dependencies_complete get_dependencies index
    add_dependents lookup insert
nothing_ready = refl

get_ready_tasks_progress_example : elem {A = String} "B" all_done ≡ true
get_ready_tasks_progress_example =
    get_ready_tasks_progress code_points graph (index graph cleared) all_done "B" graph_accepted
      nothing_ready refl

abbrev timed : String → ℕ → List String → ℕ → GraphTask
timed id level deps minutes = record (task id level deps) { estimate_minutes = some minutes }

-- "D" needs "B" and "C", of which "C" takes longer; "E" takes longer than each, and stands alone.
abbrev timed_graph : List GraphTask
timed_graph =
    timed "D" 3 ("B" ∷ "C" ∷ []) 4
    ∷ timed "C" 2 ("A" ∷ []) 9
    ∷ timed "B" 2 ("A" ∷ []) 7
    ∷ timed "A" 1 [] 5
    ∷ timed "E" 1 [] 12
    ∷ []

timed_accepted : parse_dict code_points timed_graph ≡ parsed (index timed_graph cleared)
unfolding parse_dict validate_task_graph task_errors unknown_errors validate_task_id
    validate_file_ownership claim_all claim_files validate_dependencies task_info level_errors
    check_levels search_all has_cycle visit_deps dependencies_of lookup insert
timed_accepted = refl

timed_path : get_critical_path none (index timed_graph cleared) ≡ path ("A" ∷ "C" ∷ "D" ∷ [])
unfolding get_critical_path relax_order relax_deps relax_dep end_minutes start_table latest_end
    follow topological_sort start_round in_degrees sort_loop take_task relax sort_queue put_in_order
    get_dependents index add_dependents lookup insert ◌-ℤ◌
timed_path = refl

other-IsChain : IsChain timed_graph ("A" ∷ "B" ∷ "D" ∷ [])
unfolding IsChain
other-IsChain = (refl, (refl, refl))

get_critical_path_longest_example :
    let p = index timed_graph cleared in
    (found : List String) × (get_critical_path none p ≡ path found)
    × IsChain timed_graph found
    × (total_minutes p ("A" ∷ "B" ∷ "D" ∷ []) ≤ total_minutes p found)
get_critical_path_longest_example =
    get_critical_path_longest code_points timed_graph (index timed_graph cleared)
      ("A" ∷ "B" ∷ "D" ∷ []) timed_accepted refl other-IsChain
