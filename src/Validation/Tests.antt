-- ===== src/Validation/Tests.antt =====
-- Runs of zerg/validation.py on a graph of three tasks.
use zerg.Common.{
  ℕ, ◌≡◌, refl, false, not, ◌&&◌, none, some, List, [], ◌∷◌, String, nat_eq, string_eq, leb, length,
  if◌then◌else◌, is_empty,
}
use zerg.Common.Dict.{lookup, insert}
use zerg.Validation.{GraphTask}
use zerg.Validation.TaskId.{
  validate_task_id, sanitize_task_id, too_long, first_is, is_alpha, sanitize_task_id_valid,
}
use zerg.Validation.Ownership.{
  validate_file_ownership, claim_all, claim_files, conflict, no_repeat, validate_file_ownership_lem,
}
use zerg.Validation.Dependencies.{
  DependencyError, task_info, check_levels, level_errors, dependencies_of, visit_deps, has_cycle,
  search_all, validate_dependencies, not_lower, cycle,
}
use zerg.Validation.Layered.{all_layered}
use zerg.Validation.Acyclic.{validate_dependencies_lem, DependsOn, validate_dependencies_acyclic}

abbrev task : String → ℕ → List String → List String → GraphTask
task id level deps files = record {
  id = id;
  level = level;
  dependencies = deps;
  create = files;
  modify = [];
  read = [];
  estimate_minutes = none;
}

abbrev graph : List GraphTask
graph =
    task "A" 1 [] ("a.py" ∷ [])
    ∷ task "B" 2 ("A" ∷ []) ("b.py" ∷ [])
    ∷ task "C" 3 ("A" ∷ "B" ∷ []) ("c.py" ∷ [])
    ∷ []

-- Two tasks at one level that depend on each other and create the same file.
abbrev tangled : List GraphTask
tangled = task "A" 1 ("B" ∷ []) ("a.py" ∷ []) ∷ task "B" 1 ("A" ∷ []) ("a.py" ∷ []) ∷ []

graph_accepted : validate_dependencies graph ≡ some []
unfolding validate_dependencies task_info level_errors check_levels search_all has_cycle visit_deps
    dependencies_of lookup insert
graph_accepted = refl

tangled_refused :
    validate_dependencies tangled
    ≡ some (not_lower "A" "B" 1 1 ∷ not_lower "B" "A" 1 1 ∷ cycle "B" "A" ∷ [])
unfolding validate_dependencies task_info level_errors check_levels search_all has_cycle visit_deps
    dependencies_of lookup insert
tangled_refused = refl

tangled_files : (validate_file_ownership tangled) ≡ (false, conflict "a.py" "A" "B" ∷ [])
unfolding validate_file_ownership claim_all claim_files lookup insert
tangled_files = refl

-- One task that creates and modifies a file, and two tasks of different levels that have one file:
-- the check refuses both, though the docs make a file exclusive among the tasks of one level.
abbrev own_repeat : List GraphTask
own_repeat = record (task "A" 1 [] ("a.py" ∷ [])) { modify = "a.py" ∷ [] } ∷ []

abbrev across_levels : List GraphTask
across_levels = task "A" 1 [] ("a.py" ∷ []) ∷ task "B" 2 ("A" ∷ []) ("a.py" ∷ []) ∷ []

own_repeat_refused : validate_file_ownership own_repeat ≡ (false, conflict "a.py" "A" "A" ∷ [])
unfolding validate_file_ownership claim_all claim_files lookup insert
own_repeat_refused = refl

across_levels_refused :
    validate_file_ownership across_levels ≡ (false, conflict "a.py" "A" "B" ∷ [])
unfolding validate_file_ownership claim_all claim_files lookup insert
across_levels_refused = refl

validate_file_ownership_lem_example :
    (validate_file_ownership tangled).0 ≡ no_repeat ("a.py" ∷ "a.py" ∷ [])
validate_file_ownership_lem_example = validate_file_ownership_lem tangled

validate_dependencies_lem_example :
    (errors : List DependencyError) × (validate_dependencies tangled ≡ some errors)
    × (is_empty errors ≡ all_layered (task_info tangled []) tangled)
validate_dependencies_lem_example = validate_dependencies_lem tangled

validate_dependencies_acyclic_example : ¬ DependsOn (task_info graph []) "C" "C"
validate_dependencies_acyclic_example = validate_dependencies_acyclic graph "C" graph_accepted

-- "7a" becomes "T7a".
abbrev raw_id : List ℕ
raw_id = 55 ∷ 97 ∷ []

sanitize_task_id_valid_example : validate_task_id (sanitize_task_id raw_id) false ≡ (
    if leb 64 (length raw_id) && not (first_is is_alpha raw_id) then some (too_long 65) else none)
sanitize_task_id_valid_example = sanitize_task_id_valid raw_id
