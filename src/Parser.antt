-- ===== src/Parser.antt =====
-- zerg/parser.py: the index of a task graph, the tasks that are ready, and Kahn's algorithm. It
-- stands on zerg/validation.py. The part of the schema check that concerns the fields of GraphTask
-- is here too: the shape of the JSON is given by the types.
pub mod Sort
pub mod Index
pub mod Relax
pub mod Kahn
pub mod Accepted
pub mod Start
pub mod Sorted
pub mod Ready
pub mod Critical
pub mod Longest
pub mod Settled
pub mod Chain
pub mod CriticalPath
mod Tests
use zerg.Common.{
  ℕ, zero, suc, ◌+◌, Bool, true, false, not, ◌&&◌, ◌||◌, Option, none, some, List, [], ◌∷◌, ◌++◌,
  String, ◌==◌, nat_eq, string_eq, ltb, leb, if◌then◌else◌, get_or, elem, all, select, length, map,
  is_empty, foldl, is_none,
}
use zerg.Common.Int.{ℤ, pos, ◌-ℤ◌, eqb_ℤ}
use zerg.Common.Dict.{Dict, lookup, insert, keys, values}
use zerg.Validation.{GraphTask}
use zerg.Validation.TaskId.{TaskIdError, validate_task_id}
use zerg.Validation.Ownership.{FileConflict, validate_file_ownership}
use zerg.Validation.Dependencies.{DependencyError, validate_dependencies}
use Prim.Native.String.{compare}
use Prim.Native.Nat.{Ordering}

pub record TaskParser : Type 0 where
  pub tasks : Dict String GraphTask
  pub dependencies : Dict String (List String)
  pub dependents : Dict String (List String)

pub data SchemaError : Type 0 where
  no_tasks : SchemaError
  invalid_id : (task_id : String) (error : TaskIdError) → SchemaError
  duplicate_id : (task_id : String) → SchemaError
  bad_level : (task_id : String) (level : ℕ) → SchemaError
  unknown_dependency : (task_id dep_id : String) → SchemaError

abbrev pub id_errors : (String → List ℕ) → GraphTask → List String → List SchemaError
id_errors code_points t ids = elim (validate_task_id (code_points t.id) false) [
  | some e ↦ invalid_id t.id e ∷ []
  | none ↦ if elem t.id ids then duplicate_id t.id ∷ [] else []
]

-- `_validate_task` for each task, with the IDs seen before it.
unfoldable pub task_errors : (String → List ℕ) → List GraphTask → List String → List SchemaError
task_errors code_points [] ids = []
task_errors code_points (t ∷ ts) ids =
    id_errors code_points t ids
    ++ (if ltb t.level 1 then bad_level t.id t.level ∷ [] else [])
    ++ task_errors code_points ts (t.id ∷ ids)

abbrev pub unknown_of : String → List String → List String → List SchemaError
unknown_of task_id ids [] = []
unknown_of task_id ids (d ∷ ds) =
    if elem d ids
    then unknown_of task_id ids ds
    else unknown_dependency task_id d ∷ unknown_of task_id ids ds

unfoldable pub unknown_errors : List GraphTask → List String → List SchemaError
unknown_errors [] ids = []
unknown_errors (t ∷ ts) ids = unknown_of t.id ids t.dependencies ++ unknown_errors ts ids

-- `validate_task_graph`, with the code points of a string as a parameter.
unfoldable pub validate_task_graph : (String → List ℕ) → List GraphTask → List SchemaError
validate_task_graph code_points [] = no_tasks ∷ []
validate_task_graph code_points (t ∷ ts) =
    task_errors code_points (t ∷ ts) [] ++ unknown_errors (t ∷ ts) (map (λ u. u.id) (t ∷ ts))

-- The reverse map gains `task_id` under each of its dependencies.
unfoldable pub add_dependents :
    String → List String → Dict String (List String) → Dict String (List String)
add_dependents task_id [] d = d
add_dependents task_id (dep ∷ deps) d =
    add_dependents task_id deps (insert dep (get_or (lookup dep d) [] ++ task_id ∷ []) d)

-- The loop that builds the index.
unfoldable pub index : List GraphTask → TaskParser → TaskParser
index [] p = p
index (t ∷ ts) p = index ts (record {
  tasks = insert t.id t p.tasks;
  dependencies = insert t.id t.dependencies p.dependencies;
  dependents = add_dependents t.id t.dependencies p.dependents;
})

abbrev pub cleared : TaskParser
cleared = record { tasks = []; dependencies = []; dependents = [] }

pub data Parsed : Type 0 where
  parsed : TaskParser → Parsed
  schema : (errors : List SchemaError) → Parsed
  file_ownership : (errors : List FileConflict) → Parsed
  dependency : (errors : List DependencyError) → Parsed
  out_of_fuel : Parsed

unfoldable pub parse_dict : (String → List ℕ) → List GraphTask → Parsed
parse_dict code_points ts =
    let errors = validate_task_graph code_points ts in
    let (owned, conflicts) = validate_file_ownership ts in
    if not (is_empty errors)
    then schema errors
    else if not owned
    then file_ownership conflicts
    else elim (validate_dependencies ts) [
      | none ↦ out_of_fuel
      | some es ↦ if not (is_empty es) then dependency es else parsed (index ts cleared)
    ]

unfoldable pub get_task : String → TaskParser → Option GraphTask
get_task task_id p = lookup task_id p.tasks

unfoldable pub get_all_tasks : TaskParser → List GraphTask
get_all_tasks p = values p.tasks

unfoldable pub total_tasks : TaskParser → ℕ
total_tasks p = length p.tasks

-- The lists of files to create, to modify and to read.
unfoldable pub get_files_for_task : String → TaskParser → List String × (List String × List String)
get_files_for_task task_id p = elim (lookup task_id p.tasks) [
  | none ↦ ([], ([], []))
  | some t ↦ (t.create, (t.modify, t.read))
]

unfoldable pub get_tasks_for_level : ℕ → TaskParser → List GraphTask
get_tasks_for_level level p = select (λ t. t.level == level) (values p.tasks)

unfoldable pub get_dependencies : String → TaskParser → List String
get_dependencies task_id p = get_or (lookup task_id p.dependencies) []

unfoldable pub get_dependents : String → TaskParser → List String
get_dependents task_id p = get_or (lookup task_id p.dependents) []

unfoldable pub are_dependencies_complete : String → List String → TaskParser → Bool
are_dependencies_complete task_id completed_tasks p =
    all (λ d. elem d completed_tasks) (get_dependencies task_id p)

-- The loop of `get_ready_tasks` over the tasks of the parser.
unfoldable pub ready_among :
    Dict String GraphTask → List String → List String → TaskParser → List GraphTask
ready_among [] completed_tasks in_progress p = []
ready_among ((k, t) ∷ tasks) completed_tasks in_progress p =
    let rest = ready_among tasks completed_tasks in_progress p in
    if elem k completed_tasks || elem k in_progress
    then rest
    else if are_dependencies_complete k completed_tasks p
    then t ∷ rest
    else rest

unfoldable pub get_ready_tasks : List String → List String → TaskParser → List GraphTask
get_ready_tasks completed_tasks in_progress p = ready_among p.tasks completed_tasks in_progress p
