-- ===== src/Validation/Dependencies.antt =====
-- `validate_dependencies` of zerg/validation.py. A set is a list, of which only the members count.
-- The depth-first search runs on fuel, one more than the number of IDs and dependencies, and a
-- search without fuel is `none`.
use zerg.Common.{
  ℕ, zero, suc, Bool, true, false, not, Option, none, some, List, [], ◌∷◌, ◌++◌, String, ◌==◌,
  string_eq, leb, if◌then◌else◌, elem, select, length, ◌>>=◌,
}
use zerg.Common.Dict.{Dict, lookup, insert, keys}
use zerg.Validation.{GraphTask}

pub data DependencyError : Type 0 where
  not_lower : (task_id dep_id : String) (task_level dep_level : ℕ) → DependencyError
  cycle : (task_id dep_id : String) → DependencyError

abbrev pub TaskInfo : Type 0
TaskInfo = Dict String GraphTask

unfoldable pub task_info : List GraphTask → TaskInfo → TaskInfo
task_info [] info = info
task_info (t ∷ ts) info = task_info ts (insert t.id t info)

-- The level check of one task.
unfoldable pub check_levels : TaskInfo → GraphTask → List String → List DependencyError
check_levels info t [] = []
check_levels info t (d ∷ ds) =
    let rest = check_levels info t ds in
    elim (lookup d info) [
      | none ↦ rest
      | some dep ↦ if leb t.level dep.level then not_lower t.id d t.level dep.level ∷ rest else rest
    ]

unfoldable pub level_errors : TaskInfo → List GraphTask → List DependencyError
level_errors info [] = []
level_errors info (t ∷ ts) = check_levels info t t.dependencies ++ level_errors info ts

pub record Search : Type 0 where
  pub visited : List String
  pub rec_stack : List String
  pub errors : List DependencyError

-- `task_info.get(task_id, {}).get("dependencies", [])`
unfoldable pub dependencies_of : TaskInfo → String → List String
dependencies_of info k = elim (lookup k info) [ none ↦ [] | some t ↦ t.dependencies ]

abbrev pub enter : String → Search → Search
enter k s = record s { visited = k ∷ s.visited; rec_stack = k ∷ s.rec_stack }

abbrev pub leave : String → Search → Search
leave k s = record s { rec_stack = select (λ x. not (x == k)) s.rec_stack }

-- The loop of `has_cycle` over the dependencies of `k`, with the recursive call as a parameter.
unfoldable pub visit_deps :
    (String → Search → Option (Bool × Search))
    → String
    → List String
    → Search
    → Option (Bool × Search)
visit_deps visit k [] s = some (false, leave k s)
visit_deps visit k (d ∷ ds) s =
    let descend = visit d s >>= λ r. if r.0 then some (true, r.1) else visit_deps visit k ds r.1 in
    if not (elem d s.visited)
    then descend
    else if elem d s.rec_stack
    then some (true, record s { errors = s.errors ++ cycle k d ∷ [] })
    else visit_deps visit k ds s

unfoldable pub has_cycle : ℕ → TaskInfo → String → Search → Option (Bool × Search)
has_cycle zero info k s = none
has_cycle (suc n) info k s = visit_deps (has_cycle n info) k (dependencies_of info k) (enter k s)

-- The loop over the tasks, which does not look at the answers.
unfoldable pub search_all : ℕ → TaskInfo → List String → Search → Option Search
search_all n info [] s = some s
search_all n info (k ∷ ks) s =
    let searched = has_cycle n info k s >>= λ r. search_all n info ks r.1 in
    if elem k s.visited then search_all n info ks s else searched

-- Every ID that a search can meet: the IDs, and the dependencies of each.
abbrev pub universe : TaskInfo → List String
universe [] = []
universe ((k, t) ∷ info) = k ∷ t.dependencies ++ universe info

unfoldable pub validate_dependencies : List GraphTask → Option (List DependencyError)
validate_dependencies ts =
    let info = task_info ts [] in
    search_all (length (universe info)) info (keys info)
      (record { visited = []; rec_stack = []; errors = level_errors info ts })
    >>= λ s. some s.errors
