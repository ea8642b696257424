-- ===== src/GraphValidation.antt =====
-- zerg/graph_validation.py, over the fields of GraphNodeDict of zerg/types.py that it reads. A set is
-- a list; `listed` is the order in which Python lists a set, which the language leaves open.
pub mod Search
pub mod Reached
pub mod Cycles
pub mod Depth
pub mod Properties
mod Tests
use zerg.Common.{
  ℕ, zero, suc, ◌+◌, Bool, true, false, not, ◌&&◌, ◌||◌, Option, none, some, List, [], ◌∷◌, ◌++◌,
  String, ◌==◌, nat_eq, string_eq, ltb, if◌then◌else◌, get_or, elem, select, is_empty, map, length,
}
use zerg.Common.Dict.{Dict, lookup, insert}
use Prim.Native.String.{compare}
use Prim.Native.Nat.{Ordering}

-- Missing consumers and a None are an empty list.
pub record GraphNode : Type 0 where
  pub id : String
  pub level : ℕ
  pub dependencies : List String
  pub consumers : List String
  pub integration_test : Option String

pub data GraphError : Type 0 where
  unknown_dependency : (task_id dep_id : String) → GraphError
  level_cycle : (level : ℕ) (cycle : List String) → GraphError
  unreachable : (task_id : String) (level : ℕ) → GraphError
  unknown_consumer : (task_id consumer_id : String) → GraphError
  no_integration_test : (task_id : String) (consumers : List String) → GraphError

pub data GraphWarning : Type 0 where
  orphan : (task_id : String) (level : ℕ) → GraphWarning

abbrev pub task_ids : List GraphNode → List String
task_ids = map (λ t. t.id)

-- `{t["id"]: t for t in tasks}`
unfoldable pub task_by_id : List GraphNode → Dict String GraphNode → Dict String GraphNode
task_by_id [] d = d
task_by_id (t ∷ ts) d = task_by_id ts (insert t.id t d)

unfoldable pub check_dependency_references : List GraphNode → List String → List GraphError
check_dependency_references [] ids = []
check_dependency_references (t ∷ ts) ids =
    map (λ d. unknown_dependency t.id d) (select (λ d. not (elem d ids)) t.dependencies)
    ++ check_dependency_references ts ids

-- Every ID that some task depends on.
abbrev pub depended_on : List GraphNode → List String
depended_on [] = []
depended_on (t ∷ ts) = t.dependencies ++ depended_on ts

unfoldable pub orphans_among : List GraphNode → List String → List GraphWarning
orphans_among [] used = []
orphans_among (t ∷ ts) used =
    let rest = orphans_among ts used in
    if ltb t.level 2
    then rest
    else if elem t.id used
    then rest
    else if not (is_empty t.consumers)
    then rest
    else orphan t.id t.level ∷ rest

unfoldable pub check_orphan_tasks : List GraphNode → List GraphWarning
check_orphan_tasks ts = orphans_among ts (depended_on ts)

abbrev pub roots : List GraphNode → List String
roots [] = []
roots (t ∷ ts) = if t.level == 1 then t.id ∷ roots ts else roots ts

-- `feeds_into[dep_id].add(task["id"])` for each dependency.
unfoldable pub add_feeds :
    String → List String → Dict String (List String) → Dict String (List String)
add_feeds k [] d = d
add_feeds k (dep ∷ deps) d =
    let fed = get_or (lookup dep d) [] in
    add_feeds k deps (insert dep (if elem k fed then fed else fed ++ k ∷ []) d)

unfoldable pub feeds_into : List GraphNode → Dict String (List String) → Dict String (List String)
feeds_into [] d = d
feeds_into (t ∷ ts) d = feeds_into ts (add_feeds t.id t.dependencies d)

-- The loop over what the current task feeds into; the end of the queue is the head of the list.
abbrev pub push_new : List String → List String → List String → List String
push_new visited [] queue = queue
push_new visited (k ∷ ks) queue = push_new visited ks (if elem k visited then queue else k ∷ queue)

-- The `while` loop, one round for each unit of fuel.
unfoldable pub visit_all :
    ℕ
    → (List String → List String)
    → Dict String (List String)
    → List String
    → List String
    → Option (List String)
visit_all zero listed feeds [] visited = some visited
visit_all zero listed feeds (k ∷ queue) visited = none
visit_all (suc n) listed feeds [] visited = some visited
visit_all (suc n) listed feeds (k ∷ queue) visited =
    let visited' = k ∷ visited in
    let skip = visit_all n listed feeds queue visited in
    let go =
      visit_all n listed feeds (push_new visited' (listed (get_or (lookup k feeds) [])) queue)
        visited' in
    if elem k visited then skip else go

-- How many places the tasks that are not visited can still put on the queue.
abbrev pub room : (List String → List String) → Dict String (List String) → List String → ℕ
room listed [] visited = 0
room listed ((k, ks) ∷ feeds) visited =
    (if elem k visited then 0 else length (listed ks)) + room listed feeds visited

-- The IDs that the search from the roots visits.
unfoldable pub reached : (List String → List String) → List GraphNode → Option (List String)
reached listed ts =
    let feeds = feeds_into ts [] in
    let queue = listed (roots ts) in
    visit_all (length queue + room listed feeds []) listed feeds queue []

unfoldable pub put_string : String → List String → List String
put_string k [] = k ∷ []
put_string k (j ∷ js) =
    if elim (compare k j) [ Ordering.gt ↦ false | _ ↦ true ]
    then k ∷ j ∷ js
    else j ∷ put_string k js

-- `sorted`, of a set: an ID that stands twice is listed once.
unfoldable pub sorted_set : List String → List String
sorted_set [] = []
sorted_set (k ∷ ks) = if elem k ks then sorted_set ks else put_string k (sorted_set ks)

-- The IDs that are looked up are there.
abbrev pub level_of : Dict String GraphNode → String → ℕ
level_of by_id k = elim (lookup k by_id) [ none ↦ 0 | some t ↦ t.level ]

-- The IDs that are reported, in their order; none is a search that runs out of fuel.
unfoldable pub unreachable_ids : (List String → List String) → List GraphNode → Option (List String)
unreachable_ids listed ts =
    if is_empty ts
    then some []
    else if is_empty (roots ts)
    then some []
    else elim (reached listed ts) [
      | none ↦ none
      | some visited ↦ some (sorted_set (select (λ k. not (elem k visited)) (task_ids ts)))
    ]

unfoldable pub check_unreachable_tasks :
    (List String → List String) → List GraphNode → Option (List GraphError)
check_unreachable_tasks listed ts =
    let by_id = task_by_id ts [] in
    elim (unreachable_ids listed ts) [
      | none ↦ none
      | some ks ↦ some (map (λ k. unreachable k (level_of by_id k)) ks)
    ]

unfoldable pub check_consumer_references : List GraphNode → List String → List GraphError
check_consumer_references [] ids = []
check_consumer_references (t ∷ ts) ids =
    map (λ c. unknown_consumer t.id c) (select (λ c. not (elem c ids)) t.consumers)
    ++ check_consumer_references ts ids

-- `not task.get("integration_test")`
abbrev pub has_no_test : Option String → Bool
has_no_test none = true
has_no_test (some s) = s == ""

unfoldable pub check_consumer_integration_tests : List GraphNode → List GraphError
check_consumer_integration_tests [] = []
check_consumer_integration_tests (t ∷ ts) =
    let rest = check_consumer_integration_tests ts in
    if is_empty t.consumers
    then rest
    else if has_no_test t.integration_test
    then no_integration_test t.id t.consumers ∷ rest
    else rest
