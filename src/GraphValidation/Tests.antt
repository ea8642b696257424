-- ===== src/GraphValidation/Tests.antt =====
-- Runs of zerg/graph_validation.py: "B" hangs on a root, "X" and "Y" only on each other.
use zerg.Common.{
  ℕ, ◌≡◌, ◌⊎◌, refl, true, false, none, some, List, [], ◌∷◌, String, string_eq, nat_eq, elem,
}
use zerg.Common.Dict.{lookup, insert}
use zerg.GraphValidation.{
  GraphNode, task_by_id, add_feeds, feeds_into, visit_all, reached, put_string, sorted_set,
  unreachable_ids, check_unreachable_tasks, unreachable, check_orphan_tasks, orphans_among, orphan,
  level_cycle, check_dependency_references, check_consumer_references,
  check_consumer_integration_tests,
}
use zerg.GraphValidation.Cycles.{
  by_level, search_levels, search_level, level_adj, from_keys, dfs_cycle, visit_neighbors,
}
use zerg.GraphValidation.Properties.{validate_graph_properties, check_rest, checked, exception}
use zerg.GraphValidation.Reached.{Reaches, unreachable_ids_lem}

abbrev node : String → ℕ → List String → GraphNode
node id level deps = record {
  id = id;
  level = level;
  dependencies = deps;
  consumers = [];
  integration_test = none;
}

abbrev graph : List GraphNode
graph = node "Y" 3 ("X" ∷ []) ∷ node "A" 1 [] ∷ node "B" 2 ("A" ∷ []) ∷ node "X" 2 ("Y" ∷ []) ∷ []

graph_errors :
    check_unreachable_tasks (λ xs. xs) graph ≡ some (unreachable "X" 2 ∷ unreachable "Y" 3 ∷ [])
unfolding check_unreachable_tasks unreachable_ids reached visit_all feeds_into add_feeds task_by_id
    lookup insert put_string sorted_set
graph_errors = refl

graph_orphans : check_orphan_tasks graph ≡ orphan "B" 2 ∷ []
unfolding check_orphan_tasks orphans_among
graph_orphans = refl

unreachable_ids_lem_example :
    (ks : List String) × (unreachable_ids (λ xs. xs) graph ≡ some ks)
    × (((elem {A = String} "X" ks ≡ true) × (¬ Reaches graph "X"))
        ⊎ ((elem {A = String} "X" ks ≡ false) × Reaches graph "X"))
unreachable_ids_lem_example = unreachable_ids_lem (λ xs. xs) graph "X" (λ xs a. refl) refl refl

-- "A" and "B" are a cycle at level 1, and "C" of the same level depends on it: the second search meets
-- a task that the first left gray, which is not on its path.
abbrev tangled : List GraphNode
tangled = node "A" 1 ("B" ∷ []) ∷ node "B" 1 ("A" ∷ []) ∷ node "C" 1 ("A" ∷ []) ∷ []

tangled_raises : validate_graph_properties (λ xs. xs) tangled ≡ exception
unfolding validate_graph_properties check_dependency_references task_by_id by_level search_levels
    search_level level_adj from_keys dfs_cycle visit_neighbors lookup insert
tangled_raises = refl

abbrev pair : List GraphNode
pair = node "A" 1 ("B" ∷ []) ∷ node "B" 1 ("A" ∷ []) ∷ []

pair_errors :
    validate_graph_properties (λ xs. xs) pair ≡ checked (level_cycle 1 ("A" ∷ "B" ∷ []) ∷ []) []
unfolding validate_graph_properties check_dependency_references task_by_id by_level search_levels
    search_level level_adj from_keys dfs_cycle visit_neighbors lookup insert check_rest
    check_unreachable_tasks unreachable_ids reached visit_all feeds_into add_feeds put_string
    sorted_set check_orphan_tasks orphans_among check_consumer_references
    check_consumer_integration_tests
pair_errors = refl
