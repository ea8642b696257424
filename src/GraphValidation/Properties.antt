-- ===== src/GraphValidation/Properties.antt =====
-- `validate_graph_properties` of zerg/graph_validation.py.
use zerg.Common.{
  ◌≡◌, ◌≢◌, refl, ap, false, none, some, List, [], ◌∷◌, ◌++◌, String, string_eq, elem, is_empty,
  arith, Bool-cases, inl, inr, is_none,
}
use zerg.GraphValidation.{
  GraphNode, GraphError, GraphWarning, task_ids, task_by_id, check_dependency_references,
  check_orphan_tasks, roots, unreachable_ids, check_unreachable_tasks, check_consumer_references,
  check_consumer_integration_tests,
}
use zerg.GraphValidation.Cycles.{Answer, ran, raised, too_deep, by_level, search_levels}
use zerg.GraphValidation.Depth.{search_levels_returns}
use zerg.GraphValidation.Reached.{reached_lem, unreachable_ids-some}

pub data Validated : Type 0 where
  checked : (errors : List GraphError) (warnings : List GraphWarning) → Validated
  exception : Validated
  out_of_fuel : Validated

-- The checks after the search for cycles within the levels, with the errors so far.
unfoldable pub check_rest :
    (List String → List String) → List GraphNode → List GraphError → Validated
check_rest listed ts errors = elim (check_unreachable_tasks listed ts) [
  | none ↦ out_of_fuel
  | some lost ↦
      checked
        (((errors ++ lost) ++ check_consumer_references ts (task_ids ts))
          ++ check_consumer_integration_tests ts)
        (check_orphan_tasks ts)
]

abbrev pub after_cycles : Answer → (List GraphError → Validated) → Validated
after_cycles (ran found s) rest = rest s.errors
after_cycles raised rest = exception
after_cycles too_deep rest = out_of_fuel

unfoldable pub validate_graph_properties : (List String → List String) → List GraphNode → Validated
validate_graph_properties listed ts =
    after_cycles
      (search_levels (task_by_id ts []) (by_level ts [])
        (check_dependency_references ts (task_ids ts)))
      (check_rest listed ts)

unreachable_ids_returns :
    (listed : List String → List String) (ts : List GraphNode)
    → ((xs : List String) (a : String) → elem a (listed xs) ≡ elem a xs)
    → is_none (unreachable_ids listed ts) ≡ false
unreachable_ids_returns listed [] same = unfold unreachable_ids in refl
unreachable_ids_returns listed (t ∷ ts) same = elim (Bool-cases (is_empty (roots (t ∷ ts)))) [
  | inl e ↦ unfold unreachable_ids in ground arith
  | inr e ↦
      let (visited, found, v) = reached_lem listed same (t ∷ ts) in
      ap (λ o. is_none o) (unreachable_ids-some listed (t ∷ ts) visited e found)
]

check_rest_returns :
    (listed : List String → List String) (ts : List GraphNode) (errors : List GraphError)
    → ((xs : List String) (a : String) → elem a (listed xs) ≡ elem a xs)
    → check_rest listed ts errors ≢ out_of_fuel
unfolding check_rest check_unreachable_tasks
check_rest_returns listed ts errors same = ground (arith, unreachable_ids_returns listed ts same)

after_cycles_returns :
    (a : Answer) (rest : List GraphError → Validated)
    → a ≢ too_deep
    → ((errors : List GraphError) → rest errors ≢ out_of_fuel)
    → after_cycles a rest ≢ out_of_fuel
after_cycles_returns (ran found s) rest h f = f s.errors
after_cycles_returns raised rest h f = λ e. ground (arith, e)
after_cycles_returns too_deep rest h f = absurd (h refl)

-- The check of a whole graph comes to an end, whatever the order in which a set is listed.
pub validate_graph_properties_returns :
    (listed : List String → List String) (ts : List GraphNode)
    → ((xs : List String) (a : String) → elem a (listed xs) ≡ elem a xs)
    → validate_graph_properties listed ts ≢ out_of_fuel
unfolding validate_graph_properties
validate_graph_properties_returns listed ts same =
    after_cycles_returns _ (check_rest listed ts)
      (search_levels_returns (task_by_id ts []) (by_level ts [])
        (check_dependency_references ts (task_ids ts)))
      (λ errors. check_rest_returns listed ts errors same)
