-- ===== src/Parser/CriticalPath.antt =====
-- The answer of `get_critical_path` of zerg/parser.py.
use zerg.Common.{
  ℕ, ◌≤◌, ◌≡◌, ◌∙◌, ap, sym, subst, true, false, none, some, List, [], ◌∷◌, String, string_eq,
  nat_eq, elem, count, one_if, elem-count, arith, beq_refl, inl, inr,
}
use zerg.Validation.{GraphTask}
use zerg.Parser.Chain.{IsChain, total_minutes, path_of-IsLongestChain}
use zerg.Parser.{TaskParser, parsed, parse_dict, validate_task_graph}
use zerg.Parser.Index.{ids}
use zerg.Parser.Kahn.{in_order}
use zerg.Parser.Accepted.{IsAccepted, parse_dict-IsAccepted}
use zerg.Parser.Sort.{sorted, topological_sort}
use zerg.Parser.Sorted.{topological_sort_lem, list_cases}
use zerg.Parser.Critical.{
  Table, relax_order, start_table, path, path_of, after_sort, get_critical_path,
}
use zerg.Parser.Settled.{graph, relax_order-IsLongest, start_table-IsLongest}

abbrev HasLongest : List GraphTask → TaskParser → Type 0
HasLongest ts p =
    (found : List String) × (get_critical_path none p ≡ path found)
    × IsChain ts found
    × ((other : List String) → IsChain ts other → total_minutes p other ≤ total_minutes p found)

critical-of_tables :
    (p : TaskParser) (order found : List String) (s : Table) (k : String) (ks : List String)
    → topological_sort p ≡ sorted order
    → relax_order p order (start_table p) ≡ some s
    → order ≡ k ∷ ks
    → path_of p (k ∷ ks) (some s) ≡ path found
    → get_critical_path none p ≡ path found
unfolding get_critical_path
critical-of_tables p order found s k ks e r q g =
    ap (after_sort p) e ∙ ap (path_of p order) r ∙ ap (λ js. path_of p js (some s)) q ∙ g

critical-of_order :
    (ts : List GraphTask) (w : IsAccepted ts) (order : List String) (k₀ : String)
    → topological_sort (graph ts w) ≡ sorted order
    → ((a : String) → count a order ≡ one_if (elem a (ids ts)))
    → in_order ts [] order ≡ true
    → elem "" (ids ts) ≡ false
    → elem k₀ (ids ts) ≡ true
    → HasLongest ts (graph ts w)
critical-of_order ts w order k₀ e once o b m =
    let known : (k : String) → elem k order ≡ elem k (ids ts) =
      λ k. ground (arith, once k, elem-count k order) in
    let (s, r, v) =
      relax_order-IsLongest ts w order [] (start_table (graph ts w)) (start_table-IsLongest ts w) o
        (λ a. ground (arith, once a)) (λ a m. sym (known a) ∙ m) in
    elim (list_cases order) [
      | inl q ↦
          let gone : elem k₀ [] ≡ true = ap (λ js. elem k₀ js) (sym q) ∙ known k₀ ∙ m in
          absurd (ground (arith, gone))
      | inr (k, ks, q) ↦
          let (found, g, best) = path_of-IsLongestChain ts w order s v known k ks q b o in
          (found, critical-of_tables (graph ts w) order found s k ks e r q g, best.0, best.1)
    ]

-- A graph that is accepted has a task.
some_task :
    (code_points : String → List ℕ) (ts : List GraphTask) (p : TaskParser)
    → parse_dict code_points ts ≡ parsed p
    → (k : String) × (elem k (ids ts) ≡ true)
unfolding parse_dict validate_task_graph
some_task code_points [] p e = absurd (ground arith)
some_task code_points (t ∷ ts) p e = (t.id, ground (arith, beq_refl t.id))

-- On a task graph that `parse_dict` accepts, where no task has an empty ID and the graph names no
-- path itself, the critical path is found: it is a chain of tasks of the graph, each a dependency of
-- the next one, and no such chain has more estimated minutes.
pub get_critical_path_longest :
    (code_points : String → List ℕ) (ts : List GraphTask) (p : TaskParser) (other : List String)
    → parse_dict code_points ts ≡ parsed p
    → elem "" (ids ts) ≡ false
    → IsChain ts other
    → (found : List String) × (get_critical_path none p ≡ path found)
      × IsChain ts found
      × (total_minutes p other ≤ total_minutes p found)
get_critical_path_longest code_points ts p other e b chain =
    let (same, w) = parse_dict-IsAccepted code_points ts p e in
    let (order, sort_eq, once, o) = topological_sort_lem code_points ts p e in
    let (k, m) = some_task code_points ts p e in
    let (found, g, c, most) =
      subst (HasLongest ts) same
        (critical-of_order ts w order k (ap topological_sort same ∙ sort_eq) once o b m) in
    (found, g, c, most other chain)
