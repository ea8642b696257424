-- ===== src/GraphValidation/Cycles.antt =====
-- `_dfs_cycle` and `_check_intra_level_cycles` of zerg/graph_validation.py. The depth of the
-- recursion is the fuel; an exception (KeyError, ValueError) is the answer `raised`.
use zerg.Common.{
  ℕ, zero, suc, Bool, true, false, Option, none, some, List, [], ◌∷◌, ◌++◌, String, ◌==◌, nat_eq,
  string_eq, if◌then◌else◌, get_or, elem, select, length,
}
use zerg.Common.Dict.{Dict, lookup, insert}
use zerg.GraphValidation.{GraphNode, GraphError, level_cycle}

pub data Color : Type 0 where
  white gray black : Color

abbrev pub is_white : Color → Bool
is_white white = true
is_white c = false

pub record Dfs : Type 0 where
  pub path : List String
  pub color : Dict String Color
  pub errors : List GraphError

pub data Answer : Type 0 where
  ran : (found : Bool) (s : Dfs) → Answer
  raised : Answer
  too_deep : Answer

-- `path[path.index(k):]`
abbrev pub from_first : String → List String → List String
from_first k [] = []
from_first k (j ∷ js) = if j == k then j ∷ js else from_first k js

-- `path.pop()`
abbrev pub drop_last : List String → List String
drop_last [] = []
drop_last (k ∷ []) = []
drop_last (k ∷ j ∷ js) = k ∷ drop_last (j ∷ js)

-- The three branches for a neighbor; one with no color is a KeyError.
abbrev pub by_color : Option Color → Answer → Answer → Answer → Answer
by_color none close descend skip = raised
by_color (some gray) close descend skip = close
by_color (some white) close descend skip = descend
by_color (some black) close descend skip = skip

-- The rest of the loop after a recursive call, which a cycle ends.
abbrev pub unless_found : Answer → (Dfs → Answer) → Answer
unless_found (ran true s) rest = ran true s
unless_found (ran false s) rest = rest s
unless_found raised rest = raised
unless_found too_deep rest = too_deep

-- `path.index` raises a ValueError where the neighbor is not on the path.
abbrev pub close_cycle : ℕ → String → Dfs → Answer
close_cycle level n s =
    if elem n s.path
    then ran true (record s { errors = s.errors ++ level_cycle level (from_first n s.path) ∷ [] })
    else raised

-- The loop over the neighbors, with the recursive call as a parameter, and the end of the call.
unfoldable pub visit_neighbors : (String → Dfs → Answer) → ℕ → String → List String → Dfs → Answer
visit_neighbors visit level node [] s =
    ran false (record s { path = drop_last s.path; color = insert node black s.color })
visit_neighbors visit level node (n ∷ ns) s =
    by_color (lookup n s.color) (close_cycle level n s)
      (unless_found (visit n s) (visit_neighbors visit level node ns))
      (visit_neighbors visit level node ns s)

-- `adj[node]`, or a KeyError.
abbrev pub for_neighbors : Option (List String) → (List String → Answer) → Answer
for_neighbors none f = raised
for_neighbors (some ns) f = f ns

unfoldable pub dfs_cycle : ℕ → Dict String (List String) → ℕ → String → Dfs → Answer
dfs_cycle zero adj level node s = too_deep
dfs_cycle (suc n) adj level node s = for_neighbors (lookup node adj) (λ ns.
    visit_neighbors (dfs_cycle n adj level) level node ns
      (record s { path = s.path ++ node ∷ []; color = insert node gray s.color }))

-- `levels[task["level"]].append(task["id"])` for each task.
unfoldable pub by_level : List GraphNode → Dict ℕ (List String) → Dict ℕ (List String)
by_level [] d = d
by_level (t ∷ ts) d = by_level ts (insert t.level (get_or (lookup t.level d) [] ++ t.id ∷ []) d)

-- `dict.fromkeys(ids, v)`
unfoldable pub from_keys {ℓ} : {V : Type ℓ} → List String → V → Dict String V → Dict String V
from_keys [] v d = d
from_keys (k ∷ ks) v d = from_keys ks v (insert k v d)

-- The dependencies of the same level, for each ID of the level.
unfoldable pub level_adj :
    Dict String GraphNode
    → List String
    → List String
    → Dict String (List String)
    → Dict String (List String)
level_adj tasks ids [] adj = adj
level_adj tasks ids (k ∷ ks) adj =
    let deps : List String = elim (lookup k tasks) [ none ↦ [] | some t ↦ t.dependencies ] in
    level_adj tasks ids ks
      (insert k (get_or (lookup k adj) [] ++ select (λ d. elem d ids) deps) adj)

abbrev pub on_errors : Answer → (List GraphError → Dict String Color → Answer) → Answer
on_errors (ran found s) f = f s.errors s.color
on_errors raised f = raised
on_errors too_deep f = too_deep

-- The loop over the IDs of one level; each search starts on an empty path.
unfoldable pub search_level :
    ℕ → Dict String (List String) → ℕ → List String → List GraphError → Dict String Color → Answer
search_level n adj level [] errors color =
    ran false (record { path = []; color = color; errors = errors })
search_level n adj level (k ∷ ks) errors color =
    let skip = search_level n adj level ks errors color in
    let start = dfs_cycle n adj level k (record { path = []; color = color; errors = errors }) in
    let go = on_errors start (search_level n adj level ks) in
    if elim (lookup k color) [ none ↦ false | some c ↦ is_white c ] then go else skip

unfoldable pub search_levels :
    Dict String GraphNode → Dict ℕ (List String) → List GraphError → Answer
search_levels tasks [] errors = ran false (record { path = []; color = []; errors = errors })
search_levels tasks ((level, ids) ∷ levels) errors =
    let adj = level_adj tasks ids ids (from_keys ids [] []) in
    on_errors (search_level (length ids) adj level ids errors (from_keys ids white []))
      (λ errors' color. search_levels tasks levels errors')
