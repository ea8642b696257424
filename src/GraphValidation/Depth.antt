-- ===== src/GraphValidation/Depth.antt =====
-- The depth of the recursion of `_dfs_cycle` of zerg/graph_validation.py.
use zerg.Common.{
  ℕ, zero, suc, ◌+◌, ◌-◌, ◌≤◌, ◌≡◌, ◌≢◌, refl, true, false, Option, none, some, List, [], ◌∷◌, ◌++◌,
  String, nat_eq, string_eq, elem, length, arith, Option-cases, Bool-cases, inl, inr,
}
use zerg.Common.Dict.{
  Dict, lookup, insert, count_values, count_values-insert, count_values-insert_new,
}
use zerg.GraphValidation.{GraphNode, GraphError}
use zerg.GraphValidation.Cycles.{
  Color, white, gray, black, is_white, Dfs, Answer, ran, raised, too_deep, by_color, unless_found,
  close_cycle, for_neighbors, visit_neighbors, dfs_cycle, from_keys, level_adj, on_errors,
  search_level, search_levels,
}

abbrev whites : Dict String Color → ℕ
whites = count_values is_white

-- The answer is not for want of depth, and at most `b` IDs are white after it.
abbrev Settles : ℕ → Answer → Type 0
Settles b (ran found s) = whites s.color ≤ b
Settles b raised = Unit
Settles b too_deep = ⊥

whites-insert :
    (k : String) (c : Color) (d : Dict String Color)
    → is_white c ≡ false
    → whites (insert k c d) ≤ whites d
whites-insert k c d h = elim (Option-cases (lookup k d)) [
  | inl e ↦ ground (arith, count_values-insert_new is_white k c d e)
  | inr (old, e) ↦ ground (arith, count_values-insert is_white k c old d e)
]

by_color-Settles :
    (b : ℕ) (o : Option Color) (close descend skip : Answer)
    → Settles b close
    → (o ≡ some white → Settles b descend)
    → Settles b skip
    → Settles b (by_color o close descend skip)
by_color-Settles b none close descend skip c d s = tt
by_color-Settles b (some gray) close descend skip c d s = c
by_color-Settles b (some white) close descend skip c d s = d refl
by_color-Settles b (some black) close descend skip c d s = s

unless_found-Settles :
    (b : ℕ) (a : Answer) (rest : Dfs → Answer)
    → Settles b a
    → ((s : Dfs) → whites s.color ≤ b → Settles b (rest s))
    → Settles b (unless_found a rest)
unless_found-Settles b (ran true s) rest h f = h
unless_found-Settles b (ran false s) rest h f = f s h
unless_found-Settles b raised rest h f = tt
unless_found-Settles b too_deep rest h f = elim h [ ]

close_cycle-Settles :
    (b level : ℕ) (n : String) (s : Dfs) → whites s.color ≤ b → Settles b (close_cycle level n s)
close_cycle-Settles b level n s h = elim (Bool-cases (elem n s.path)) [
  | inl e ↦ rw e h
  | inr e ↦ rw e tt
]

Settles-weaken : (b c : ℕ) (a : Answer) → b ≤ c → Settles b a → Settles c a
Settles-weaken b c (ran found s) h w = omega (arith, h, w)
Settles-weaken b c raised h w = tt
Settles-weaken b c too_deep h w = elim w [ ]

for_neighbors-Settles :
    (b : ℕ) (o : Option (List String)) (f : List String → Answer)
    → ((ns : List String) → Settles b (f ns))
    → Settles b (for_neighbors o f)
for_neighbors-Settles b none f h = tt
for_neighbors-Settles b (some ns) f h = h ns

visit_neighbors-Settles :
    (visit : String → Dfs → Answer) (level : ℕ) (node : String) (b : ℕ) (ns : List String) (s : Dfs)
    → ((n : String) (t : Dfs)
        → whites t.color ≤ b
        → lookup n t.color ≡ some white
        → Settles b (visit n t))
    → whites s.color ≤ b
    → Settles b (visit_neighbors visit level node ns s)
unfolding visit_neighbors
visit_neighbors-Settles visit level node b [] s v h =
    omega (arith, whites-insert node black s.color refl, h)
visit_neighbors-Settles visit level node b (n ∷ ns) s v h =
    by_color-Settles b (lookup n s.color) (close_cycle level n s) _ _
      (close_cycle-Settles b level n s h)
      (λ e.
        unless_found-Settles b (visit n s) _ (v n s h e)
          (λ t w. visit_neighbors-Settles visit level node b ns t v w))
      (visit_neighbors-Settles visit level node b ns s v h)

dfs_cycle-Settles :
    (n : ℕ) (adj : Dict String (List String)) (level : ℕ) (node : String) (b : ℕ) (s : Dfs)
    → b ≤ n
    → whites s.color ≤ b
    → lookup node s.color ≡ some white
    → Settles b (dfs_cycle n adj level node s)
unfolding dfs_cycle
dfs_cycle-Settles zero adj level node b s h w e =
    absurd (omega (arith, h, w, count_values-insert is_white node gray white s.color e))
dfs_cycle-Settles (suc n) adj level node b s h w e =
    let s' : Dfs = record s { path = s.path ++ node ∷ []; color = insert node gray s.color } in
    let fewer : suc (whites s'.color) ≤ b =
      omega (arith, w, count_values-insert is_white node gray white s.color e) in
    for_neighbors-Settles b (lookup node adj) _ (λ ns.
      Settles-weaken (b - 1) b (visit_neighbors (dfs_cycle n adj level) level node ns s')
        (omega arith)
        (visit_neighbors-Settles (dfs_cycle n adj level) level node (b - 1) ns s'
          (λ k t u i. dfs_cycle-Settles n adj level k (b - 1) t (omega (arith, h, fewer)) u i)
          (omega (arith, fewer))))

on_errors-Settles :
    (b : ℕ) (a : Answer) (f : List GraphError → Dict String Color → Answer)
    → Settles b a
    → ((errors : List GraphError) (color : Dict String Color)
        → whites color ≤ b
        → f errors color ≢ too_deep)
    → on_errors a f ≢ too_deep
on_errors-Settles b (ran found s) f h g = g s.errors s.color h
on_errors-Settles b raised f h g = λ e. ground (arith, e)
on_errors-Settles b too_deep f h g = elim h [ ]

on_errors_returns :
    (a : Answer) (f : List GraphError → Dict String Color → Answer)
    → a ≢ too_deep
    → ((errors : List GraphError) (color : Dict String Color) → f errors color ≢ too_deep)
    → on_errors a f ≢ too_deep
on_errors_returns (ran found s) f h g = g s.errors s.color
on_errors_returns raised f h g = λ e. ground (arith, e)
on_errors_returns too_deep f h g = h

search_level_returns :
    (n : ℕ) (adj : Dict String (List String)) (level : ℕ) (ks : List String)
    (errors : List GraphError) (color : Dict String Color)
    → whites color ≤ n
    → search_level n adj level ks errors color ≢ too_deep
unfolding search_level
search_level_returns n adj level [] errors color h = λ e. ground (arith, e)
search_level_returns n adj level (k ∷ ks) errors color h = elim (Option-cases (lookup k color)) [
  | inl e ↦ rw e (search_level_returns n adj level ks errors color h)
  | inr (white, e) ↦ rw e (
      on_errors-Settles n _ (search_level n adj level ks)
        (dfs_cycle-Settles n adj level k n (record { path = []; color = color; errors = errors })
          (omega arith) h e)
        (λ errors' color' w. search_level_returns n adj level ks errors' color' w))
  | inr (gray, e) ↦ rw e (search_level_returns n adj level ks errors color h)
  | inr (black, e) ↦ rw e (search_level_returns n adj level ks errors color h)
]

whites-from_keys :
    (ks : List String) (d : Dict String Color)
    → whites (from_keys ks white d) ≤ whites d + length ks
unfolding from_keys
whites-from_keys [] d = omega arith
whites-from_keys (k ∷ ks) d = elim (Option-cases (lookup k d)) [
  | inl e ↦
      omega (
        arith,
        whites-from_keys ks (insert k white d),
        count_values-insert_new is_white k white d e,
      )
  | inr (old, e) ↦
      omega (
        arith,
        whites-from_keys ks (insert k white d),
        count_values-insert is_white k white old d e,
      )
]

-- The search for cycles within the levels never wants for depth.
pub search_levels_returns :
    (tasks : Dict String GraphNode) (levels : Dict ℕ (List String)) (errors : List GraphError)
    → search_levels tasks levels errors ≢ too_deep
unfolding search_levels
search_levels_returns tasks [] errors = λ e. ground (arith, e)
search_levels_returns tasks ((level, ids) ∷ levels) errors =
    let adj = level_adj tasks ids ids (from_keys ids [] []) in
    on_errors_returns (search_level (length ids) adj level ids errors (from_keys ids white [])) _
      (search_level_returns (length ids) adj level ids errors (from_keys ids white [])
        (omega (arith, whites-from_keys ids [])))
      (λ errors' color. search_levels_returns tasks levels errors')
