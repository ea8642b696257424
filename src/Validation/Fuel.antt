-- ===== src/Validation/Fuel.antt =====
-- The search of zerg/validation.py visits each ID once, so its fuel is enough.
use zerg.Common.{
  elem-append, All-of_elem, ℕ, zero, suc, ◌≤◌, ◌<◌, ◌≡◌, refl, Bool, true, false, not, Option, some,
  List, [], ◌∷◌, ◌++◌, String, string_eq, elem, length, count_if, arith, Bool-cases, inl, inr, All,
}
use zerg.Common.Dict.{lookup, keys}
use zerg.Validation.{GraphTask}
use zerg.Validation.Dependencies.{
  TaskInfo, Search, dependencies_of, enter, leave, visit_deps, validate_dependencies, task_info,
  level_errors, cycle, DependencyError, has_cycle, search_all, universe,
}

-- How many members of a list, with repetitions, are not visited.
abbrev pub unvisited : List String → Search → ℕ
unvisited u s = count_if (λ k. not (elem k s.visited)) u

unvisited-le : (u : List String) (k : String) (s : Search) → unvisited u (enter k s) ≤ unvisited u s
unvisited-le [] k s = omega arith
unvisited-le (x ∷ u) k s = ground (arith, unvisited-le u k s)

unvisited-enter :
    (u : List String) (k : String) (s : Search)
    → elem k u ≡ true
    → elem k s.visited ≡ false
    → unvisited u (enter k s) < unvisited u s
unvisited-enter [] k s h n = ground arith
unvisited-enter (x ∷ u) k s h n = ground (
  arith,
  unvisited-enter u k s,
  unvisited-le u k s,
  string_eq.same_iff k x,
  string_eq.same_iff x k,
)

unvisited-le-length : (u : List String) (s : Search) → unvisited u s ≤ length u
unvisited-le-length [] s = omega arith
unvisited-le-length (x ∷ u) s = ground (arith, unvisited-le-length u s)

-- The call returns, and unvisits nothing of `u`.
abbrev Returns : List String → Option (Bool × Search) → Search → Type 0
Returns u o s = (b : Bool) × (s' : Search) × (o ≡ some (b, s')) × (unvisited u s' ≤ unvisited u s)

module _ (u : List String) (visit : String → Search → Option (Bool × Search)) (n : ℕ) where
  visit_deps-Returns :
      ((k : String) (s : Search)
        → elem k u ≡ true
        → elem k s.visited ≡ false
        → unvisited u s ≤ n
        → Returns u (visit k s) s)
      → (k : String) (ds : List String) (s : Search) → All (λ d. elem d u ≡ true) ds
      → unvisited u s ≤ n
      → Returns u (visit_deps visit k ds s) s
  unfolding visit_deps
  visit_deps-Returns v k [] s m h = (false, leave k s, refl, omega arith)
  visit_deps-Returns v k (d ∷ ds) s (here, there) h = elim (Bool-cases (elem d s.visited)) [
    | inl seen ↦ elim (Bool-cases (elem d s.rec_stack)) [
      | inl back ↦ (
        true,
        record s { errors = s.errors ++ cycle k d ∷ [] },
        rw (seen, back) refl,
        omega arith,
      )
      | inr not_back ↦
          let (b, s', e, l) = visit_deps-Returns v k ds s there h in
          (b, s', rw (seen, not_back) e, l)
    ]
    | inr fresh ↦
        let (b₁, s₁, e₁, l₁) = v d s here fresh h in
        elim (Bool-cases b₁) [
          | inl found ↦ (true, s₁, rw (fresh, e₁, found) refl, l₁)
          | inr clear ↦
              let (b, s', e, l) = visit_deps-Returns v k ds s₁ there (omega arith) in
              (b, s', rw (fresh, e₁, clear) e, omega arith)
        ]
  ]

module _ (info : TaskInfo) (u : List String) where
  -- The dependencies of every ID are in `u`.
  abbrev IsClosed : Type 0
  IsClosed = (k : String) → All (λ d. elem d u ≡ true) (dependencies_of info k)

  has_cycle-Returns :
      (n : ℕ) (k : String) (s : Search)
      → IsClosed
      → elem k u ≡ true
      → elem k s.visited ≡ false
      → unvisited u s ≤ n
      → Returns u (has_cycle n info k s) s
  unfolding has_cycle
  has_cycle-Returns zero k s c m f h = absurd (omega (arith, unvisited-enter u k s m f))
  has_cycle-Returns (suc n) k s c m f h =
      let less = unvisited-enter u k s m f in
      let (b, s', e, l) =
        visit_deps-Returns u (has_cycle n info) n (λ j t i g w. has_cycle-Returns n j t c i g w) k
          (dependencies_of info k) (enter k s) (c k) (omega arith) in
      (b, s', e, omega arith)

  search_all_returns :
      (n : ℕ) (ks : List String) (s : Search)
      → IsClosed
      → All (λ k. elem k u ≡ true) ks
      → unvisited u s ≤ n
      → (s' : Search) × (search_all n info ks s ≡ some s')
  unfolding search_all
  search_all_returns n [] s c m h = (s, refl)
  search_all_returns n (k ∷ ks) s c (here, there) h = elim (Bool-cases (elem k s.visited)) [
    | inl seen ↦ let (s', e) = search_all_returns n ks s c there h in (s', rw seen e)
    | inr fresh ↦
        let (b, s₁, e₁, l₁) = has_cycle-Returns n k s c here fresh h in
        let (s', e) = search_all_returns n ks s₁ c there (omega arith) in (s', rw (fresh, e₁) e)
  ]

dependencies_of-universe :
    (info : TaskInfo) (k d : String)
    → elem d (dependencies_of info k) ≡ true
    → elem d (universe info) ≡ true
unfolding dependencies_of lookup
dependencies_of-universe [] k d h = ground arith
dependencies_of-universe ((j, t) ∷ info) k d h =
    ground (arith, elem-append d t.dependencies (universe info), dependencies_of-universe info k d)

keys-universe :
    (info : TaskInfo) (k : String) → elem k (keys info) ≡ true → elem k (universe info) ≡ true
keys-universe [] k h = h
keys-universe ((j, t) ∷ info) k h =
    ground (arith, elem-append k t.dependencies (universe info), keys-universe info k)

-- The check of the dependencies always comes to an end.
pub validate_dependencies_returns :
    (ts : List GraphTask)
    → (errors : List DependencyError) × (validate_dependencies ts ≡ some errors)
unfolding validate_dependencies
validate_dependencies_returns ts =
    let info = task_info ts [] in
    let u = universe info in
    let begin : Search = record { visited = []; rec_stack = []; errors = level_errors info ts } in
    let closed : IsClosed info u =
      λ k. All-of_elem (dependencies_of info k) (λ d. dependencies_of-universe info k d) in
    let listed = All-of_elem (keys info) (keys-universe info) in
    let (s, e) =
      search_all_returns info u (length u) (keys info) begin closed listed
        (unvisited-le-length u begin) in
    (s.errors, rw e refl)
