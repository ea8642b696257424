-- ===== src/Validation/Acyclic.antt =====
-- What the whole check of the dependencies of zerg/validation.py answers, and cycles.
use zerg.Common.{
  ℕ, zero, suc, ◌<◌, ◌≡◌, ◌∙◌, refl, Bool, true, false, Option, some, List, [], ◌∷◌, String,
  string_eq, elem, length, is_empty, is_empty-append, arith, Bool-cases, Option-cases, inl, inr,
}
use zerg.Common.Dict.{lookup, keys}
use zerg.Validation.{GraphTask}
use zerg.Validation.Dependencies.{
  DependencyError, TaskInfo, task_info, level_errors, Search, dependencies_of, enter, visit_deps,
  has_cycle, search_all, universe, validate_dependencies, cycle,
}
use zerg.Validation.Fuel.{validate_dependencies_returns}
use zerg.Validation.Layered.{
  rank, Descends, Good, Good-Descends, task_info-Good, all_layered, level_errors-all_layered, Above,
  IsQuiet, VisitsQuietly, visit_deps-IsQuiet, elem-select_other,
}

has_cycle-IsQuiet :
    (info : TaskInfo) (n : ℕ) (k : String) (s s' : Search) (b : Bool)
    → Descends info
    → has_cycle n info k s ≡ some (b, s')
    → Above info (rank info k) s
    → (b ≡ false) × IsQuiet s s'
unfolding has_cycle Descends VisitsQuietly
has_cycle-IsQuiet info zero k s s' b g e a = absurd (ground arith)
has_cycle-IsQuiet info (suc n) k s s' b g e a =
    let (clear, q) =
      visit_deps-IsQuiet info (has_cycle n info) k (dependencies_of info k) (enter k s) s' b
        (λ d t t' c f h. has_cycle-IsQuiet info n d t t' c g f h) (g k) e
        (λ x m. ground (arith, a x, string_eq.same_iff x k)) in
    (
      clear,
      record {
        errors = q.errors;
        stack = λ x m. ground (arith, q.stack x m, elem-select_other x k (k ∷ s.rec_stack));
      },
    )

search_all_quiet :
    (info : TaskInfo) (n : ℕ) (ks : List String) (s s' : Search)
    → Descends info
    → search_all n info ks s ≡ some s'
    → ((x : String) → elem x s.rec_stack ≡ false)
    → s'.errors ≡ s.errors
unfolding search_all
search_all_quiet info n [] s s' g e a = ground arith
search_all_quiet info n (k ∷ ks) s s' g e a = elim (Bool-cases (elem k s.visited)) [
  | inl seen ↦ search_all_quiet info n ks s s' g (rw (seen, search_all) at e) a
  | inr fresh ↦ elim (Option-cases (has_cycle n info k s)) [
    | inl raised ↦ absurd (ground arith)
    | inr ((b, s₁), e₁) ↦
        let (clear, q) =
          has_cycle-IsQuiet info n k s s₁ b g e₁ (λ x m. absurd (ground (arith, a x))) in
        let rest : search_all n info ks s₁ ≡ some s' = ground arith in
        search_all_quiet info n ks s₁ s' g rest (λ x. ground (arith, q.stack x, a x)) ∙ q.errors
  ]
]

-- Errors are only added.
abbrev Grows : Search → Search → Type 0
Grows s s' = is_empty s'.errors ≡ true → is_empty s.errors ≡ true

visit_deps-Grows :
    (visit : String → Search → Option (Bool × Search)) (k : String) (ds : List String)
    (s s' : Search) (b : Bool)
    → ((d : String) (t t' : Search) (c : Bool) → visit d t ≡ some (c, t') → Grows t t')
    → visit_deps visit k ds s ≡ some (b, s')
    → Grows s s'
unfolding visit_deps
visit_deps-Grows visit k [] s s' b v e = λ h. ground arith
visit_deps-Grows visit k (d ∷ ds) s s' b v e = elim (Bool-cases (elem d s.visited)) [
  | inl seen ↦ elim (Bool-cases (elem d s.rec_stack)) [
    | inl on ↦ λ h. ground (arith, is_empty-append s.errors (cycle k d ∷ []))
    | inr off ↦ visit_deps-Grows visit k ds s s' b v (rw (seen, off, visit_deps) at e)
  ]
  | inr fresh ↦ elim (Option-cases (visit d s)) [
    | inl raised ↦ absurd (ground arith)
    | inr ((b₁, s₁), e₁) ↦ elim (Bool-cases b₁) [
      | inl found ↦ λ h. ground (arith, v d s s₁ b₁ e₁)
      | inr clear ↦
          let rest : visit_deps visit k ds s₁ ≡ some (b, s') = ground arith in
          λ h. v d s s₁ b₁ e₁ (visit_deps-Grows visit k ds s₁ s' b v rest h)
    ]
  ]
]

has_cycle-Grows :
    (info : TaskInfo) (n : ℕ) (k : String) (s s' : Search) (b : Bool)
    → has_cycle n info k s ≡ some (b, s')
    → Grows s s'
unfolding has_cycle
has_cycle-Grows info zero k s s' b e = absurd (ground arith)
has_cycle-Grows info (suc n) k s s' b e =
    visit_deps-Grows (has_cycle n info) k (dependencies_of info k) (enter k s) s' b
      (λ d t t' c f. has_cycle-Grows info n d t t' c f) e

search_all-Grows :
    (info : TaskInfo) (n : ℕ) (ks : List String) (s s' : Search)
    → search_all n info ks s ≡ some s'
    → Grows s s'
unfolding search_all
search_all-Grows info n [] s s' e = λ h. ground arith
search_all-Grows info n (k ∷ ks) s s' e = elim (Bool-cases (elem k s.visited)) [
  | inl seen ↦ search_all-Grows info n ks s s' (rw (seen, search_all) at e)
  | inr fresh ↦ elim (Option-cases (has_cycle n info k s)) [
    | inl raised ↦ absurd (ground arith)
    | inr ((b, s₁), e₁) ↦
        let rest : search_all n info ks s₁ ≡ some s' = ground arith in
        λ h. has_cycle-Grows info n k s s₁ b e₁ (search_all-Grows info n ks s₁ s' rest h)
  ]
]

pub Descends-of_layered :
    (ts : List GraphTask) → all_layered (task_info ts []) ts ≡ true → Descends (task_info ts [])
Descends-of_layered ts h =
    let info = task_info ts [] in
    Good-Descends info
      (task_info-Good info ts [] h (unfold Good in λ k t e. absurd (unfold lookup in ground arith)))

accepts_layered :
    (ts : List GraphTask) (errors : List DependencyError)
    → validate_dependencies ts ≡ some errors
    → is_empty errors ≡ all_layered (task_info ts []) ts
unfolding validate_dependencies
accepts_layered ts errors e =
    let info = task_info ts [] in
    let s : Search = record { visited = []; rec_stack = []; errors = level_errors info ts } in
    let n = length (universe info) in
    elim (Option-cases (search_all n info (keys info) s)) [
      | inl raised ↦ absurd (ground arith)
      | inr (s', found) ↦
          let levels = level_errors-all_layered info ts in
          elim (Bool-cases (all_layered info ts)) [
            | inl good ↦
                let kept =
                  search_all_quiet info n (keys info) s s' (Descends-of_layered ts good) found
                    (λ x. refl) in
                ground (arith, kept, levels)
            | inr bad ↦ ground (arith, search_all-Grows info n (keys info) s s' found, levels)
          ]
    ]

-- The check of the dependencies comes to an end, and accepts a graph exactly when every known
-- dependency of a task has a lower level than the task: on such a graph the search for cycles adds
-- no error.
pub validate_dependencies_lem :
    (ts : List GraphTask)
    → (errors : List DependencyError) × (validate_dependencies ts ≡ some errors)
      × (is_empty errors ≡ all_layered (task_info ts []) ts)
validate_dependencies_lem ts =
    let (errors, e) = validate_dependencies_returns ts in (errors, e, accepts_layered ts errors e)

-- A chain of dependencies from `k` to `d`.
pub data DependsOn (info : TaskInfo) (k : String) : String → Type 0 where
  direct : {d : String} → elem d (dependencies_of info k) ≡ true → DependsOn info k d
  further :
      {c d : String}
      → DependsOn info k c
      → elem d (dependencies_of info c) ≡ true
      → DependsOn info k d

DependsOn-lower :
    {info : TaskInfo} {k d : String}
    → Descends info
    → DependsOn info k d
    → rank info d < rank info k
unfolding Descends
DependsOn-lower {info} {k} {d} g (direct m) = g k d m
DependsOn-lower {info} {k} {d} g (further {c} p m) = omega (arith, DependsOn-lower g p, g c d m)

-- In a graph that the check of the dependencies accepts no task depends on itself, through any
-- number of others.
pub validate_dependencies_acyclic :
    (ts : List GraphTask) (k : String)
    → validate_dependencies ts ≡ some []
    → ¬ DependsOn (task_info ts []) k k
validate_dependencies_acyclic ts k e p =
    let (errors, e', v) = validate_dependencies_lem ts in
    let good : all_layered (task_info ts []) ts ≡ true = ground arith in
    omega (arith, DependsOn-lower (Descends-of_layered ts good) p)
