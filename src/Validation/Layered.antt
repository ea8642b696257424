-- ===== src/Validation/Layered.antt =====
-- What the check of the dependencies of zerg/validation.py accepts.
use zerg.Common.{
  beq_refl, is_empty-append, ℕ, suc, ◌≤◌, ◌<◌, ◌≡◌, ◌∙◌, refl, Bool, true, false, not, ◌&&◌, Option,
  none, some, List, [], ◌∷◌, String, ◌==◌, string_eq, elem, select, ltb, is_empty, arith,
  Bool-cases, Option-cases, inl, inr, all,
}
use zerg.Common.Dict.{lookup, insert, lookup-insert}
use zerg.Validation.{GraphTask}
use zerg.Validation.Dependencies.{
  TaskInfo, task_info, check_levels, level_errors, Search, dependencies_of, leave, visit_deps,
}

-- An unknown ID is below every task.
unfoldable pub rank : TaskInfo → String → ℕ
rank info k = elim (lookup k info) [ none ↦ 0 | some t ↦ suc t.level ]

-- All known dependencies of the task have a lower level.
abbrev pub is_layered : TaskInfo → GraphTask → List String → Bool
is_layered info t [] = true
is_layered info t (d ∷ ds) =
    elim (lookup d info) [ none ↦ true | some dep ↦ ltb dep.level t.level ] && is_layered info t ds

check_levels-is_layered :
    (info : TaskInfo) (t : GraphTask) (ds : List String)
    → is_empty (check_levels info t ds) ≡ is_layered info t ds
unfolding check_levels
check_levels-is_layered info t [] = refl
check_levels-is_layered info t (d ∷ ds) = ground (arith, check_levels-is_layered info t ds)

-- Every task of the graph has its known dependencies at lower levels.
abbrev pub all_layered : TaskInfo → List GraphTask → Bool
all_layered info = all (λ t. is_layered info t t.dependencies)

pub level_errors-all_layered :
    (info : TaskInfo) (ts : List GraphTask) → is_empty (level_errors info ts) ≡ all_layered info ts
unfolding level_errors
level_errors-all_layered info [] = refl
level_errors-all_layered info (t ∷ ts) = ground (
  arith,
  is_empty-append (check_levels info t t.dependencies) (level_errors info ts),
  check_levels-is_layered info t t.dependencies,
  level_errors-all_layered info ts,
)

-- Each dependency of each ID is below it.
unfoldable pub Descends : TaskInfo → Type 0
Descends info = (k d : String) → elem d (dependencies_of info k) ≡ true → rank info d < rank info k

module _ (info : TaskInfo) where
  unfoldable pub Good : TaskInfo → Type 0
  Good table =
      (k : String) (t : GraphTask)
      → lookup k table ≡ some t
      → is_layered info t t.dependencies ≡ true

  pub task_info-Good :
      (ts : List GraphTask) (table : TaskInfo)
      → all_layered info ts ≡ true
      → Good table
      → Good (task_info ts table)
  unfolding task_info Good
  task_info-Good [] table h g = g
  task_info-Good (t ∷ ts) table h g =
      task_info-Good ts (insert t.id t table) (ground arith)
        (λ k v e. ground (arith, lookup-insert t.id k t table, g k v))

  rank_of_layered :
      (t : GraphTask) (ds : List String) (d : String)
      → is_layered info t ds ≡ true
      → elem d ds ≡ true
      → rank info d < suc t.level
  unfolding rank
  rank_of_layered t [] d l m = ground arith
  rank_of_layered t (x ∷ ds) d l m = ground (arith, rank_of_layered t ds d, string_eq.same_iff d x)

  known_rank : (k : String) (t : GraphTask) → lookup k info ≡ some t → rank info k ≡ suc t.level
  unfolding rank
  known_rank k t e = rw (e, rank) refl

  pub Good-Descends : Good info → Descends info
  unfolding Descends dependencies_of Good
  Good-Descends g k d m = elim (Option-cases (lookup k info)) [
    | inl e ↦ ground arith
    | inr (t, e) ↦ ground (arith, rank_of_layered t t.dependencies d (g k t e), known_rank k t e)
  ]

-- Every ID on the stack is above `n`.
abbrev pub Above : TaskInfo → ℕ → Search → Type 0
Above info n s = (x : String) → elem x s.rec_stack ≡ true → n < rank info x

-- No error was added, and nothing is on the stack that was not.
pub record IsQuiet (s s' : Search) : Type 0 where
  pub errors : s'.errors ≡ s.errors
  pub stack : (x : String) → elem x s'.rec_stack ≡ true → elem x s.rec_stack ≡ true

pub elem-select_other :
    (x k : String) (xs : List String)
    → elem x (select (λ y. not (y == k)) xs) ≡ (elem x xs && not (x == k))
elem-select_other x k [] = refl
elem-select_other x k (y ∷ xs) =
    ground (arith, elem-select_other x k xs, string_eq.same_iff x y, string_eq.same_iff y x)

module _ (info : TaskInfo) (visit : String → Search → Option (Bool × Search)) (k : String) where
  -- Calls of `visit` on IDs below the stack are quiet.
  unfoldable pub VisitsQuietly : Type 0
  VisitsQuietly =
      (d : String) (s s' : Search) (b : Bool)
      → visit d s ≡ some (b, s')
      → Above info (rank info d) s
      → (b ≡ false) × IsQuiet s s'

  pub visit_deps-IsQuiet :
      (ds : List String) (s s' : Search) (b : Bool)
      → VisitsQuietly
      → ((d : String) → elem d ds ≡ true → rank info d < rank info k)
      → visit_deps visit k ds s ≡ some (b, s')
      → ((x : String) → elem x s.rec_stack ≡ true → rank info k ≤ rank info x)
      → (b ≡ false) × IsQuiet (leave k s) s'
  unfolding visit_deps VisitsQuietly
  visit_deps-IsQuiet [] s s' b v r e a =
      (ground arith, record { errors = ground arith; stack = λ x m. ground arith })
  visit_deps-IsQuiet (d ∷ ds) s s' b v r e a =
      let lower : rank info d < rank info k = r d (ground (arith, beq_refl d)) in
      let off : elem d s.rec_stack ≡ false = ground (arith, a d) in
      let later = λ (x : String) (m : elem x ds ≡ true). r x (ground arith) in
      elim (Bool-cases (elem d s.visited)) [
        | inl seen ↦ visit_deps-IsQuiet ds s s' b v later (rw (seen, off, visit_deps) at e) a
        | inr fresh ↦ elim (Option-cases (visit d s)) [
          | inl raised ↦ absurd (ground arith)
          | inr ((b₁, s₁), e₁) ↦
              let (no_cycle, q₁) = v d s s₁ b₁ e₁ (λ x m. omega (arith, a x m)) in
              let rest : visit_deps visit k ds s₁ ≡ some (b, s') = ground arith in
              let (no_cycle', q) =
                visit_deps-IsQuiet ds s₁ s' b v later rest (λ x m. a x (q₁.stack x m)) in
              (
                no_cycle',
                record {
                  errors = q.errors ∙ q₁.errors;
                  stack = λ x m. ground (
                    arith,
                    q.stack x m,
                    q₁.stack x,
                    elem-select_other x k s₁.rec_stack,
                    elem-select_other x k s.rec_stack,
                  );
                },
              )
        ]
      ]
