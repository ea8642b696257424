-- ===== src/Reconcile/LevelId.antt =====
-- `parse_level_from_task_id` and `_fix_missing_task_levels` of zerg/state_reconciler.py. The code
-- points of a string and the value of a decimal digit, which Python's `\d` and `int` know, are
-- parameters.
use zerg.Common.{
  ℕ, ◌+◌, ◌*◌, Option, none, some, List, [], ◌∷◌, ◌++◌, String, ◌==◌, nat_eq, if◌then◌else◌,
}
use zerg.State.{Tasks}
use zerg.Reconcile.{ReconciliationFix, level_parsed, Reconciler}

-- The rest of `\d+-` after at least one digit, with the number so far.
abbrev pub digits_dash : (ℕ → Option ℕ) → ℕ → List ℕ → Option ℕ
digits_dash digit n [] = none
digits_dash digit n (c ∷ cs) = elim (digit c) [
  | some d ↦ digits_dash digit (n * 10 + d) cs
  | none ↦ if c == 45 then some n else none
]

-- `(\d+)-` at the start of the text.
abbrev pub level_here : (ℕ → Option ℕ) → List ℕ → Option ℕ
level_here digit [] = none
level_here digit (c ∷ cs) = elim (digit c) [ none ↦ none | some d ↦ digits_dash digit d cs ]

-- `-L(\d+)-` at the start of the text.
abbrev pub match_here : (ℕ → Option ℕ) → List ℕ → Option ℕ
match_here digit [] = none
match_here digit (a ∷ []) = none
match_here digit (a ∷ b ∷ cs) =
    if a == 45 then (if b == 76 then level_here digit cs else none) else none

-- The first match of the pattern.
unfoldable pub parse_level_from_task_id : (ℕ → Option ℕ) → List ℕ → Option ℕ
parse_level_from_task_id digit [] = none
parse_level_from_task_id digit (c ∷ cs) =
    let rest = parse_level_from_task_id digit cs in
    elim (match_here digit (c ∷ cs)) [ none ↦ rest | some n ↦ some n ]

unfoldable pub fix_missing_task_levels :
    (String → List ℕ) → (ℕ → Option ℕ) → Tasks → Tasks × List ReconciliationFix
fix_missing_task_levels code_points digit [] = ([], [])
fix_missing_task_levels code_points digit ((k, t) ∷ tasks) =
    let (tasks', fixes) = fix_missing_task_levels code_points digit tasks in
    elim t.level [
      | some l ↦ ((k, t) ∷ tasks', fixes)
      | none ↦ elim (parse_level_from_task_id digit (code_points k)) [
        | none ↦ ((k, t) ∷ tasks', fixes)
        | some l ↦ ((k, record t { level = some l }) ∷ tasks', level_parsed k l t.worker_id ∷ fixes)
      ]
    ]

-- The step on the state of the reconciler.
abbrev pub fix_levels : (String → List ℕ) → (ℕ → Option ℕ) → Reconciler → Reconciler
fix_levels code_points digit r =
    let (tasks', fixes) = fix_missing_task_levels code_points digit r.tasks in
    record r { tasks = tasks'; fixes_applied = r.fixes_applied ++ fixes }
