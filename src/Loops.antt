-- ===== src/Loops.antt =====
-- zerg/loops.py. A score is a signed number of a fixed unit, where the source has a float; the
-- function that improves is a parameter, which answers none where it raises. Durations and details
-- of a round are left out.
pub mod Best
mod Tests
use zerg.Common.{
  ℕ, zero, suc, ◌+◌, Bool, true, false, not, ◌&&◌, ◌||◌, Option, none, some, List, [], ◌∷◌, ◌++◌,
  nat_eq, ltb, leb, ◌==◌, if◌then◌else◌, length,
}
use zerg.Common.Int.{ℤ, pos, ◌-ℤ◌, ltb_ℤ}

pub data LoopStatus : Type 0 where
  running converged plateau regressed max_iterations aborted : LoopStatus

pub record IterationResult : Type 0 where
  pub iteration : ℕ
  pub score : ℤ
  pub improved : Bool
  pub delta : ℤ

abbrev pub is_regression : IterationResult → Bool
is_regression r = ltb_ℤ r.delta (pos 0)

pub record LoopController : Type 0 where
  pub max_iterations : ℕ
  pub convergence_threshold : ℤ
  pub plateau_threshold : ℕ
  pub rollback_on_regression : Bool

-- The variables of the loop; `iterations` in the order of the list.
pub record Progress : Type 0 where
  pub iterations : List IterationResult
  pub best_score : ℤ
  pub best_iteration : ℕ
  pub plateau_count : ℕ
  pub previous_score : ℤ

pub record LoopSummary : Type 0 where
  pub status : LoopStatus
  pub iterations : List IterationResult
  pub best_score : ℤ
  pub best_iteration : ℕ

-- `best_score - iterations[0].score`
unfoldable pub improvement : LoopSummary → ℤ
improvement s = elim s.iterations [ [] ↦ pos 0 | r ∷ rs ↦ s.best_score -ℤ r.score ]

abbrev pub negated : ℤ → ℤ
negated z = pos 0 -ℤ z

-- `0 < delta <= self.convergence_threshold and i > 1`
abbrev pub has_converged : LoopController → ℕ → ℤ → Bool
has_converged c i delta =
    ltb_ℤ (pos 0) delta && not (ltb_ℤ c.convergence_threshold delta) && ltb 1 i

-- The result, the best score and the plateau count after round `i`.
unfoldable pub tracked : LoopController → ℕ → ℤ → Progress → Progress
tracked c i score p =
    let delta = score -ℤ p.previous_score in
    let improved = ltb_ℤ c.convergence_threshold delta in
    let better = ltb_ℤ p.best_score score in
    record {
      iterations =
          p.iterations
          ++ record { iteration = i; score = score; improved = improved; delta = delta } ∷ [];
      best_score = if better then score else p.best_score;
      best_iteration = if better then i else p.best_iteration;
      plateau_count = if improved then 0 else suc p.plateau_count;
      previous_score = score;
    }

-- The `break` of round `i`, if there is one.
unfoldable pub stop_reason : LoopController → ℕ → ℤ → Progress → Option LoopStatus
stop_reason c i score p =
    let delta = score -ℤ p.previous_score in
    let improved = ltb_ℤ c.convergence_threshold delta in
    if ltb_ℤ delta (negated c.convergence_threshold) && c.rollback_on_regression
    then some regressed
    else if not improved && leb c.plateau_threshold (suc p.plateau_count)
    then some plateau
    else if has_converged c i delta
    then some converged
    else none

abbrev pub summary : LoopStatus → Progress → LoopSummary
summary status p = record {
  status = status;
  iterations = p.iterations;
  best_score = p.best_score;
  best_iteration = p.best_iteration;
}

-- The rounds that are left, from round `i`.
unfoldable pub rounds : ℕ → ℕ → LoopController → (ℕ → Option ℤ) → Progress → LoopSummary
rounds zero i c improve_fn p = summary max_iterations p
rounds (suc n) i c improve_fn p = elim (improve_fn i) [
  | none ↦ summary aborted p
  | some score ↦ elim (stop_reason c i score p) [
    | none ↦ rounds n (suc i) c improve_fn (tracked c i score p)
    | some status ↦ summary status (tracked c i score p)
  ]
]

abbrev pub at_start : ℤ → Progress
at_start initial_score = record {
  iterations = [];
  best_score = initial_score;
  best_iteration = 0;
  plateau_count = 0;
  previous_score = initial_score;
}

unfoldable pub run : LoopController → (ℕ → Option ℤ) → ℤ → LoopSummary
run c improve_fn initial_score = rounds c.max_iterations 1 c improve_fn (at_start initial_score)

-- The rounds at the end of the list that did not improve, and the last round.
abbrev pub trailing : List IterationResult → ℕ → ℕ
trailing [] n = n
trailing (r ∷ rs) n = trailing rs (if r.improved then 0 else suc n)

abbrev pub last_regressed : List IterationResult → Bool
last_regressed [] = false
last_regressed (r ∷ []) = is_regression r
last_regressed (r ∷ s ∷ rs) = last_regressed (s ∷ rs)

unfoldable pub should_continue : LoopController → List IterationResult → Bool
should_continue c [] = true
should_continue c (r ∷ rs) =
    if leb c.max_iterations (length (r ∷ rs))
    then false
    else if leb c.plateau_threshold (trailing (r ∷ rs) 0)
    then false
    else if c.rollback_on_regression && last_regressed (r ∷ rs)
    then false
    else true
