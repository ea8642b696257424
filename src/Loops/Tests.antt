-- ===== src/Loops/Tests.antt =====
-- Runs of zerg/loops.py.
use zerg.Common.{ℕ, ◌≡◌, refl, true, Option, some, if◌then◌else◌, ◌==◌, nat_eq}
use zerg.Common.Int.{ℤ, pos, ◌-ℤ◌}
use zerg.Loops.{
  converged, LoopController, tracked, stop_reason, rounds, run, should_continue, improvement,
}

-- The threshold is 2 units.
abbrev controller : LoopController
controller = record {
  max_iterations = 5;
  convergence_threshold = pos 2;
  plateau_threshold = 2;
  rollback_on_regression = true;
}

abbrev scores : ℕ → Option ℤ
scores n = some (pos (if n == 1 then 10 else if n == 2 then 20 else 21))

-- The third round gains 1, and ends the loop as converged.
third_converges : (run controller scores (pos 0)).status ≡ converged
unfolding run rounds stop_reason tracked ◌-ℤ◌
third_converges = refl

gained : improvement (run controller scores (pos 0)) ≡ pos 11
unfolding improvement run rounds stop_reason tracked ◌-ℤ◌
gained = refl

-- `should_continue` on the same rounds would go on.
would_go_on : should_continue controller (run controller scores (pos 0)).iterations ≡ true
unfolding should_continue run rounds stop_reason tracked ◌-ℤ◌
would_go_on = refl
