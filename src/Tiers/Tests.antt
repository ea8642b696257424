-- ===== src/Tiers/Tests.antt =====
-- Runs of zerg/verification_tiers.py, where the command "bad" fails.
use zerg.Common.{
  ℕ, ◌≡◌, refl, true, false, not, none, some, String, ◌==◌, nat_eq, string_eq, length,
}
use zerg.Common.Dict.{lookup, insert}
use zerg.Tiers.{
  TiersConfig, CommandOutcome, ran, resolve_tier_commands, run_tier, run_tiers, execute,
  overall_pass, overall_quality,
}

abbrev outcome : String → ℕ → CommandOutcome
outcome command timeout = ran (not (command == "bad")) "" ""

abbrev config : TiersConfig
config = record {
  tier1_command = some "lint";
  tier2_command = none;
  tier3_command = some "bad";
  tier1_blocking = true;
  tier2_blocking = true;
  tier3_blocking = false;
  default_timeout = 30;
}

-- The quality tier fails without blocking.
passes : overall_pass (execute outcome (λ m. m) config "test" none) ≡ true
unfolding overall_pass execute run_tiers run_tier resolve_tier_commands lookup insert
passes = refl

low_quality : overall_quality (execute outcome (λ m. m) config "test" none) ≡ false
unfolding overall_quality execute run_tiers run_tier resolve_tier_commands lookup insert
low_quality = refl

-- A failure of the task's own command stops the tiers.
stops : length (execute outcome (λ m. m) config "bad" none) ≡ 2
unfolding execute run_tiers run_tier resolve_tier_commands lookup insert
stops = refl
