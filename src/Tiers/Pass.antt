-- ===== src/Tiers/Pass.antt =====
-- When a task passes the tiers of zerg/verification_tiers.py.
use zerg.Common.{
  ℕ, ◌≡◌, refl, Bool, true, not, ◌&&◌, ◌||◌, Option, none, some, List, [], ◌∷◌, String, ◌==◌,
  nat_eq, string_eq, if◌then◌else◌, arith, get_or, Option-cases, inl, inr,
}
use zerg.Common.Dict.{Dict, lookup}
use zerg.Tiers.{
  overall_pass, TiersConfig, TierDefinition, tier_definitions, resolve_tier_commands,
  CommandOutcome, outcome_success, run_tier, or_default, run_tiers, execute,
}

module _ (execute_command : String → ℕ → CommandOutcome) (text : String → String) where
  run_tier_fields :
      (tier : ℕ) (name command : String) (blocking : Bool) (timeout : ℕ)
      → let r = run_tier execute_command text tier name command blocking timeout in
        (r.success ≡ outcome_success (execute_command command timeout)) × (r.blocking ≡ blocking)
  unfolding run_tier
  run_tier_fields tier name command blocking timeout = ground arith

  -- Every blocking tier that has a command succeeds.
  abbrev pub all_blocking : TiersConfig → Dict ℕ String → ℕ → List TierDefinition → Bool
  all_blocking c commands task_timeout [] = true
  all_blocking c commands task_timeout (d ∷ ds) =
      let timeout = if d.tier == 2 then task_timeout else c.default_timeout in
      elim (lookup d.tier commands) [
        | none ↦ true
        | some command ↦
            not (d.config_blocking c)
            || outcome_success (execute_command command (or_default timeout c.default_timeout))
      ]
      && all_blocking c commands task_timeout ds

  run_tiers_pass :
      (c : TiersConfig) (commands : Dict ℕ String) (task_timeout : ℕ) (ds : List TierDefinition)
      → overall_pass (run_tiers execute_command text c commands task_timeout ds)
        ≡ all_blocking c commands task_timeout ds
  unfolding run_tiers overall_pass
  run_tiers_pass c commands task_timeout [] = refl
  run_tiers_pass c commands task_timeout (d ∷ ds) = elim (Option-cases (lookup d.tier commands)) [
    | inl e ↦ ground (arith, run_tiers_pass c commands task_timeout ds)
    | inr (command, e) ↦
        let timeout = if d.tier == 2 then task_timeout else c.default_timeout in
        let limit = or_default timeout c.default_timeout in
        ground (
          arith,
          run_tiers_pass c commands task_timeout ds,
          run_tier_fields d.tier d.name command (d.config_blocking c) limit,
        )
  ]

  -- A task passes exactly when every blocking tier with a command succeeds, though a tier after a
  -- blocking failure is not run.
  pub execute_pass :
      (c : TiersConfig) (task_command : String) (task_timeout : Option ℕ)
      → overall_pass (execute execute_command text c task_command task_timeout)
        ≡ all_blocking c
            (resolve_tier_commands c task_command)
            (get_or task_timeout c.default_timeout)
            tier_definitions
  unfolding execute
  execute_pass c task_command task_timeout =
      run_tiers_pass c (resolve_tier_commands c task_command)
        (get_or task_timeout c.default_timeout) tier_definitions
