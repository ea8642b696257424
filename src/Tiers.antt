-- ===== src/Tiers.antt =====
-- zerg/verification_tiers.py. Running a command (zerg/command_executor.py) is a parameter: what it
-- answers for a command and a timeout. Durations are left out.
pub mod Pass
mod Tests
use zerg.Common.{
  ℕ, zero, suc, Bool, true, false, not, ◌&&◌, Option, none, some, List, [], ◌∷◌, ◌++◌, String, ◌==◌,
  nat_eq, string_eq, if◌then◌else◌, all, get_or,
}
use zerg.Common.Dict.{Dict, lookup, insert}

pub record TierResult : Type 0 where
  pub tier : ℕ
  pub name : String
  pub success : Bool
  pub blocking : Bool
  pub command : String
  pub stdout : String
  pub stderr : String

-- `all(t.success for t in self.tiers if t.blocking)`
unfoldable pub overall_pass : List TierResult → Bool
overall_pass [] = true
overall_pass (t ∷ ts) = let rest = overall_pass ts in if t.blocking then t.success && rest else rest

unfoldable pub overall_quality : List TierResult → Bool
overall_quality = all (λ t. t.success)

-- A command that is None or empty is none here.
pub record TiersConfig : Type 0 where
  pub tier1_command : Option String
  pub tier2_command : Option String
  pub tier3_command : Option String
  pub tier1_blocking : Bool
  pub tier2_blocking : Bool
  pub tier3_blocking : Bool
  pub default_timeout : ℕ

pub record TierDefinition : Type 0 where
  pub tier : ℕ
  pub name : String
  pub config_blocking : TiersConfig → Bool

-- `TIER_DEFINITIONS`
abbrev pub tier_definitions : List TierDefinition
tier_definitions =
    record { tier = 1; name = "syntax"; config_blocking = λ c. c.tier1_blocking }
    ∷ record { tier = 2; name = "correctness"; config_blocking = λ c. c.tier2_blocking }
    ∷ record { tier = 3; name = "quality"; config_blocking = λ c. c.tier3_blocking }
    ∷ []

abbrev pub put_command : ℕ → Option String → Dict ℕ String → Dict ℕ String
put_command n none commands = commands
put_command n (some v) commands = insert n v commands

-- The command of tier 2, or else that of the task.
abbrev pub or_task : Option String → String → Option String
or_task (some v) task_command = some v
or_task none task_command = if task_command == "" then none else some task_command

unfoldable pub resolve_tier_commands : TiersConfig → String → Dict ℕ String
resolve_tier_commands c task_command =
    put_command 3 c.tier3_command
      (put_command 2 (or_task c.tier2_command task_command) (put_command 1 c.tier1_command []))

-- What running a command answers; `invalid` is a CommandValidationError and `failed` any other
-- exception, with its text.
pub data CommandOutcome : Type 0 where
  ran : (success : Bool) (stdout stderr : String) → CommandOutcome
  invalid : (message : String) → CommandOutcome
  failed : (message : String) → CommandOutcome

abbrev pub outcome_success : CommandOutcome → Bool
outcome_success (ran success out err) = success
outcome_success (invalid m) = false
outcome_success (failed m) = false

abbrev pub tier_result : ℕ → String → String → Bool → Bool → String → String → TierResult
tier_result tier name command blocking success out err = record {
  tier = tier;
  name = name;
  success = success;
  blocking = blocking;
  command = command;
  stdout = out;
  stderr = err;
}

-- `timeout or self._default_timeout`
abbrev pub or_default : ℕ → ℕ → ℕ
or_default timeout default_timeout = if timeout == 0 then default_timeout else timeout

-- `text` joins the words before the message of an invalid command to it.
module _ (execute_command : String → ℕ → CommandOutcome) (text : String → String) where
  unfoldable pub run_tier : ℕ → String → String → Bool → ℕ → TierResult
  run_tier tier name command blocking timeout = elim (execute_command command timeout) [
    | ran success out err ↦ tier_result tier name command blocking success out err
    | invalid m ↦ tier_result tier name command blocking false "" (text m)
    | failed m ↦ tier_result tier name command blocking false "" m
  ]

  -- The loop over the tier definitions.
  unfoldable pub run_tiers : TiersConfig → Dict ℕ String → ℕ → List TierDefinition → List TierResult
  run_tiers c commands task_timeout [] = []
  run_tiers c commands task_timeout (d ∷ ds) =
      let rest = run_tiers c commands task_timeout ds in
      elim (lookup d.tier commands) [
        | none ↦ rest
        | some command ↦
            let timeout = if d.tier == 2 then task_timeout else c.default_timeout in
            let r =
              run_tier d.tier d.name command (d.config_blocking c)
                (or_default timeout c.default_timeout) in
            if not r.success && r.blocking then r ∷ [] else r ∷ rest
      ]

  unfoldable pub execute : TiersConfig → String → Option ℕ → List TierResult
  execute c task_command task_timeout =
      run_tiers c (resolve_tier_commands c task_command) (get_or task_timeout c.default_timeout)
        tier_definitions
