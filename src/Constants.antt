-- ===== src/Constants.antt =====
-- zerg/constants.py: the enumerations, with the strings that stand for them in state files.
use zerg.Common.{ℕ, zero, suc, String, Option, none, some}

pub data Level : Type 0 where
  foundation core integration commands quality : Level

-- `Level(n)`: the member with this number, or a ValueError.
abbrev pub level_enum : ℕ → Option Level
level_enum zero = none
level_enum (suc zero) = some foundation
level_enum (suc (suc zero)) = some core
level_enum (suc (suc (suc zero))) = some integration
level_enum (suc (suc (suc (suc zero)))) = some commands
level_enum (suc (suc (suc (suc (suc zero))))) = some quality
level_enum (suc (suc (suc (suc (suc (suc n)))))) = none

-- `LEVEL_NAMES`
abbrev pub level_name : Level → String
level_name foundation = "foundation"
level_name core = "core"
level_name integration = "integration"
level_name commands = "commands"
level_name quality = "quality"

pub data TaskStatus : Type 0 where
  todo pending claimed in_progress verifying complete failed blocked paused : TaskStatus

-- `TaskStatus.value`
abbrev pub value : TaskStatus → String
value todo = "todo"
value pending = "pending"
value claimed = "claimed"
value in_progress = "in_progress"
value verifying = "verifying"
value complete = "complete"
value failed = "failed"
value blocked = "blocked"
value paused = "paused"
