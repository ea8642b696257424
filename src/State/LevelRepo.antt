-- ===== src/State/LevelRepo.antt =====
-- zerg/state/level_repo.py over the "current_level" and "levels" parts of the shared state, and
-- LevelMergeStatus of zerg/constants.py. The key of a stored level is the text of its number, and
-- is kept as the number; a missing "levels" entry is an empty dictionary.
use zerg.Common.{
  ℕ, ◌≡◌, refl, Option, none, some, List, [], ◌∷◌, String, ◌==◌, nat_eq, string_eq, if◌then◌else◌,
  get_or, arith,
}
use zerg.Common.Dict.{Dict, lookup, insert, lookup-insert}

pub data LevelMergeStatus : Type 0 where
  pending waiting collecting merging validating rebasing complete conflict failed : LevelMergeStatus

-- `LevelMergeStatus.value`
abbrev pub merge_value : LevelMergeStatus → String
merge_value pending = "pending"
merge_value waiting = "waiting"
merge_value collecting = "collecting"
merge_value merging = "merging"
merge_value validating = "validating"
merge_value rebasing = "rebasing"
merge_value complete = "complete"
merge_value conflict = "conflict"
merge_value failed = "failed"

abbrev pub merge_members : List LevelMergeStatus
merge_members =
    pending ∷ waiting ∷ collecting ∷ merging ∷ validating ∷ rebasing ∷ complete ∷ conflict ∷ failed
    ∷ []

abbrev pub with_merge_value : String → List LevelMergeStatus → Option LevelMergeStatus
with_merge_value v [] = none
with_merge_value v (s ∷ ss) = if merge_value s == v then some s else with_merge_value v ss

-- The dictionary of a level; merge_details is the text that was passed.
pub record StoredLevel : Type 0 where
  pub status : Option String
  pub updated_at : Option ℕ
  pub merge_commit : Option String
  pub started_at : Option ℕ
  pub completed_at : Option ℕ
  pub merge_status : Option String
  pub merge_updated_at : Option ℕ
  pub merge_details : Option String
  pub merge_completed_at : Option ℕ

abbrev pub no_level : StoredLevel
no_level = record {
  status = none;
  updated_at = none;
  merge_commit = none;
  started_at = none;
  completed_at = none;
  merge_status = none;
  merge_updated_at = none;
  merge_details = none;
  merge_completed_at = none;
}

pub record LevelState : Type 0 where
  pub current_level : Option ℕ
  pub levels : Dict ℕ StoredLevel

unfoldable pub set_current_level : ℕ → LevelState → LevelState
set_current_level level s = record s { current_level = some level }

unfoldable pub get_current_level : LevelState → ℕ
get_current_level s = get_or s.current_level 0

abbrev pub level_state : ℕ → LevelState → StoredLevel
level_state level s = get_or (lookup level s.levels) no_level

-- `if merge_commit:`
abbrev pub set_commit : Option String → StoredLevel → StoredLevel
set_commit none l = l
set_commit (some c) l = if c == "" then l else record l { merge_commit = some c }

-- The dictionary of the level after `set_level_status`. `clock` answers the readings of the clock, in
-- the order of the code.
abbrev pub stated_level : String → Option String → (ℕ → ℕ) → StoredLevel → StoredLevel
stated_level status merge_commit clock l =
    let stated : StoredLevel = record l { status = some status; updated_at = some (clock 0) } in
    let committed = set_commit merge_commit stated in
    let started =
      if status == "running" then record committed { started_at = some (clock 1) } else committed in
    if status == "complete" then record started { completed_at = some (clock 1) } else started

unfoldable pub set_level_status : ℕ → String → Option String → (ℕ → ℕ) → LevelState → LevelState
set_level_status level status merge_commit clock s = record s {
  levels = insert level (stated_level status merge_commit clock (level_state level s)) s.levels;
}

unfoldable pub get_level_status : ℕ → LevelState → Option StoredLevel
get_level_status level s = lookup level s.levels

pub data MergeAnswer : Type 0 where
  unset : MergeAnswer
  no_member : MergeAnswer
  merge : LevelMergeStatus → MergeAnswer

abbrev pub merge_answer : Option LevelMergeStatus → MergeAnswer
merge_answer none = no_member
merge_answer (some m) = merge m

-- `no_member` is the ValueError of `LevelMergeStatus(v)`.
unfoldable pub get_level_merge_status : ℕ → LevelState → MergeAnswer
get_level_merge_status level s = elim (level_state level s).merge_status [
  | none ↦ unset
  | some v ↦ if v == "" then unset else merge_answer (with_merge_value v merge_members)
]

-- `if details:`; an empty dictionary is none.
abbrev pub set_details : Option String → StoredLevel → StoredLevel
set_details none l = l
set_details (some d) l = record l { merge_details = some d }

-- The dictionary of the level after `set_level_merge_status`.
abbrev pub merged_level : LevelMergeStatus → Option String → (ℕ → ℕ) → StoredLevel → StoredLevel
merged_level status details clock l =
    let detailed =
      set_details details (record l {
        merge_status = some (merge_value status);
        merge_updated_at = some (clock 0);
      }) in
    if merge_value status == "complete"
    then record detailed { merge_completed_at = some (clock 1) }
    else detailed

unfoldable pub set_level_merge_status :
    ℕ → LevelMergeStatus → Option String → (ℕ → ℕ) → LevelState → LevelState
set_level_merge_status level status details clock s = record s {
  levels = insert level (merged_level status details clock (level_state level s)) s.levels;
}

merged_level_status :
    (m : LevelMergeStatus) (details : Option String) (clock : ℕ → ℕ) (l : StoredLevel)
    → (merged_level m details clock l).merge_status ≡ some (merge_value m)
merged_level_status m none clock l = ground arith
merged_level_status m (some d) clock l = ground arith

read_back :
    (m : LevelMergeStatus)
    → (if merge_value m == ""
        then unset
        else merge_answer (with_merge_value (merge_value m) merge_members))
      ≡ merge m
read_back pending = refl
read_back waiting = refl
read_back collecting = refl
read_back merging = refl
read_back validating = refl
read_back rebasing = refl
read_back complete = refl
read_back conflict = refl
read_back failed = refl

-- A merge status that is set reads back, and the merge status of every other level as before.
pub get_level_merge_status-set_level_merge_status :
    (level k : ℕ) (m : LevelMergeStatus) (details : Option String) (clock : ℕ → ℕ) (s : LevelState)
    → get_level_merge_status k (set_level_merge_status level m details clock s)
      ≡ (if level == k then merge m else get_level_merge_status k s)
unfolding get_level_merge_status set_level_merge_status
get_level_merge_status-set_level_merge_status level k m details clock s =
    let l = merged_level m details clock (level_state level s) in
    ground (
      arith,
      lookup-insert level k l s.levels,
      merged_level_status m details clock (level_state level s),
      read_back m,
    )
