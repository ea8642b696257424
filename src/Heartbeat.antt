-- ===== src/Heartbeat.antt =====
-- zerg/heartbeat.py. The files are a dictionary from the number of a worker to the heartbeat that
-- its file holds, without those that do not read; a write may fail, which the source only logs. A
-- timestamp is a number of ticks, or none where its text is no timestamp.
pub mod Stalled
mod Tests
use zerg.Common.{
  ℕ, zero, suc, ◌+◌, ◌-◌, Bool, true, false, not, Option, none, some, List, [], ◌∷◌, String, ◌==◌,
  nat_eq, string_eq, if◌then◌else◌, get_or, select, map, ltb, is_empty,
}
use zerg.Common.Dict.{Dict, lookup, insert}
use zerg.Common.Int.{ℤ, pos, negsuc}

pub record Heartbeat : Type 0 where
  pub worker_id : ℕ
  pub timestamp : Option ℕ
  pub task_id : Option String
  pub step : String
  pub progress_pct : ℕ
  pub current_step : Option ℕ
  pub total_steps : Option ℕ
  pub step_states : List String

pub data Indicator : Type 0 where
  completed in_progress failed waiting : Indicator

abbrev pub indicator_of : String → Indicator
indicator_of state =
    if state == "completed"
    then completed
    else if state == "in_progress"
    then in_progress
    else if state == "failed"
    then failed
    else waiting

-- The indicators of the steps from `i` on, where no states are given.
unfoldable pub indicators_from : ℕ → ℕ → ℕ → List Indicator
indicators_from zero i current = []
indicators_from (suc n) i current =
    let rest = indicators_from n (i + 1) current in
    (if ltb i current then completed else if i == current then in_progress else waiting) ∷ rest

abbrev pub indicators : List String → ℕ → ℕ → List Indicator
indicators [] current total = indicators_from total 1 current
indicators (s ∷ ss) current total = map indicator_of (s ∷ ss)

-- `get_step_progress_display`: the numbers and the indicators of the text.
unfoldable pub get_step_progress_display : Heartbeat → Option (ℕ × (ℕ × List Indicator))
get_step_progress_display h = elim h.current_step [
  | none ↦ none
  | some current ↦ elim h.total_steps [
    | none ↦ none
    | some total ↦ some (current, (total, indicators h.step_states current total))
  ]
]

-- `Heartbeat.is_stale`; a timestamp in the future is not stale.
unfoldable pub is_stale : ℕ → ℕ → Heartbeat → Bool
is_stale timeout now h = elim h.timestamp [ none ↦ true | some t ↦ ltb timeout (now - t) ]

-- `max(0, min(100, progress_pct))`
abbrev pub clamped : ℤ → ℕ
clamped (pos n) = if ltb 100 n then 100 else n
clamped (negsuc n) = 0

abbrev pub Files : Type 0
Files = Dict ℕ Heartbeat

-- `HeartbeatWriter.write`
unfoldable pub write :
    Bool
    → ℕ
    → ℕ
    → Option String
    → String
    → ℤ
    → Option ℕ
    → Option ℕ
    → List String
    → Files
    → Heartbeat × Files
write can_write worker_id now task_id step progress current_step total_steps step_states files =
    let h : Heartbeat = record {
      worker_id = worker_id;
      timestamp = some now;
      task_id = task_id;
      step = step;
      progress_pct = clamped progress;
      current_step = current_step;
      total_steps = total_steps;
      step_states = step_states;
    } in
    (h, if can_write then insert worker_id h files else files)

-- `HeartbeatWriter.cleanup`
unfoldable pub cleanup : ℕ → Files → Files
cleanup worker_id files = select (λ e. not (e.0 == worker_id)) files

unfoldable pub read : ℕ → Files → Option Heartbeat
read worker_id files = lookup worker_id files

-- `check_stale`, with the timeout of the monitor where none is given.
unfoldable pub check_stale : ℕ → ℕ → ℕ → Option ℕ → Files → Bool
check_stale own_timeout now worker_id timeout files = elim (read worker_id files) [
  | none ↦ true
  | some h ↦ is_stale (get_or timeout own_timeout) now h
]

unfoldable pub get_stalled_workers : ℕ → ℕ → List ℕ → Option ℕ → Files → List ℕ
get_stalled_workers own_timeout now worker_ids timeout files =
    select (λ w. check_stale own_timeout now w (some (get_or timeout own_timeout)) files) worker_ids
