-- ===== src/State/Log.antt =====
-- zerg/state/execution.py: the log of events, and the paused and error parts of the shared state.
-- The data of an event is a text; a missing log is an empty one.
use zerg.Common.{
  ℕ, ◌-◌, Bool, false, Option, some, List, [], ◌∷◌, ◌++◌, String, ◌==◌, nat_eq, if◌then◌else◌,
  get_or, length, drop,
}

pub record ExecutionEvent : Type 0 where
  pub timestamp : ℕ
  pub event : String
  pub data_text : String

pub record ExecutionState : Type 0 where
  pub execution_log : List ExecutionEvent
  pub paused : Option Bool
  pub error : Option String

unfoldable pub append_event : String → Option String → ℕ → ExecutionState → ExecutionState
append_event event_type details now s = record s {
  execution_log =
      s.execution_log
      ++ record { timestamp = now; event = event_type; data_text = get_or details "" } ∷ [];
}

-- `events[-limit:]`, or all of them for no limit or 0.
unfoldable pub get_events : Option ℕ → ExecutionState → List ExecutionEvent
get_events limit s =
    let n = get_or limit 0 in
    if n == 0 then s.execution_log else drop (length s.execution_log - n) s.execution_log

unfoldable pub set_paused : Bool → ExecutionState → ExecutionState
set_paused paused s = record s { paused = some paused }

unfoldable pub is_paused : ExecutionState → Bool
is_paused s = get_or s.paused false

unfoldable pub set_error : Option String → ExecutionState → ExecutionState
set_error error s = record s { error = error }

unfoldable pub get_error : ExecutionState → Option String
get_error s = s.error
