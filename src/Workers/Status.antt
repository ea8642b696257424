-- ===== src/Workers/Status.antt =====
-- `WorkerStatus` of zerg/constants.py.
use zerg.Common.{
  String, ◌==◌, string_eq, Option, none, some, Bool, true, false, ◌≡◌, refl, if◌then◌else◌, List,
  [], ◌∷◌,
}

pub data WorkerStatus : Type 0 where
  initializing ready running idle checkpointing stopping stopped crashed blocked stalled :
      WorkerStatus

-- `WorkerStatus.value`
abbrev pub value : WorkerStatus → String
value initializing = "initializing"
value ready = "ready"
value running = "running"
value idle = "idle"
value checkpointing = "checkpointing"
value stopping = "stopping"
value stopped = "stopped"
value crashed = "crashed"
value blocked = "blocked"
value stalled = "stalled"

abbrev pub members : List WorkerStatus
members =
    initializing ∷ ready ∷ running ∷ idle ∷ checkpointing ∷ stopping ∷ stopped ∷ crashed ∷ blocked
    ∷ stalled ∷ []

abbrev pub with_value : String → List WorkerStatus → Option WorkerStatus
with_value v [] = none
with_value v (s ∷ ss) = if value s == v then some s else with_value v ss

-- `WorkerStatus(v)`, or a ValueError.
abbrev pub worker_status : String → Option WorkerStatus
worker_status v = with_value v members

pub worker_status-value : (s : WorkerStatus) → worker_status (value s) ≡ some s
worker_status-value initializing = refl
worker_status-value ready = refl
worker_status-value running = refl
worker_status-value idle = refl
worker_status-value checkpointing = refl
worker_status-value stopping = refl
worker_status-value stopped = refl
worker_status-value crashed = refl
worker_status-value blocked = refl
worker_status-value stalled = refl

-- The statuses that end a worker.
abbrev pub is_terminal : WorkerStatus → Bool
is_terminal stopped = true
is_terminal crashed = true
is_terminal s = false
