-- ===== src/Protocol.antt =====
-- WorkerProtocol of zerg/protocol_state.py over the shared state. Running a task, git and the
-- estimate of the context are not modelled here; the context usage is an argument.
pub mod Claiming
mod Tests
use zerg.Common.{
  ℕ, zero, suc, ◌+◌, ◌*◌, ◌/◌, Bool, true, false, Option, none, some, List, [], ◌∷◌, String,
  if◌then◌else◌, leb,
}
use zerg.Common.Dict.{Dict}
use zerg.Constants as Constants
use zerg.State.{Tasks, claim_task, get_tasks_by_status, set_task_status}
use zerg.State.LevelRepo.{LevelState, get_current_level}
use zerg.State.Log.{ExecutionState, append_event}
use zerg.Backoff.{min}
use zerg.Workers.{
  WorkerState, Workers, Fetched, absent, raised, found, get_worker_state, set_worker_state,
  set_worker_ready,
}
use zerg.Workers.Status.{WorkerStatus}

-- The parts of the state file that workers use.
pub record Shared : Type 0 where
  pub tasks : Tasks
  pub level_state : LevelState
  pub workers : Workers
  pub execution : ExecutionState

pub record Protocol : Type 0 where
  pub worker_id : ℕ
  pub branch : String
  pub worktree_path : String
  pub started_at : Option ℕ
  pub checker : Option (Dict String (List String))
  pub tasks_completed : ℕ
  pub current_task : Option String
  pub is_ready : Bool

-- The new worker where none is stored.
abbrev pub new_worker : Protocol → WorkerStatus → WorkerState
new_worker p status = record {
  worker_id = p.worker_id;
  status = status;
  current_task = none;
  port = none;
  container_id = none;
  worktree_path = some p.worktree_path;
  branch = some p.branch;
  health_check_at = none;
  started_at = p.started_at;
  ready_at = none;
  last_task_completed_at = none;
  tasks_completed = 0;
  context_usage = 0;
}

-- An entry that does not read back raises an exception: none.
abbrev pub stored_or_new : Protocol → WorkerStatus → Fetched → Option WorkerState
stored_or_new p status absent = some (new_worker p status)
stored_or_new p status raised = none
stored_or_new p status (found w) = some w

-- What `current_task` is set to: it is left, or set to a task or to none.
pub data TaskArgument : Type 0 where
  unchanged : TaskArgument
  set_to : Option String → TaskArgument

abbrev pub task_argument : TaskArgument → Option String → Option String
task_argument unchanged old = old
task_argument (set_to t) old = t

abbrev pub count_argument : Option ℕ → ℕ → ℕ
count_argument none old = old
count_argument (some n) old = n

abbrev pub updated : WorkerStatus → TaskArgument → Option ℕ → ℕ → WorkerState → WorkerState
updated status current_task tasks_completed usage w = record w {
  status = status;
  current_task = task_argument current_task w.current_task;
  tasks_completed = count_argument tasks_completed w.tasks_completed;
  context_usage = usage;
}

-- `_update_worker_state`
unfoldable pub update_worker_state :
    Protocol → WorkerStatus → TaskArgument → Option ℕ → ℕ → Shared → Option Shared
update_worker_state p status current_task tasks_completed usage s =
    elim (stored_or_new p status (get_worker_state p.worker_id s.workers)) [
      | none ↦ none
      | some w ↦ some (record s {
        workers = set_worker_state (updated status current_task tasks_completed usage w) s.workers;
      })
    ]

unfoldable pub signal_ready : Protocol → ℕ → ℕ → String → Shared → Protocol × Shared
signal_ready p now now' details s = (
  record p { is_ready = true },
  record s {
    workers = set_worker_ready p.worker_id now s.workers;
    execution = append_event "worker_ready" (some details) now' s.execution;
  },
)

-- `report_complete`, with the text of its event.
unfoldable pub report_complete :
    Protocol → String → ℕ → ℕ → String → Shared → Protocol × Option Shared
report_complete p task_id now usage details s =
    let p' : Protocol = record p { tasks_completed = p.tasks_completed + 1; current_task = none } in
    let written : Shared = record s {
      tasks =
          set_task_status task_id (Constants.value Constants.complete) (some p.worker_id) none now
            now s.tasks;
      execution = append_event "task_complete" (some details) now s.execution;
    } in
    (
      p',
      update_worker_state p' WorkerStatus.running (set_to none) (some p'.tasks_completed) usage
          written,
    )

unfoldable pub report_failed :
    Protocol → String → Option String → ℕ → ℕ → String → Shared → Protocol × Option Shared
report_failed p task_id error now usage details s =
    let p' : Protocol = record p { current_task = none } in
    let written : Shared = record s {
      tasks =
          set_task_status task_id (Constants.value Constants.failed) (some p.worker_id) error now
            now s.tasks;
      execution = append_event "task_failed" (some details) now s.execution;
    } in
    (p', update_worker_state p' WorkerStatus.running (set_to none) none usage written)

abbrev pub pause_task : Protocol → ℕ → Option String → Tasks → Tasks
pause_task p now none tasks = tasks
pause_task p now (some k) tasks =
    set_task_status k (Constants.value Constants.paused) (some p.worker_id) none now now tasks

-- `checkpoint_and_exit` after the commit, up to the exit.
unfoldable pub checkpoint : Protocol → ℕ → ℕ → String → Shared → Option Shared
checkpoint p now usage details s =
    update_worker_state p WorkerStatus.checkpointing unchanged none usage (record s {
      tasks = pause_task p now p.current_task s.tasks;
      execution = append_event "worker_checkpoint" (some details) now s.execution;
    })

-- `min(interval * 1.5, 10.0)`, in ticks, rounded down.
abbrev pub next_interval : ℕ → ℕ → ℕ
next_interval ceiling interval = min (interval * 3 / 2) ceiling

-- A round that claimed a task ends the loop, and so does one that has waited long enough.
abbrev pub after_round :
    Option String
    → Bool
    → Shared
    → Option (Option String × Shared)
    → Option (Option String × Shared)
after_round (some k) is_over s rest = some (some k, s)
after_round none is_over s rest = if is_over then some (none, s) else rest

-- `self.current_task = task`
abbrev pub remembered :
    Protocol → Option (Option String × Shared) → Option (Option String × (Protocol × Shared))
remembered p none = none
remembered p (some (none, s)) = some (none, (p, s))
remembered p (some (some k, s)) = some (some k, (record p { current_task = some k }, s))

-- `others i` is what other processes do to the state before the i-th access, `now i` the clock, and
-- `busy i` and `late i` are the ticks that a round takes besides its sleep.
module _ (p : Protocol) (others : ℕ → Shared → Shared) (now busy late : ℕ → ℕ) where
  -- The loop over the pending tasks, from the i-th access on. The current level is read from the
  -- worker's own copy of the state, before the claim loads the state again.
  unfoldable pub claim_first : ℕ → List String → Shared → Option String × (ℕ × Shared)
  claim_first i [] s = (none, (i, s))
  claim_first i (k ∷ ks) s =
      let s₁ = others i s in
      let (claims, tasks) =
        claim_task k p.worker_id (some (get_current_level s.level_state)) p.checker (now i) (now i)
          s₁.tasks in
      let s₂ : Shared = record s₁ { tasks = tasks } in
      let rest = claim_first (i + 1) ks s₂ in if claims then (some k, (i + 1, s₂)) else rest

  -- The `while` loop of `claim_next_task_async` on fuel, with the ticks since its start.
  unfoldable pub claim_loop :
      (max_wait ceiling fuel i interval elapsed : ℕ) → Shared → Option (Option String × Shared)
  claim_loop max_wait ceiling zero i interval elapsed s = none
  claim_loop max_wait ceiling (suc n) i interval elapsed s =
      let s₁ = others i s in
      let (claimed, (j, s₂)) =
        claim_first (i + 1) (get_tasks_by_status (Constants.value Constants.pending) s₁.tasks) s₁ in
      let waited = elapsed + busy i in
      let rest =
        claim_loop max_wait ceiling n j (next_interval ceiling interval)
          (waited + interval + late i) s₂ in
      after_round claimed (leb max_wait waited) s₂ rest

  -- The worker remembers the task that it claims. A round takes a tick at least, by its sleep.
  unfoldable pub claim_next_task :
      (max_wait ceiling poll_interval : ℕ) → Shared → Option (Option String × (Protocol × Shared))
  claim_next_task max_wait ceiling poll_interval s =
      remembered p (claim_loop max_wait ceiling (suc max_wait) 0 poll_interval 0 s)
