-- ===== src/Workers/Registry.antt =====
-- zerg/worker_registry.py. Its lock makes each call one step; the answer of a call is a copy.
use zerg.Common.{ℕ, not, Option, none, some, ◌==◌, nat_eq, select, length}
use zerg.Common.Dict.{Dict, lookup, insert}
use zerg.Workers.Status.{WorkerStatus, is_terminal}
use zerg.Workers.{WorkerState}

abbrev pub WorkerRegistry : Type 0
WorkerRegistry = Dict ℕ WorkerState

unfoldable pub register : ℕ → WorkerState → WorkerRegistry → WorkerRegistry
register worker_id worker r = insert worker_id worker r

-- `self._workers.pop(worker_id, None)`
unfoldable pub unregister : ℕ → WorkerRegistry → WorkerRegistry
unregister worker_id r = select (λ e. not (e.0 == worker_id)) r

-- A worker that two IDs share is not modelled.
unfoldable pub update_status : ℕ → WorkerStatus → WorkerRegistry → WorkerRegistry
update_status worker_id status r = elim (lookup worker_id r) [
  | none ↦ r
  | some w ↦ insert worker_id (record w { status = status }) r
]

unfoldable pub get : ℕ → WorkerRegistry → Option WorkerState
get worker_id r = lookup worker_id r

unfoldable pub active : WorkerRegistry → WorkerRegistry
active r = select (λ e. not (is_terminal e.1.status)) r

unfoldable pub by_level : ℕ → WorkerRegistry → WorkerRegistry
by_level level r = r

unfoldable pub size : WorkerRegistry → ℕ
size r = length r
