-- ===== src/CircuitBreaker.antt =====
-- zerg/circuit_breaker.py: a circuit per worker, CLOSED, OPEN or HALF_OPEN. A method takes the
-- breaker and the readings of `time.monotonic()` that it makes, and returns the new breaker.
-- Times and the cool-down are counted in clock ticks.
pub mod Machine
pub mod Diagram
pub mod Threshold
pub mod Cooldown
mod Tests
use zerg.Common.{
  ℕ, ◌+◌, Bool, true, false, Option, none, some, List, String, leb, not, is_none, if◌then◌else◌,
  nat_eq, [], ◌∷◌,
}
use zerg.Common.Dict.{Dict, lookup, insert, contains}

pub data CircuitState : Type 0 where
  closed open_ half_open : CircuitState

pub record WorkerCircuit : Type 0 where
  pub worker_id : ℕ
  pub state : CircuitState
  pub failure_count : ℕ
  pub success_count : ℕ
  pub last_failure_time : Option ℕ
  pub last_state_change : ℕ
  pub half_open_task_id : Option String

pub record CircuitBreaker : Type 0 where
  pub failure_threshold : ℕ
  pub cooldown : ℕ
  pub enabled : Bool
  pub circuits : Dict ℕ WorkerCircuit

-- `WorkerCircuit(worker_id=worker_id)`; the default of `last_state_change` reads the clock.
abbrev pub new_circuit : ℕ → ℕ → WorkerCircuit
new_circuit worker_id now = record {
  worker_id = worker_id;
  state = closed;
  failure_count = 0;
  success_count = 0;
  last_failure_time = none;
  last_state_change = now;
  half_open_task_id = none;
}

-- The circuit that `get_circuit` returns: the stored one, or a new one.
abbrev pub circuit_or_new : ℕ → ℕ → Option WorkerCircuit → WorkerCircuit
circuit_or_new worker_id now none = new_circuit worker_id now
circuit_or_new worker_id now (some c) = c

unfoldable pub circuit_of : ℕ → ℕ → CircuitBreaker → WorkerCircuit
circuit_of worker_id now b = circuit_or_new worker_id now (lookup worker_id b.circuits)

abbrev pub store : CircuitBreaker → ℕ → WorkerCircuit → CircuitBreaker
store b worker_id c = record b { circuits = insert worker_id c b.circuits }

unfoldable pub get_circuit : ℕ → ℕ → CircuitBreaker → WorkerCircuit × CircuitBreaker
unfolding circuit_of
get_circuit worker_id now b =
    let c = circuit_of worker_id now b in
    (c, if contains worker_id b.circuits then b else store b worker_id c)

-- What `can_accept_task` answers for a circuit, and the circuit that it leaves.
unfoldable pub probe : CircuitState → ℕ → ℕ → ℕ → WorkerCircuit → Bool × WorkerCircuit
probe closed cooldown now now' c = (true, c)
probe open_ cooldown now now' c =
    if leb (c.last_state_change + cooldown) now
    then (true, record c { state = half_open; last_state_change = now' })
    else (false, c)
probe half_open cooldown now now' c = (is_none c.half_open_task_id, c)

unfoldable pub can_accept_task : ℕ → ℕ → ℕ → CircuitBreaker → Bool × CircuitBreaker
unfolding get_circuit probe
can_accept_task worker_id now now' b =
    if not b.enabled
    then (true, b)
    else let (c, b') = get_circuit worker_id now b in
      let (answer, c') = probe c.state b.cooldown now now' c in (answer, store b' worker_id c')

unfoldable pub succeeded : CircuitState → ℕ → WorkerCircuit → WorkerCircuit
succeeded half_open now c = record c {
  state = closed;
  last_state_change = now;
  half_open_task_id = none;
}
succeeded closed now c = c
succeeded open_ now c = c

-- The whole of `record_success` on the worker's circuit.
unfoldable pub on_success : ℕ → WorkerCircuit → WorkerCircuit
unfolding succeeded
on_success now c =
    succeeded c.state now (record c { success_count = c.success_count + 1; failure_count = 0 })

unfoldable pub record_success : ℕ → ℕ → CircuitBreaker → CircuitBreaker
unfolding get_circuit on_success
record_success worker_id now b =
    if not b.enabled
    then b
    else let (c, b') = get_circuit worker_id now b in store b' worker_id (on_success now c)

unfoldable pub failed : CircuitState → ℕ → ℕ → WorkerCircuit → WorkerCircuit
failed half_open threshold now c = record c {
  state = open_;
  last_state_change = now;
  half_open_task_id = none;
}
failed closed threshold now c =
    if leb threshold c.failure_count then record c { state = open_; last_state_change = now } else c
failed open_ threshold now c = c

-- The whole of `record_failure` on the worker's circuit.
unfoldable pub on_failure : ℕ → ℕ → WorkerCircuit → WorkerCircuit
unfolding failed
on_failure threshold now c =
    failed c.state threshold now
      (record c { failure_count = c.failure_count + 1; last_failure_time = some now })

unfoldable pub record_failure : ℕ → ℕ → CircuitBreaker → CircuitBreaker
unfolding get_circuit on_failure
record_failure worker_id now b =
    if not b.enabled
    then b
    else let (c, b') = get_circuit worker_id now b in
      store b' worker_id (on_failure b.failure_threshold now c)

unfoldable pub mark_half_open_task : ℕ → String → ℕ → CircuitBreaker → CircuitBreaker
unfolding get_circuit
mark_half_open_task worker_id task_id now b =
    let (c, b') = get_circuit worker_id now b in
    store b' worker_id (record c { half_open_task_id = some task_id })

unfoldable pub reset : ℕ → ℕ → CircuitBreaker → CircuitBreaker
reset worker_id now b =
    if contains worker_id b.circuits then store b worker_id (new_circuit worker_id now) else b

-- `CircuitBreaker.__init__`
abbrev pub new_breaker : ℕ → ℕ → Bool → CircuitBreaker
new_breaker threshold cooldown enabled = record {
  failure_threshold = threshold;
  cooldown = cooldown;
  enabled = enabled;
  circuits = [];
}

-- The calls that an orchestrator makes, each with the clock readings of that call.
pub data Call : Type 0 where
  ask : (worker_id now now' : ℕ) → Call
  success : (worker_id now : ℕ) → Call
  failure : (worker_id now : ℕ) → Call
  mark : (worker_id : ℕ) (task_id : String) (now : ℕ) → Call
  respawn : (worker_id now : ℕ) → Call

unfoldable pub call : Call → CircuitBreaker → CircuitBreaker
call (ask w now now') b = (can_accept_task w now now' b).1
call (success w now) b = record_success w now b
call (failure w now) b = record_failure w now b
call (mark w t now) b = mark_half_open_task w t now b
call (respawn w now) b = reset w now b

unfoldable pub calls : List Call → CircuitBreaker → CircuitBreaker
calls [] b = b
calls (c ∷ cs) b = calls cs (call c b)
