-- ===== src/CircuitBreaker/Machine.antt =====
-- What each call of zerg/circuit_breaker.py does to the circuit of each worker.
use zerg.Common.{ℕ, ◌≡◌, Bool, true, false, some, arith, ◌==◌, ◌&&◌, nat_eq, if◌then◌else◌}
use zerg.Common.Dict.{lookup, contains, lookup-insert}
use zerg.CircuitBreaker.{
  WorkerCircuit, CircuitBreaker, new_circuit, circuit_of, store, get_circuit, probe,
  can_accept_task, on_success, record_success, on_failure, record_failure, mark_half_open_task,
  reset, Call, ask, success, failure, mark, respawn, call,
}

-- `get_circuit` touches no other worker.
pub get_circuit_other :
    (w now j : ℕ) (b : CircuitBreaker)
    → (w == j) ≡ false
    → lookup j (get_circuit w now b).1.circuits ≡ lookup j b.circuits
unfolding get_circuit
get_circuit_other w now j b h = ground (arith, lookup-insert w j (circuit_of w now b) b.circuits)

-- After a replacement the worker has the new circuit, and every other worker its old one.
pub lookup-store :
    (w now j : ℕ) (c : WorkerCircuit) (b : CircuitBreaker)
    → lookup j (store (get_circuit w now b).1 w c).circuits
      ≡ (if w == j then some c else lookup j b.circuits)
lookup-store w now j c b =
    ground
      (arith, lookup-insert w j c (get_circuit w now b).1.circuits, get_circuit_other w now j b)

-- The worker that a call is about, and whether the breaker's switch guards the call.
abbrev pub worker : Call → ℕ
worker (ask w now now') = w
worker (success w now) = w
worker (failure w now) = w
worker (mark w t now) = w
worker (respawn w now) = w

-- A call's effect on the circuit of its worker; a respawn acts on a circuit that is there.
abbrev pub effect : Call → CircuitBreaker → WorkerCircuit → WorkerCircuit
effect (ask w now now') b c = (probe c.state b.cooldown now now' c).1
effect (success w now) b c = on_success now c
effect (failure w now) b c = on_failure b.failure_threshold now c
effect (mark w t now) b c = record c { half_open_task_id = some t }
effect (respawn w now) b c = new_circuit w now

abbrev pub now_of : Call → ℕ
now_of (ask w now now') = now
now_of (success w now) = now
now_of (failure w now) = now
now_of (mark w t now) = now
now_of (respawn w now) = now

-- Whether the call changes anything: the switch guards three calls, and a respawn of a worker
-- without a circuit does nothing.
abbrev pub acts : Call → CircuitBreaker → Bool
acts (mark w t now) b = true
acts (respawn w now) b = contains w b.circuits
acts _ b = b.enabled

-- The circuit of a worker after a call, from its circuit before the call.
pub lookup-call :
    (c : Call) (b : CircuitBreaker) (j : ℕ)
    → lookup j (call c b).circuits ≡ (
        if acts c b && (worker c == j)
        then some (effect c b (circuit_of (worker c) (now_of c) b))
        else lookup j b.circuits)
unfolding call can_accept_task record_success record_failure mark_half_open_task reset circuit_of
lookup-call (ask w now now') b j = ground (
  arith,
  lookup-store w now j (probe (circuit_of w now b).state b.cooldown now now' (circuit_of w now b)).1
      b,
)
lookup-call (success w now) b j =
    ground (arith, lookup-store w now j (on_success now (circuit_of w now b)) b)
lookup-call (failure w now) b j =
    ground (arith, lookup-store w now j (on_failure b.failure_threshold now (circuit_of w now b)) b)
lookup-call (mark w t now) b j =
    lookup-store w now j (record (circuit_of w now b) { half_open_task_id = some t }) b
lookup-call (respawn w now) b j = ground (arith, lookup-insert w j (new_circuit w now) b.circuits)

pub can_accept_task_lem :
    (w now now' : ℕ) (b : CircuitBreaker)
    → b.enabled ≡ true
    → (can_accept_task w now now' b).0
      ≡ (probe (circuit_of w now b).state b.cooldown now now' (circuit_of w now b)).0
unfolding can_accept_task
can_accept_task_lem w now now' b h = ground arith

pub call_config :
    (c : Call) (b : CircuitBreaker)
    → ((call c b).enabled ≡ b.enabled)
      × ((call c b).failure_threshold ≡ b.failure_threshold)
      × ((call c b).cooldown ≡ b.cooldown)
unfolding call can_accept_task record_success record_failure mark_half_open_task reset
call_config (ask w now now') b = ground arith
call_config (success w now) b = ground arith
call_config (failure w now) b = ground arith
call_config (mark w t now) b = ground arith
call_config (respawn w now) b = ground arith
