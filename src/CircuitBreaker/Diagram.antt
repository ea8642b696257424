-- ===== src/CircuitBreaker/Diagram.antt =====
-- The diagram of the circuit states of zerg/circuit_breaker.py, each edge with its call.
use zerg.Common.{
  ℕ, ◌≡◌, refl, ◌⊎◌, inl, inr, Option, none, some, arith, ◌==◌, subst, ◌&&◌, nat_eq, if◌then◌else◌,
  nat_beq_iff, ◌+◌, ◌≤◌, Bool-cases,
}
use zerg.Common.Dict.{lookup}
use zerg.CircuitBreaker.{
  CircuitState, closed, open_, half_open, WorkerCircuit, CircuitBreaker, circuit_of, Call, ask,
  success, failure, mark, respawn, call, probe, on_success, on_failure,
}
use zerg.CircuitBreaker.Machine.{worker, effect, now_of, acts, lookup-call}

-- A worker without a circuit is served as one whose circuit is closed.
abbrev pub state_or_closed : Option WorkerCircuit → CircuitState
state_or_closed none = closed
state_or_closed (some c) = c.state

unfoldable pub state_of : ℕ → CircuitBreaker → CircuitState
state_of w b = state_or_closed (lookup w b.circuits)

-- `Edge b c call s t`: the call takes the circuit `c` of the breaker `b` from `s` to `t`.
pub data Edge (b : CircuitBreaker) (c : WorkerCircuit)
    : Call → CircuitState → CircuitState → Type 0 where
  trip :
      (w now : ℕ)
      → b.failure_threshold ≤ c.failure_count + 1
      → Edge b c (failure w now) closed open_
  cool :
      (w now now' : ℕ)
      → c.last_state_change + b.cooldown ≤ now
      → Edge b c (ask w now now') open_ half_open
  recover : (w now : ℕ) → Edge b c (success w now) half_open closed
  reopen : (w now : ℕ) → Edge b c (failure w now) half_open open_
  renew : (w now : ℕ) (s : CircuitState) → Edge b c (respawn w now) s closed

effect-Edge :
    (call : Call) (b : CircuitBreaker) (c : WorkerCircuit) (s : CircuitState)
    → c.state ≡ s
    → ((effect call b c).state ≡ s) ⊎ Edge b c call s (effect call b c).state
unfolding probe on_success on_failure
effect-Edge (ask w now now') b c s h = grind (arith, cool)
effect-Edge (success w now) b c s h = grind (arith, recover)
effect-Edge (failure w now) b c s h = grind (arith, trip, reopen)
effect-Edge (mark w t now) b c s h = inl h
effect-Edge (respawn w now) b c s h = inr (renew w now s)

state_of-circuit_of : (w now : ℕ) (b : CircuitBreaker) → (circuit_of w now b).state ≡ state_of w b
unfolding circuit_of state_of
state_of-circuit_of w now b = ground arith

pub state_of-call :
    (c : Call) (b : CircuitBreaker) (w : ℕ)
    → state_of w (call c b) ≡ (
        if acts c b && (worker c == w)
        then (effect c b (circuit_of (worker c) (now_of c) b)).state
        else state_of w b)
unfolding state_of
state_of-call c b w = ground (arith, lookup-call c b w)

own_Edge :
    (c : Call) (b : CircuitBreaker)
    → (state_of (worker c) (call c b) ≡ state_of (worker c) b)
      ⊎ Edge b
          (circuit_of (worker c) (now_of c) b)
          c
          (state_of (worker c) b)
          (state_of (worker c) (call c b))
own_Edge c b = elim (Bool-cases (acts c b && (worker c == worker c))) [
  | inl e ↦
      let after = rw e at (state_of-call c b (worker c)) in
      rw after (
        effect-Edge c b (circuit_of (worker c) (now_of c) b) (state_of (worker c) b)
          (state_of-circuit_of (worker c) (now_of c) b))
  | inr e ↦ inl (rw e at (state_of-call c b (worker c)))
]

-- Every call, on every breaker: a circuit keeps its state, or the call was about its worker and
-- took an edge of the diagram, with the condition of the edge.
pub call-Edge :
    (c : Call) (b : CircuitBreaker) (w : ℕ)
    → (state_of w (call c b) ≡ state_of w b)
      ⊎ ((worker c ≡ w)
          × Edge b (circuit_of w (now_of c) b) c (state_of w b) (state_of w (call c b)))
call-Edge c b w = elim (Bool-cases (worker c == w)) [
  | inl e ↦
      let same = (nat_beq_iff (worker c) w).0 e in
      subst
        (λ j.
          (state_of j (call c b) ≡ state_of j b)
          ⊎ ((worker c ≡ j)
              × Edge b (circuit_of j (now_of c) b) c (state_of j b) (state_of j (call c b))))
        same (elim (own_Edge c b) [ inl kept ↦ inl kept | inr edge ↦ inr (refl, edge) ])
  | inr e ↦ inl (ground (arith, state_of-call c b w))
]
