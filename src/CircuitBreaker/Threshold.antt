-- ===== src/CircuitBreaker/Threshold.antt =====
-- Failures in a row and the threshold of zerg/circuit_breaker.py.
use zerg.Common.{
  ℕ, ◌+◌, ◌<◌, ◌≡◌, Bool, true, false, Option, none, some, List, [], ◌∷◌, arith, ◌==◌, ◌&&◌, ◌||◌,
  not, nat_eq, if◌then◌else◌, all, count_if, leb, one_if,
}
use zerg.Common.Dict.{lookup}
use zerg.CircuitBreaker.{
  closed, open_, WorkerCircuit, CircuitBreaker, circuit_of, Call, ask, success, failure, mark,
  respawn, call, calls, probe, on_success, on_failure,
}
use zerg.CircuitBreaker.Machine.{worker, effect, now_of, lookup-call, call_config}
use zerg.CircuitBreaker.Diagram.{state_of}

-- A closed circuit has failed fewer times in a row than the threshold.
abbrev pub IsBelow : ℕ → Option WorkerCircuit → Type 0
IsBelow threshold none = Unit
IsBelow threshold (some c) = c.state ≡ closed → c.failure_count < threshold

pub record IsValid (b : CircuitBreaker) : Type 0 where
  pub positive : 0 < b.failure_threshold
  pub below : (w : ℕ) → IsBelow b.failure_threshold (lookup w b.circuits)

circuit_of-IsBelow :
    (w now : ℕ) (b : CircuitBreaker)
    → IsValid b
    → IsBelow b.failure_threshold (some (circuit_of w now b))
unfolding circuit_of
circuit_of-IsBelow w now b v = ground (arith, v.below w)

effect-IsBelow :
    (call : Call) (b : CircuitBreaker) (c : WorkerCircuit)
    → 0 < b.failure_threshold
    → IsBelow b.failure_threshold (some c)
    → IsBelow b.failure_threshold (some (effect call b c))
unfolding probe on_success on_failure
effect-IsBelow (ask w now now') b c p h = ground arith
effect-IsBelow (success w now) b c p h = ground arith
effect-IsBelow (failure w now) b c p h = ground arith
effect-IsBelow (mark w t now) b c p h = h
effect-IsBelow (respawn w now) b c p h = λ _. p

-- Every call keeps the invariant.
pub call-IsValid : (c : Call) (b : CircuitBreaker) → IsValid b → IsValid (call c b)
call-IsValid c b v = record {
  positive = rw (call_config c b).1 v.positive;
  below = λ w. rw (call_config c b).1 (
      ground (
        arith,
        lookup-call c b w,
        v.below w,
        effect-IsBelow c b (circuit_of (worker c) (now_of c) b) v.positive
            (circuit_of-IsBelow (worker c) (now_of c) b v),
      ));
}

-- The consecutive failures that a worker's circuit has counted.
abbrev pub count_or_zero : Option WorkerCircuit → ℕ
count_or_zero none = 0
count_or_zero (some c) = c.failure_count

unfoldable pub failures_of : ℕ → CircuitBreaker → ℕ
failures_of w b = count_or_zero (lookup w b.circuits)

abbrev pub is_failure : Call → Bool
is_failure (failure w now) = true
is_failure _ = false

-- The calls on worker `w` are all failures; those on other workers are of any kind.
abbrev pub only_fails : ℕ → List Call → Bool
only_fails w = all (λ c. not (worker c == w) || is_failure c)

abbrev pub calls_on : ℕ → List Call → ℕ
calls_on w = count_if (λ c. worker c == w)

failure_step :
    (c : Call) (b : CircuitBreaker) (w : ℕ)
    → b.enabled ≡ true
    → (not (worker c == w) || is_failure c) ≡ true
    → state_of w b ≡ closed
    → (failures_of w (call c b) ≡ failures_of w b + one_if (worker c == w))
      × (state_of w (call c b) ≡ (
          if (worker c == w) && leb b.failure_threshold (failures_of w b + 1)
          then open_
          else closed))
unfolding failures_of state_of on_failure circuit_of
failure_step (failure v now) b w on only s = ground (arith, lookup-call (failure v now) b w)
failure_step (ask v now now') b w on only s = ground (arith, lookup-call (ask v now now') b w)
failure_step (success v now) b w on only s = ground (arith, lookup-call (success v now) b w)
failure_step (mark v t now) b w on only s = ground (arith, lookup-call (mark v t now) b w)
failure_step (respawn v now) b w on only s = ground (arith, lookup-call (respawn v now) b w)

open_step :
    (c : Call) (b : CircuitBreaker) (w : ℕ)
    → (not (worker c == w) || is_failure c) ≡ true
    → state_of w b ≡ open_
    → state_of w (call c b) ≡ open_
unfolding state_of on_failure circuit_of
open_step (failure v now) b w only s = ground (arith, lookup-call (failure v now) b w)
open_step (ask v now now') b w only s = ground (arith, lookup-call (ask v now now') b w)
open_step (success v now) b w only s = ground (arith, lookup-call (success v now) b w)
open_step (mark v t now) b w only s = ground (arith, lookup-call (mark v t now) b w)
open_step (respawn v now) b w only s = ground (arith, lookup-call (respawn v now) b w)

open_stays :
    (cs : List Call) (b : CircuitBreaker) (w : ℕ)
    → only_fails w cs ≡ true
    → state_of w b ≡ open_
    → state_of w (calls cs b) ≡ open_
unfolding calls
open_stays [] b w only s = s
open_stays (c ∷ cs) b w only s =
    open_stays cs (call c b) w (ground arith) (open_step c b w (ground arith) s)

-- A closed circuit whose worker only fails is open exactly when its failures in a row, those
-- before the calls and those among them, have reached the threshold.
pub calls_trip :
    (cs : List Call) (b : CircuitBreaker) (w : ℕ)
    → b.enabled ≡ true
    → failures_of w b < b.failure_threshold
    → state_of w b ≡ closed
    → only_fails w cs ≡ true
    → state_of w (calls cs b)
      ≡ (if leb b.failure_threshold (failures_of w b + calls_on w cs) then open_ else closed)
unfolding calls
calls_trip [] b w on below s only = ground arith
calls_trip (c ∷ cs) b w on below s only = ground (
  arith,
  failure_step c b w on,
  call_config c b,
  calls_trip cs (call c b) w,
  open_stays cs (call c b) w,
)
