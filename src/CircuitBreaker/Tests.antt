-- ===== src/CircuitBreaker/Tests.antt =====
-- Runs of zerg/circuit_breaker.py: a threshold of 2 failures and a cool-down of 10 ticks.
use zerg.Common.{◌+◌, ◌≡◌, refl, ◌⊎◌, true, false, List, [], ◌∷◌, arith, leb, nat_eq, if◌then◌else◌}
use zerg.Common.Dict.{lookup, insert}
use zerg.CircuitBreaker.{
  closed, open_, half_open, CircuitBreaker, new_breaker, circuit_of, get_circuit, Call, ask,
  success, failure, mark, call, calls, can_accept_task, record_failure, probe, failed, on_failure,
}
use zerg.CircuitBreaker.Machine.{worker}
use zerg.CircuitBreaker.Diagram.{state_of, Edge, call-Edge}
use zerg.CircuitBreaker.Threshold.{IsValid, calls_trip, failures_of, calls_on}
use zerg.CircuitBreaker.Cooldown.{
  open_answers_by_clock, probe_exclusive, unmarked_half_open_accepts,
}

abbrev fresh : CircuitBreaker
fresh = new_breaker 2 10 true

abbrev two_failures : List Call
two_failures = failure 1 100 ∷ failure 2 101 ∷ failure 1 102 ∷ []

-- Worker 1 tripped at tick 102.
abbrev tripped : CircuitBreaker
tripped = calls two_failures fresh

abbrev probing : CircuitBreaker
probing = calls (ask 1 112 113 ∷ []) tripped

refuses_before : (can_accept_task 1 111 111 tripped).0 ≡ false
unfolding can_accept_task get_circuit circuit_of probe calls call record_failure on_failure failed
    lookup insert
refuses_before = refl

accepts_after : state_of 1 probing ≡ half_open
unfolding can_accept_task get_circuit circuit_of probe calls call record_failure on_failure failed
    lookup insert state_of
accepts_after = refl

call-Edge_example :
    (state_of 1 (call (failure 1 102) tripped) ≡ state_of 1 tripped)
    ⊎ ((worker (failure 1 102) ≡ 1)
        × Edge tripped
            (circuit_of 1 102 tripped)
            (failure 1 102)
            (state_of 1 tripped)
            (state_of 1 (call (failure 1 102) tripped)))
call-Edge_example = call-Edge (failure 1 102) tripped 1

fresh-IsValid : IsValid fresh
unfolding lookup
fresh-IsValid = record { positive = omega arith; below = λ w. tt }

calls_trip_example :
    state_of 1 (calls two_failures fresh)
    ≡ (if leb 2 (failures_of 1 fresh + calls_on 1 two_failures) then open_ else closed)
unfolding failures_of state_of lookup
calls_trip_example = calls_trip two_failures fresh 1 refl (omega arith) refl refl

open_answers_by_clock_example :
    (can_accept_task 1 112 113 (calls (success 1 105 ∷ ask 1 106 106 ∷ []) tripped)).0
    ≡ leb (102 + 10) 112
unfolding calls call record_failure on_failure failed get_circuit circuit_of lookup insert
open_answers_by_clock_example =
    open_answers_by_clock (success 1 105 ∷ ask 1 106 106 ∷ []) tripped 1 102 112 113 refl
      (refl, refl) refl

probe_exclusive_example :
    (can_accept_task 1 120 120
      (calls (ask 1 118 118 ∷ failure 2 119 ∷ []) (call (mark 1 "T1" 114) probing))).0
    ≡ false
unfolding can_accept_task get_circuit circuit_of probe calls call record_failure on_failure failed
    lookup insert state_of
probe_exclusive_example =
    probe_exclusive (ask 1 118 118 ∷ failure 2 119 ∷ []) probing 1 114 120 120 "T1" refl refl refl

unmarked_half_open_accepts_example :
    (can_accept_task 1 115 115
      (calls (failure 1 100 ∷ failure 1 102 ∷ ask 1 112 113 ∷ []) (new_breaker 2 10 true))).0
    ≡ true
unfolding can_accept_task get_circuit circuit_of probe calls call record_failure on_failure failed
    lookup insert state_of
unmarked_half_open_accepts_example =
    unmarked_half_open_accepts (failure 1 100 ∷ failure 1 102 ∷ ask 1 112 113 ∷ []) 2 10 1 115 115
      true refl refl
