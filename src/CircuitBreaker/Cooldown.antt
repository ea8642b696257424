-- ===== src/CircuitBreaker/Cooldown.antt =====
-- How long an open circuit refuses tasks, and what a half-open one lets through.
use zerg.Common.{
  ℕ, ◌+◌, ◌≡◌, refl, Bool, true, false, Option, none, some, List, [], ◌∷◌, arith, ◌==◌, ◌||◌, not,
  subst, sym, ◌∙◌, nat_eq, all, leb, ltb, String, is_none,
}
use zerg.Common.Dict.{lookup}
use zerg.CircuitBreaker.{
  open_, half_open, WorkerCircuit, CircuitBreaker, new_breaker, circuit_of, Call, ask, success,
  failure, mark, respawn, call, calls, probe, on_success, on_failure, can_accept_task,
}
use zerg.CircuitBreaker.Machine.{lookup-call, call_config, can_accept_task_lem}
use zerg.CircuitBreaker.Diagram.{state_of}

-- The circuit of `w` is open since `since`.
abbrev pub IsOpenSince : ℕ → Option WorkerCircuit → Type 0
IsOpenSince since none = ⊥
IsOpenSince since (some c) = (c.state ≡ open_) × (c.last_state_change ≡ since)

-- A call that leaves an open circuit of `w` alone: on another worker, or on `w` a result, a mark,
-- or a question before the time `deadline`.
abbrev pub is_early : ℕ → ℕ → Call → Bool
is_early w deadline (ask v now now') = not (v == w) || ltb now deadline
is_early w deadline (success v now) = true
is_early w deadline (failure v now) = true
is_early w deadline (mark v t now) = true
is_early w deadline (respawn v now) = not (v == w)

early_step :
    (c : Call) (b : CircuitBreaker) (w since : ℕ)
    → IsOpenSince since (lookup w b.circuits)
    → is_early w (since + b.cooldown) c ≡ true
    → IsOpenSince since (lookup w (call c b).circuits)
unfolding probe on_success on_failure circuit_of
early_step (ask v now now') b w since h e = ground (arith, lookup-call (ask v now now') b w)
early_step (success v now) b w since h e = ground (arith, lookup-call (success v now) b w)
early_step (failure v now) b w since h e = ground (arith, lookup-call (failure v now) b w)
early_step (mark v t now) b w since h e = ground (arith, lookup-call (mark v t now) b w)
early_step (respawn v now) b w since h e = ground (arith, lookup-call (respawn v now) b w)

early_calls :
    (cs : List Call) (b : CircuitBreaker) (w since : ℕ)
    → IsOpenSince since (lookup w b.circuits)
    → all (is_early w (since + b.cooldown)) cs ≡ true
    → IsOpenSince since (lookup w (calls cs b).circuits)
      × ((calls cs b).cooldown ≡ b.cooldown)
      × ((calls cs b).enabled ≡ b.enabled)
unfolding calls
early_calls [] b w since h e = (h, refl, refl)
early_calls (c ∷ cs) b w since h e =
    let head : is_early w (since + b.cooldown) c ≡ true = ground arith in
    let tail : all (is_early w (since + b.cooldown)) cs ≡ true = ground arith in
    let config = call_config c b in
    let rest =
      early_calls cs (call c b) w since (early_step c b w since h head)
        (subst (λ k. all (is_early w (since + k)) cs ≡ true) (sym config.2) tail) in
    (rest.0, rest.1 ∙ config.2, rest.2 ∙ config.0)

-- A circuit that opened at `since` answers the next question by the clock alone: no result, mark
-- or earlier question in between, on any worker, shortens or extends the cool-down.
pub open_answers_by_clock :
    (cs : List Call) (b : CircuitBreaker) (w since now now' : ℕ)
    → b.enabled ≡ true
    → IsOpenSince since (lookup w b.circuits)
    → all (is_early w (since + b.cooldown)) cs ≡ true
    → (can_accept_task w now now' (calls cs b)).0 ≡ leb (since + b.cooldown) now
unfolding circuit_of probe
open_answers_by_clock cs b w since now now' on h e =
    ground (arith, early_calls cs b w since h e, can_accept_task_lem w now now' (calls cs b))

-- A call that does not end the probe of `w`: anything on another worker, and on `w` questions
-- and marks.
abbrev pub keeps_probe : ℕ → Call → Bool
keeps_probe w (ask v now now') = true
keeps_probe w (success v now) = not (v == w)
keeps_probe w (failure v now) = not (v == w)
keeps_probe w (mark v t now) = true
keeps_probe w (respawn v now) = not (v == w)

abbrev pub IsProbing : Option WorkerCircuit → Type 0
IsProbing none = ⊥
IsProbing (some c) = (c.state ≡ half_open) × (is_none c.half_open_task_id ≡ false)

IsProbing-step :
    (c : Call) (b : CircuitBreaker) (w : ℕ)
    → IsProbing (lookup w b.circuits)
    → keeps_probe w c ≡ true
    → IsProbing (lookup w (call c b).circuits)
unfolding probe on_success on_failure circuit_of
IsProbing-step (ask v now now') b w h e = ground (arith, lookup-call (ask v now now') b w)
IsProbing-step (success v now) b w h e = ground (arith, lookup-call (success v now) b w)
IsProbing-step (failure v now) b w h e = ground (arith, lookup-call (failure v now) b w)
IsProbing-step (mark v t now) b w h e = ground (arith, lookup-call (mark v t now) b w)
IsProbing-step (respawn v now) b w h e = ground (arith, lookup-call (respawn v now) b w)

IsProbing-calls :
    (cs : List Call) (b : CircuitBreaker) (w : ℕ)
    → IsProbing (lookup w b.circuits)
    → all (keeps_probe w) cs ≡ true
    → IsProbing (lookup w (calls cs b).circuits) × ((calls cs b).enabled ≡ b.enabled)
unfolding calls
IsProbing-calls [] b w h e = (h, refl)
IsProbing-calls (c ∷ cs) b w h e =
    let rest =
      IsProbing-calls cs (call c b) w (IsProbing-step c b w h (ground arith)) (ground arith) in
    (rest.0, rest.1 ∙ (call_config c b).0)

mark-IsProbing :
    (b : CircuitBreaker) (w now : ℕ) (t : String)
    → state_of w b ≡ half_open
    → IsProbing (lookup w (call (mark w t now) b).circuits)
unfolding circuit_of state_of
mark-IsProbing b w now t h = ground (arith, lookup-call (mark w t now) b w)

refuses_while_probing :
    (b : CircuitBreaker) (w now now' : ℕ)
    → b.enabled ≡ true
    → IsProbing (lookup w b.circuits)
    → (can_accept_task w now now' b).0 ≡ false
unfolding circuit_of probe
refuses_while_probing b w now now' on h = ground (arith, can_accept_task_lem w now now' b)

-- Once a task is marked as the probe of a half-open circuit, no further task is let through to
-- that worker until a result or a respawn of the worker is recorded.
pub probe_exclusive :
    (cs : List Call) (b : CircuitBreaker) (w marked now now' : ℕ) (t : String)
    → b.enabled ≡ true
    → state_of w b ≡ half_open
    → all (keeps_probe w) cs ≡ true
    → (can_accept_task w now now' (calls cs (call (mark w t marked) b))).0 ≡ false
probe_exclusive cs b w marked now now' t on h e =
    let b' = call (mark w t marked) b in
    let (probing, config) = IsProbing-calls cs b' w (mark-IsProbing b w marked t h) e in
    refuses_while_probing (calls cs b') w now now'
      (config ∙ (call_config (mark w t marked) b).0 ∙ on) probing

abbrev pub is_mark : Call → Bool
is_mark (mark v t now) = true
is_mark _ = false

abbrev pub IsUnmarked : Option WorkerCircuit → Type 0
IsUnmarked none = Unit
IsUnmarked (some c) = is_none c.half_open_task_id ≡ true

IsUnmarked-step :
    (c : Call) (b : CircuitBreaker) (w : ℕ)
    → IsUnmarked (lookup w b.circuits)
    → is_mark c ≡ false
    → IsUnmarked (lookup w (call c b).circuits)
unfolding probe on_success on_failure circuit_of
IsUnmarked-step (ask v now now') b w h e = ground (arith, lookup-call (ask v now now') b w)
IsUnmarked-step (success v now) b w h e = ground (arith, lookup-call (success v now) b w)
IsUnmarked-step (failure v now) b w h e = ground (arith, lookup-call (failure v now) b w)
IsUnmarked-step (mark v t now) b w h e = cc
IsUnmarked-step (respawn v now) b w h e = ground (arith, lookup-call (respawn v now) b w)

IsUnmarked-calls :
    (cs : List Call) (b : CircuitBreaker) (w : ℕ)
    → IsUnmarked (lookup w b.circuits)
    → all (λ c. not (is_mark c)) cs ≡ true
    → IsUnmarked (lookup w (calls cs b).circuits)
unfolding calls
IsUnmarked-calls [] b w h e = h
IsUnmarked-calls (c ∷ cs) b w h e =
    IsUnmarked-calls cs (call c b) w (IsUnmarked-step c b w h (ground arith)) (ground arith)

accepts_unmarked :
    (b : CircuitBreaker) (w now now' : ℕ)
    → state_of w b ≡ half_open
    → IsUnmarked (lookup w b.circuits)
    → (can_accept_task w now now' b).0 ≡ true
unfolding circuit_of probe state_of can_accept_task
accepts_unmarked b w now now' h u = ground arith

-- From a new breaker and with no call of `mark_half_open_task`, a half-open circuit lets every
-- task through, whatever questions and results came before.
pub unmarked_half_open_accepts :
    (cs : List Call) (threshold cooldown w now now' : ℕ) (enabled : Bool)
    → all (λ c. not (is_mark c)) cs ≡ true
    → state_of w (calls cs (new_breaker threshold cooldown enabled)) ≡ half_open
    → (can_accept_task w now now' (calls cs (new_breaker threshold cooldown enabled))).0 ≡ true
unmarked_half_open_accepts cs threshold cooldown w now now' enabled e h =
    accepts_unmarked (calls cs (new_breaker threshold cooldown enabled)) w now now' h
      (IsUnmarked-calls cs (new_breaker threshold cooldown enabled) w (unfold lookup in tt) e)
