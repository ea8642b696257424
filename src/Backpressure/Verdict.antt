-- ===== src/Backpressure/Verdict.antt =====
-- The answers of the controller of zerg/backpressure.py, told from the history of its calls. The
-- docstrings say that the failure rate exceeds the threshold; the code, and so what is stated here,
-- also pauses where it is equal.
use zerg.Common.{
  ℕ, ◌≡◌, refl, Bool, true, not, ◌&&◌, List, arith, leb, length, nat_eq, sym, subst, ◌≤◌,
}
use zerg.Common.Dict.{lookup}
use zerg.Backpressure.{Controller, exceeds, should_pause, is_paused, new_controller, Event, run}
use zerg.Backpressure.Window.{last, last-nil, length-last-le}
use zerg.Backpressure.History.{Level, unseen, history, Shows, seen, returned, run-Shows}

new-Shows :
    (num den size l : ℕ) (enabled : Bool)
    → Shows size (seen l (new_controller num den size enabled)) unseen
unfolding seen lookup
new-Shows num den size l enabled = ground (arith, last-nil size)

-- The verdict on a level, told from its whole history.
abbrev pub verdict : ℕ → ℕ → ℕ → Level → Bool
verdict num den size v =
    not v.paused
    && (leb 3 (length (last size v.outcomes)) && exceeds num den (last size v.outcomes))

should_pause-verdict :
    (l num den size : ℕ) (b : Controller) (v : Level)
    → b.enabled ≡ true
    → b.threshold_num ≡ num
    → b.threshold_den ≡ den
    → Shows size (seen l b) v
    → (should_pause l b).0 ≡ verdict num den size v
unfolding should_pause
should_pause-verdict l num den size b v on n d h = ground (arith, returned l b)

-- After any calls on a new, enabled controller, `should_pause` answers for each level what its
-- history says: not while a pause is in force, and else exactly when, among the last
-- `window_size` outcomes since the level was last registered or resumed, there are at least three
-- and the failures reach the threshold fraction, equality included.
pub should_pause-run :
    (es : List Event) (num den size l : ℕ)
    → (should_pause l (run es (new_controller num den size true))).0
      ≡ verdict num den size (history l es)
should_pause-run es num den size l =
    let b = new_controller num den size true in
    let rest = run-Shows es b l unseen refl (new-Shows num den size l true) in
    should_pause-verdict l num den size (run es b) (history l es) rest.1 rest.3 rest.4 rest.0

-- After any calls on a new, enabled controller, the pause flag and the counts of completed and
-- failed tasks are those of the level's history, and no window exceeds `window_size`.
pub counts-run :
    (es : List Event) (num den size l : ℕ)
    → (is_paused l (run es (new_controller num den size true)) ≡ (history l es).paused)
      × ((seen l (run es (new_controller num den size true))).completed_tasks
          ≡ (history l es).completed)
      × ((seen l (run es (new_controller num den size true))).failed_tasks ≡ (history l es).failed)
      × (length (seen l (run es (new_controller num den size true))).recent_outcomes ≤ size)
unfolding is_paused seen
counts-run es num den size l =
    let b = new_controller num den size true in
    let rest = run-Shows es b l unseen refl (new-Shows num den size l true) in
    (
      ground arith,
      rest.0.completed,
      rest.0.failed,
      subst (λ w. length w ≤ size) (sym rest.0.window)
          (length-last-le size (history l es).outcomes),
    )
