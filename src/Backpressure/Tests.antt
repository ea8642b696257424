-- ===== src/Backpressure/Tests.antt =====
-- Runs of zerg/backpressure.py: a window of 4 outcomes and a threshold of one half.
use zerg.Common.{◌≡◌, refl, true, false, List, [], ◌∷◌, nat_eq, length, ◌≤◌}
use zerg.Common.Dict.{lookup, insert}
use zerg.Backpressure.{
  Controller, new_controller, Event, registered, success, failure, pause, resume, run, handle,
  should_pause, is_paused, get_or_create, register_level, record_success, record_failure,
  pause_level, resume_level, append, get_failure_rate,
}
use zerg.Backpressure.History.{history, seen}
use zerg.Backpressure.Verdict.{verdict, should_pause-run, counts-run}

abbrev fresh : Controller
fresh = new_controller 1 2 4 true

abbrev half_failed : List Event
half_failed =
    registered 1 6 ∷ success 1 ∷ success 1 ∷ failure 1 ∷ success 2 ∷ failure 1 ∷ failure 1 ∷ []

pauses_at_threshold : (should_pause 1 (run half_failed fresh)).0 ≡ true
unfolding run handle should_pause get_or_create register_level record_success record_failure append
    lookup insert
pauses_at_threshold = refl

-- Two failures of four: the rate is the threshold, and does not exceed it.
abbrev just_half : List Event
just_half = success 1 ∷ success 1 ∷ failure 1 ∷ failure 1 ∷ []

pauses_at_equality : (should_pause 1 (run just_half fresh)).0 ≡ true
unfolding run handle should_pause get_or_create register_level record_success record_failure append
    lookup insert
pauses_at_equality = refl

rate_of_window : get_failure_rate 1 (run half_failed fresh) ≡ (3, 4)
unfolding run handle get_failure_rate get_or_create register_level record_success record_failure
    append lookup insert
rate_of_window = refl

resumes_empty : (should_pause 1 (run (pause 1 7 ∷ resume 1 ∷ []) (run half_failed fresh))).0 ≡ false
unfolding run handle should_pause get_or_create register_level record_success record_failure
    pause_level resume_level append lookup insert
resumes_empty = refl

should_pause-run_example :
    (should_pause 1 (run half_failed (new_controller 1 2 4 true))).0
    ≡ verdict 1 2 4 (history 1 half_failed)
should_pause-run_example = should_pause-run half_failed 1 2 4 1

counts-run_example :
    (is_paused 1 (run half_failed (new_controller 1 2 4 true)) ≡ (history 1 half_failed).paused)
    × ((seen 1 (run half_failed (new_controller 1 2 4 true))).completed_tasks
        ≡ (history 1 half_failed).completed)
    × ((seen 1 (run half_failed (new_controller 1 2 4 true))).failed_tasks
        ≡ (history 1 half_failed).failed)
    × (length (seen 1 (run half_failed (new_controller 1 2 4 true))).recent_outcomes ≤ 4)
counts-run_example = counts-run half_failed 1 2 4 1
