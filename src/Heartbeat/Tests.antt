-- ===== src/Heartbeat/Tests.antt =====
-- Runs of zerg/heartbeat.py.
use zerg.Common.{◌≡◌, refl, true, none, some, [], ◌∷◌, nat_eq, string_eq}
use zerg.Common.Dict.{lookup, insert}
use zerg.Common.Int.{negsuc}
use zerg.Heartbeat.{
  completed, in_progress, waiting, indicators_from, get_step_progress_display, is_stale, Files,
  write, read, check_stale, get_stalled_workers,
}

abbrev one_file : Files
one_file = (write true 1 100 (some "A") "implementing" (negsuc 4) (some 2) (some 3) [] []).1

stalled_late : get_stalled_workers 120 221 (1 ∷ 2 ∷ []) none one_file ≡ 1 ∷ 2 ∷ []
unfolding get_stalled_workers check_stale is_stale write read lookup insert
stalled_late = refl

stalled_in_time : get_stalled_workers 120 220 (1 ∷ 2 ∷ []) none one_file ≡ 2 ∷ []
unfolding get_stalled_workers check_stale is_stale write read lookup insert
stalled_in_time = refl

shows_steps :
    get_step_progress_display (write true 1 100 none "idle" (negsuc 4) (some 2) (some 3) [] []).0
    ≡ some (2, (3, completed ∷ in_progress ∷ waiting ∷ []))
unfolding get_step_progress_display indicators_from write
shows_steps = refl
