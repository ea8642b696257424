-- ===== src/Workers/Stored.antt =====
-- What zerg/state/worker_repo.py reads back of what it writes.
use zerg.Common.{
  ℕ, ◌≡◌, refl, false, Option, none, some, ◌==◌, nat_eq, string_eq, if◌then◌else◌, arith,
}
use zerg.Common.Dict.{lookup-insert}
use zerg.Workers.Status.{worker_status-value}
use zerg.Workers.{
  WorkerState, stamped, unstamped, to_dict, from_dict, Workers, is_blank, found, get_worker_state,
  set_worker_state,
}

unstamped-stamped : (t : Option ℕ) → unstamped (stamped t) ≡ t
unstamped-stamped none = refl
unstamped-stamped (some t) = refl

from_dict-to_dict : (w : WorkerState) → from_dict (to_dict w) ≡ some w
unfolding from_dict to_dict
from_dict-to_dict w =
    rw
      (
        worker_status-value w.status,
        unstamped-stamped w.health_check_at,
        unstamped-stamped w.started_at,
        unstamped-stamped w.ready_at,
        unstamped-stamped w.last_task_completed_at,
      )
      refl

is_blank-to_dict : (w : WorkerState) → is_blank (to_dict w) ≡ false
unfolding is_blank to_dict
is_blank-to_dict w = refl

-- After a worker is stored, its number reads back the same worker, and every other number reads as
-- before.
pub get_worker_state-set_worker_state :
    (w : WorkerState) (workers : Workers) (k : ℕ)
    → get_worker_state k (set_worker_state w workers)
      ≡ (if w.worker_id == k then found w else get_worker_state k workers)
unfolding get_worker_state set_worker_state
get_worker_state-set_worker_state w workers k = ground (
  arith,
  lookup-insert w.worker_id k (to_dict w) workers,
  from_dict-to_dict w,
  is_blank-to_dict w,
)
