-- ===== src/Escalation.antt =====
-- zerg/escalation.py. The file is the list of its escalations, or none where it is missing or does
-- not read as JSON; a write may fail, which the source only logs. An entry without a worker or a
-- task, for which reading raises an exception, is not modelled.
pub mod Resolved
mod Tests
use zerg.Common.{
  ℕ, ◌+◌, Bool, true, false, not, ◌&&◌, ◌||◌, Option, none, some, List, [], ◌∷◌, ◌++◌, String, ◌==◌,
  nat_eq, string_eq, if◌then◌else◌, get_or, select, map, count_if,
}

pub record Escalation : Type 0 where
  pub worker_id : ℕ
  pub task_id : String
  pub timestamp : String
  pub category : String
  pub message : String
  pub context : String
  pub resolved : Bool

abbrev pub File : Type 0
File = Option (List Escalation)

-- `_atomic_write` and `_write_all`
unfoldable pub write_all : Bool → List Escalation → File → File
write_all can_write es file = if can_write then some es else file

unfoldable pub read_all : File → List Escalation
read_all file = get_or file []

-- `escalate`: the escalation is appended to what the file holds.
unfoldable pub escalate : Bool → Escalation → File → File
escalate can_write e file = write_all can_write (read_all file ++ e ∷ []) file

abbrev pub is_open : Escalation → Bool
is_open e = not e.resolved

unfoldable pub get_unresolved : File → List Escalation
get_unresolved file = select is_open (read_all file)

abbrev pub resolve_if : Bool → Escalation → Escalation
resolve_if b e = if b then record e { resolved = true } else e

abbrev pub is_about : String → ℕ → Escalation → Bool
is_about task_id worker_id e = e.task_id == task_id && e.worker_id == worker_id && is_open e

-- The loop of `resolve`, with whether an escalation was changed.
unfoldable pub resolve_each : String → ℕ → List Escalation → Bool × List Escalation
resolve_each task_id worker_id [] = (false, [])
resolve_each task_id worker_id (e ∷ es) =
    let (changed, rest) = resolve_each task_id worker_id es in
    (is_about task_id worker_id e || changed, resolve_if (is_about task_id worker_id e) e ∷ rest)

unfoldable pub resolve : Bool → String → ℕ → File → Bool × File
resolve can_write task_id worker_id file =
    let (changed, es) = resolve_each task_id worker_id (read_all file) in
    (changed, if changed then write_all can_write es file else file)

-- `resolve_all`: the number of escalations that were open.
unfoldable pub resolve_all : Bool → File → ℕ × File
resolve_all can_write file =
    let es = read_all file in
    let count = count_if is_open es in
    (
      count,
      if count == 0
          then file
          else write_all can_write (map (λ e. resolve_if (is_open e) e) es) file,
    )
