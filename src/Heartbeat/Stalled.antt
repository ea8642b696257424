-- ===== src/Heartbeat/Stalled.antt =====
-- When a worker counts as stalled by zerg/heartbeat.py.
use zerg.Common.{
  ℕ, zero, suc, ◌+◌, ◌-◌, ◌≡◌, refl, true, Option, List, String, ◌==◌, nat_eq, if◌then◌else◌, ltb,
  length, arith, get_or,
}
use zerg.Common.Dict.{lookup-insert}
use zerg.Common.Int.{ℤ}
use zerg.Heartbeat.{Files, indicators_from, is_stale, write, read, check_stale}

-- After a heartbeat is written, its worker is stale exactly when more ticks than the timeout have
-- passed since, and every other worker as before.
pub check_stale-write :
    (own_timeout w v written now : ℕ) (task_id : Option String) (step : String) (progress : ℤ)
    (current total : Option ℕ) (states : List String) (timeout : Option ℕ) (files : Files)
    → check_stale own_timeout now v timeout
        (write true w written task_id step progress current total states files).1
      ≡ (if w == v
          then ltb (get_or timeout own_timeout) (now - written)
          else check_stale own_timeout now v timeout files)
unfolding check_stale write read is_stale
check_stale-write own_timeout w v written now task_id step progress current total states timeout
      files =
    let h = (write true w written task_id step progress current total states files).0 in
    ground (arith, lookup-insert w v h files)

-- A display without states has an indicator for each step.
pub length-indicators_from : (n i current : ℕ) → length (indicators_from n i current) ≡ n
unfolding indicators_from
length-indicators_from zero i current = refl
length-indicators_from (suc n) i current = omega (arith, length-indicators_from n (i + 1) current)
