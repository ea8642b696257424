-- ===== src/Escalation/Resolved.antt =====
-- What the calls of zerg/escalation.py that resolve escalations leave open.
use zerg.Common.{
  ℕ, ◌≡◌, refl, true, false, not, ◌&&◌, List, [], ◌∷◌, String, ◌==◌, nat_eq, string_eq, get_or,
  select, map, count_if, length, arith,
}
use zerg.Escalation.{
  Escalation, File, write_all, read_all, is_open, get_unresolved, is_about, resolve_if,
  resolve_each, resolve_all,
}

select-none : (es : List Escalation) → count_if is_open es ≡ 0 → select is_open es ≡ []
select-none [] h = refl
select-none (e ∷ es) h = ground (arith, h, select-none es)

select-map_resolved :
    (es : List Escalation) → select is_open (map (λ e. resolve_if (is_open e) e) es) ≡ []
select-map_resolved [] = refl
select-map_resolved (e ∷ es) = ground (arith, select-map_resolved es)

length-select : (es : List Escalation) → length (select is_open es) ≡ count_if is_open es
length-select [] = refl
length-select (e ∷ es) = ground (arith, length-select es)

-- Resolving all answers how many were open, and leaves none open, if the file can be written.
pub resolve_all_lem :
    (file : File)
    → let (count, file') = resolve_all true file in
      (count ≡ length (get_unresolved file)) × (get_unresolved file' ≡ [])
unfolding resolve_all get_unresolved write_all read_all
resolve_all_lem file =
    let es = get_or file [] in
    ground (arith, length-select es, select-none es, select-map_resolved es)

-- The escalations that are open after `resolve` are those that were, but the ones it is about.
select-resolve_each :
    (task_id : String) (worker_id : ℕ) (es : List Escalation)
    → let (changed, es') = resolve_each task_id worker_id es in
      (select is_open es' ≡ select (λ e. is_open e && not (is_about task_id worker_id e)) es)
      × ((not changed && not (length (select is_open es) == length (select is_open es'))) ≡ false)
unfolding resolve_each
select-resolve_each task_id worker_id [] = (refl, refl)
select-resolve_each task_id worker_id (e ∷ es) =
    ground (arith, select-resolve_each task_id worker_id es)
