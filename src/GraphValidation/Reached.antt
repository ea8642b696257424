-- ===== src/GraphValidation/Reached.antt =====
-- Which tasks `_check_unreachable_tasks` of zerg/graph_validation.py reports.
use zerg.Common.{
  ◌+◌, ◌≡◌, ◌⊎◌, ◌∙◌, refl, sym, Bool, true, false, not, ◌&&◌, ◌||◌, some, List, [], ◌∷◌, ◌++◌,
  String, ◌==◌, string_eq, nat_eq, if◌then◌else◌, get_or, elem, elem-append, length, select,
  is_empty, arith, Bool-cases, inl, inr,
}
use zerg.Common.Dict.{Dict, lookup, insert, lookup-insert}
use zerg.GraphValidation.{
  GraphNode, task_ids, roots, add_feeds, feeds_into, room, reached, put_string, sorted_set,
  unreachable_ids,
}
use zerg.GraphValidation.Search.{IsSearching, visit_all_returns}

-- Some task with the ID `k` depends on `d`.
abbrev pub depends : List GraphNode → String → String → Bool
depends [] k d = false
depends (t ∷ ts) k d = (t.id == k && elem d t.dependencies) || depends ts k d

-- There is a chain of dependencies from the task down to one of level 1.
pub data Reaches (ts : List GraphNode) : String → Type 0 where
  root : {k : String} → elem k (roots ts) ≡ true → Reaches ts k
  onward : {d k : String} → Reaches ts d → depends ts k d ≡ true → Reaches ts k

elem-add_feeds :
    (k : String) (deps : List String) (d : Dict String (List String)) (j a : String)
    → elem a (get_or (lookup j (add_feeds k deps d)) [])
      ≡ (elem a (get_or (lookup j d) []) || (k == a && elem j deps))
unfolding add_feeds
elem-add_feeds k [] d j a = ground arith
elem-add_feeds k (dep ∷ deps) d j a =
    let fed = get_or (lookup dep d) [] in
    let fed' = if elem k fed then fed else fed ++ k ∷ [] in
    ground (
      arith,
      elem-add_feeds k deps (insert dep fed' d) j a,
      lookup-insert dep j fed' d,
      elem-append a fed (k ∷ []),
      string_eq.same_iff j dep,
      string_eq.same_iff dep j,
      string_eq.same_iff k a,
      string_eq.same_iff a k,
    )

elem-feeds_into :
    (ts : List GraphNode) (d : Dict String (List String)) (j a : String)
    → elem a (get_or (lookup j (feeds_into ts d)) [])
      ≡ (elem a (get_or (lookup j d) []) || depends ts a j)
unfolding feeds_into
elem-feeds_into [] d j a = ground arith
elem-feeds_into (t ∷ ts) d j a = ground (
  arith,
  elem-feeds_into ts (add_feeds t.id t.dependencies d) j a,
  elem-add_feeds t.id t.dependencies d j a,
)

elem-put_string :
    (k : String) (ks : List String) (a : String) → elem a (put_string k ks) ≡ (a == k || elem a ks)
unfolding put_string
elem-put_string k [] a = refl
elem-put_string k (j ∷ ks) a = ground (arith, elem-put_string k ks a)

elem-sorted_set : (ks : List String) (a : String) → elem a (sorted_set ks) ≡ elem a ks
unfolding sorted_set
elem-sorted_set [] a = refl
elem-sorted_set (k ∷ ks) a =
    ground
      (arith, elem-sorted_set ks a, elem-put_string k (sorted_set ks) a, string_eq.same_iff a k)

elem-select_unseen :
    (seen ks : List String) (a : String)
    → elem a (select (λ k. not (elem k seen)) ks) ≡ (elem a ks && not (elem a seen))
elem-select_unseen seen [] a = refl
elem-select_unseen seen (k ∷ ks) a =
    ground (arith, elem-select_unseen seen ks a, string_eq.same_iff a k)

module _ (listed : List String → List String)
    (same : (xs : List String) (a : String) → elem a (listed xs) ≡ elem a xs)
    (ts : List GraphNode) where
  feeds_depends : (k a : String) → elem a (get_or (lookup k (feeds_into ts [])) []) ≡ depends ts a k
  feeds_depends k a = elem-feeds_into ts [] k a ∙ unfold lookup in refl

  pub feeds_onward :
      (k a : String)
      → Reaches ts k
      → elem a (get_or (lookup k (feeds_into ts [])) []) ≡ true
      → Reaches ts a
  feeds_onward k a p m = onward p (sym (feeds_depends k a) ∙ m)

  abbrev pub IsSearched : List String → List String → Type 0
  IsSearched =
      IsSearching listed same (feeds_into ts []) (Reaches ts) feeds_onward (listed (roots ts))

  start-IsSearched : IsSearched (listed (roots ts)) []
  start-IsSearched = record {
    queued = λ a m. root (sym (same (roots ts) a) ∙ m);
    seen = λ a m. absurd (ground arith);
    started = λ a m. m;
    closed = λ k a m i. absurd (ground arith);
  }

  all_seen :
      (visited : List String) (k : String)
      → IsSearched [] visited
      → Reaches ts k
      → elem k visited ≡ true
  all_seen visited k v (root m) = ground (arith, v.started k, same (roots ts) k)
  all_seen visited k v (onward {d} p m) =
      ground (arith, v.closed d k (all_seen visited d v p), feeds_depends d k)

  pub reached_lem :
      (visited : List String) × (reached listed ts ≡ some visited) × IsSearched [] visited
  unfolding reached
  reached_lem =
      let feeds = feeds_into ts [] in
      let queue = listed (roots ts) in
      visit_all_returns listed same feeds (Reaches ts) feeds_onward queue
        (length queue + room listed feeds []) queue [] (omega arith) start-IsSearched

pub unreachable_ids-some :
    (listed : List String → List String) (ts : List GraphNode) (visited : List String)
    → is_empty (roots ts) ≡ false
    → reached listed ts ≡ some visited
    → unreachable_ids listed ts
      ≡ some (sorted_set (select (λ k. not (elem k visited)) (task_ids ts)))
unfolding unreachable_ids
unreachable_ids-some listed [] visited h e = absurd (ground arith)
unreachable_ids-some listed (t ∷ ts) visited h e = ground arith

-- In a graph with a task of level 1, the search comes to an end whatever the order in which a set is
-- listed, and a task of the graph is reported as unreachable exactly when no chain of dependencies
-- leads from it down to a task of level 1.
pub unreachable_ids_lem :
    (listed : List String → List String) (ts : List GraphNode) (k : String)
    → ((xs : List String) (a : String) → elem a (listed xs) ≡ elem a xs)
    → is_empty (roots ts) ≡ false
    → elem k (task_ids ts) ≡ true
    → (ks : List String) × (unreachable_ids listed ts ≡ some ks)
      × (((elem k ks ≡ true) × (¬ Reaches ts k)) ⊎ ((elem k ks ≡ false) × Reaches ts k))
unreachable_ids_lem listed ts k same h m =
    let (visited, e, v) = reached_lem listed same ts in
    let left = select (λ j. not (elem j visited)) (task_ids ts) in
    let reports = elem-sorted_set left k ∙ elem-select_unseen visited (task_ids ts) k in
    (
      sorted_set left,
      unreachable_ids-some listed ts visited h e,
      elim (Bool-cases (elem k visited)) [
        | inl e₁ ↦ inr (ground (arith, reports), v.seen k e₁)
        | inr e₁ ↦
            inl
              (ground (arith, reports), λ p. ground (arith, all_seen listed same ts visited k v p))
      ],
    )
