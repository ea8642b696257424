-- ===== src/Parser/Sorted.antt =====
-- The answer of `topological_sort` of zerg/parser.py.
use zerg.Common.{
  ℕ, zero, suc, ◌+◌, ◌≤◌, ◌<◌, ◌≡◌, ◌∙◌, ap, sym, subst, refl, true, some, List, [], ◌∷◌, ◌++◌,
  String, string_eq, nat_eq, elem, length, one_if, count, count-NoRepeat, count-append,
  length-append, ◌⊎◌, elem-count, arith, beq_refl, inl, inr, NoRepeat, length_of_count,
}
use zerg.Common.Dict.{Dict, keys}
use zerg.Validation.{GraphTask}
use zerg.Validation.Dependencies.{task_info}
use zerg.Validation.Layered.{rank}
use zerg.Parser.{TaskParser, index, cleared, parsed, parse_dict}
use zerg.Parser.Sort.{
  Round, take_task, sort_loop, sorted, start_round, sort_queue, topological_sort, count-sort_queue,
}
use zerg.Parser.Index.{ids, deps_of}
use zerg.Parser.Kahn.{missing, in_order, IsSorting, take_task-IsSorting}
use zerg.Parser.Start.{keys_known, start_round-IsSorting}
use zerg.Parser.Accepted.{IsAccepted, parse_dict-IsAccepted}

length-keys {ℓ κ} : {K : Type ℓ} {V : Type κ} (d : Dict K V) → length (keys d) ≡ length d
length-keys [] = refl
length-keys (x ∷ d) = omega (arith, length-keys d)

pub list_cases {ℓ} :
    {A : Type ℓ} (xs : List A) → (xs ≡ []) ⊎ ((x : A) × (rest : List A) × (xs ≡ x ∷ rest))
list_cases [] = inl refl
list_cases (x ∷ xs) = inr (x, xs, refl)

count_of_empty : (a : String) (xs : List String) → length xs ≡ 0 → count a xs ≡ 0
count_of_empty a [] h = refl
count_of_empty a (x ∷ xs) h = absurd (omega (arith, h))

sort_loop-idle :
    (n : ℕ) (p : TaskParser) (r : Round)
    → sort_queue p r.queue ≡ []
    → sort_loop (suc n) p r ≡ some r
unfolding sort_loop
sort_loop-idle n p r e = ground arith

sort_loop-take_task :
    (n : ℕ) (p : TaskParser) (r : Round) (k : String) (rest : List String)
    → sort_queue p r.queue ≡ k ∷ rest
    → sort_loop (suc n) p r ≡ sort_loop n p (take_task p k rest r)
unfolding sort_loop
sort_loop-take_task n p r k rest e = ground arith

topological_sort-sorted :
    (p : TaskParser) (r : Round)
    → sort_loop (length p.tasks) p (start_round p) ≡ some r
    → length r.result ≡ length p.tasks
    → topological_sort p ≡ sorted r.result
unfolding topological_sort
topological_sort-sorted p r e h = ground arith

module _ (ts : List GraphTask) (u : NoRepeat (ids ts)) where
  -- What is done and queued are tasks, each once.
  placed_known :
      (r : Round) (a : String)
      → IsSorting ts r
      → count a r.queue + count a r.result ≤ count a (ids ts)
  placed_known r a v = ground (arith, v.placed a, count-NoRepeat a (ids ts) u)

  sort_loop_returns :
      (n : ℕ) (r : Round)
      → IsSorting ts r
      → length r.result + n ≡ length (ids ts)
      → (r' : Round) × (sort_loop n (index ts cleared) r ≡ some r')
        × IsSorting ts r'
        × ((a : String) → count a r'.queue ≡ 0)
  unfolding sort_loop
  sort_loop_returns zero r v h =
      let placed =
        length_of_count (r.result ++ r.queue) (ids ts)
          (λ a. omega (arith, placed_known r a v, count-append a r.result r.queue)) in
      let idle : length r.queue ≡ 0 = omega (arith, placed, length-append r.result r.queue) in
      (r, rw idle refl, v, λ a. count_of_empty a r.queue idle)
  sort_loop_returns (suc n) r v h =
      let p = index ts cleared in
      elim (list_cases (sort_queue p r.queue)) [
        | inl e ↦ (
          r,
          sort_loop-idle n p r e,
          v,
          λ a. sym (count-sort_queue p a r.queue) ∙ ap (λ q. count a q) e,
        )
        | inr (k, rest, e) ↦
            let same = λ (a : String). sym (ap (λ q. count a q) e) ∙ count-sort_queue p a r.queue in
            let r₁ = take_task p k rest r in
            let (r', e', v', idle) =
              sort_loop_returns n r₁ (take_task-IsSorting ts u k rest r same v)
                (unfold take_task in omega (arith, h, length-append r.result (k ∷ []))) in
            (r', sort_loop-take_task n p r k rest e ∙ e', v', idle)
      ]

  module _ (r : Round) (v : IsSorting ts r) (idle : (a : String) → count a r.queue ≡ 0) where
    missing_none :
        (ds : List String)
        → ((d : String) → elem d ds ≡ true → elem d r.result ≡ true)
        → missing r.result ds ≡ 0
    missing_none [] h = refl
    missing_none (d ∷ ds) h =
        let rest = missing_none ds (λ x m. h x (ground arith)) in
        ground (arith, rest, h d, beq_refl d)

    -- Where each dependency is a task of lower rank, nothing is left when the queue is empty.
    done_below :
        (n : ℕ) (k : String)
        → IsAccepted ts
        → rank (task_info ts []) k < n
        → elem k (ids ts) ≡ true
        → elem k r.result ≡ true
    done_below zero k w h m = absurd (omega (arith, h))
    done_below (suc n) k w h m =
        let none_missing =
          missing_none (deps_of ts k)
            (λ d i. done_below n d w (omega (arith, w.lower k d i)) (w.known k d i)) in
        ground (arith, none_missing, v.placed k, idle k, elem-count k r.result)

    all_done : IsAccepted ts → (a : String) → count a r.result ≡ count a (ids ts)
    all_done w a = ground (
      arith,
      done_below (suc (rank (task_info ts []) a)) a w,
      placed_known r a v,
      count-NoRepeat a (ids ts) u,
      elem-count a r.result,
    )

-- On a task graph that `parse_dict` accepts the sort finds no cycle and answers an order in which
-- each task of the graph stands once, and no other ID, and each task after all of its dependencies.
pub topological_sort_lem :
    (code_points : String → List ℕ) (ts : List GraphTask) (p : TaskParser)
    → parse_dict code_points ts ≡ parsed p
    → (order : List String) × (topological_sort p ≡ sorted order)
      × ((a : String) → count a order ≡ one_if (elem a (ids ts)))
      × (in_order ts [] order ≡ true)
topological_sort_lem code_points ts p e =
    let (same, w) = parse_dict-IsAccepted code_points ts p e in
    let u = w.distinct in
    let size : length (index ts cleared).tasks ≡ length (ids ts) =
      sym (length-keys (index ts cleared).tasks) ∙ ap (λ ks. length ks) ((keys_known ts u).0) in
    let (r, found, v, idle) =
      sort_loop_returns ts u (length (index ts cleared).tasks) (start_round (index ts cleared))
        (start_round-IsSorting ts u) (unfold start_round in omega (arith, size)) in
    let done = all_done ts u r v idle w in
    let order_size : length r.result ≡ length (ids ts) = omega (
      arith,
      length_of_count r.result (ids ts) (λ a. omega (arith, done a)),
      length_of_count (ids ts) r.result (λ a. omega (arith, done a)),
    ) in
    (
      r.result,
      subst (λ q. topological_sort q ≡ sorted r.result) same
          (topological_sort-sorted (index ts cleared) r found (order_size ∙ sym size)),
      λ a. done a ∙ count-NoRepeat a (ids ts) u,
      v.ordered,
    )
