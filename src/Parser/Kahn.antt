-- ===== src/Parser/Kahn.antt =====
-- The invariant of the sort of zerg/parser.py, on the index of a task graph with distinct IDs.
use zerg.Common.{
  ℕ, ◌+◌, ◌-◌, ◌≤◌, ◌≡◌, ◌∙◌, ap, sym, refl, Bool, true, false, not, ◌&&◌, List, [], ◌∷◌, ◌++◌,
  String, ◌==◌, string_eq, nat_eq, ltb, nat_beq, elem, all, count, count_if, count-append,
  elem-count, elem-append, one_if, arith, beq_refl, Bool-cases, inl, inr, NoRepeat, append_one,
  append_nil,
}
use zerg.Common.Int.{pos}
use zerg.Common.Dict.{lookup}
use zerg.Validation.{GraphTask}
use zerg.Parser.{index, cleared, get_dependents}
use zerg.Parser.Sort.{Round, take_task}
use zerg.Parser.Index.{ids, deps_of, deps_of-unknown, count-get_dependents}
use zerg.Parser.Relax.{degree, relax_other, relax-degree}

-- How many entries of a list are not done.
abbrev pub missing : List String → List String → ℕ
missing done = count_if (λ d. not (elem d done))

missing-append :
    (done ds : List String) (k : String)
    → elem k done ≡ false
    → missing (done ++ k ∷ []) ds + count k ds ≡ missing done ds
missing-append done [] k h = refl
missing-append done (d ∷ ds) k h = ground (
  arith,
  missing-append done ds k h,
  elem-append d done (k ∷ []),
  string_eq.same_iff k d,
  string_eq.same_iff d k,
)

all_of_missing : (done ds : List String) → missing done ds ≡ 0 → all (λ d. elem d done) ds ≡ true
all_of_missing done [] h = refl
all_of_missing done (d ∷ ds) h = ground (arith, all_of_missing done ds)

and_true : (a : Bool) → (a && true) ≡ (true && a)
and_true a = ground arith

and_assoc : (a b c : Bool) → ((a && b) && c) ≡ (a && (b && c))
and_assoc a b c = ground arith

-- Each task of the list comes after all of its dependencies, given those already done.
abbrev pub in_order : List GraphTask → List String → List String → Bool
in_order ts done [] = true
in_order ts done (k ∷ ks) = all (λ d. elem d done) (deps_of ts k) && in_order ts (done ++ k ∷ []) ks

in_order-append :
    (ts : List GraphTask) (done ks : List String) (k : String)
    → in_order ts done (ks ++ k ∷ [])
      ≡ (in_order ts done ks && all (λ d. elem d (done ++ ks)) (deps_of ts k))
in_order-append ts done [] k =
    rw (append_nil done) (and_true (all (λ d. elem d done) (deps_of ts k)))
in_order-append ts done (j ∷ ks) k =
    rw (in_order-append ts (done ++ j ∷ []) ks k, append_one done j ks)
      (sym (
        and_assoc (all (λ d. elem d done) (deps_of ts j)) (in_order ts (done ++ j ∷ []) ks)
          (all (λ d. elem d (done ++ j ∷ ks)) (deps_of ts k))))

-- How the places of a task add up over a round in which it loses `c` of its degree `n`.
places_add_up :
    (n c m x rest queue queue' done done' : ℕ)
    → n - c ≡ m
    → c ≤ n
    → queue' ≡ rest + one_if (ltb 0 n && nat_beq n c)
    → x + rest ≡ queue
    → queue + done ≡ one_if (nat_beq n 0)
    → done' ≡ done + (x + 0)
    → queue' + done' ≡ one_if (nat_beq m 0)
places_add_up n c m x rest queue queue' done done' h₁ h₂ h₃ h₄ h₅ h₆ = ground arith

module _ (ts : List GraphTask) where
  -- The degree of a task counts its dependencies that are not done; it is queued or done, once,
  -- exactly when that is 0; and what is done is in order.
  pub record IsSorting (r : Round) : Type 0 where
    pub degrees :
        (a : String)
        → elem a (ids ts) ≡ true
        → degree a r.degrees ≡ pos (missing r.result (deps_of ts a))
    pub placed :
        (a : String)
        → count a r.queue + count a r.result
          ≡ one_if (elem a (ids ts) && nat_beq (missing r.result (deps_of ts a)) 0)
    pub ordered : in_order ts [] r.result ≡ true

  module _ (u : NoRepeat (ids ts)) (k : String) (rest : List String) (r : Round)
      (same : (a : String) → count a (k ∷ rest) ≡ count a r.queue) (v : IsSorting r) where
    first_task : (elem k r.result ≡ false) × (missing r.result (deps_of ts k) ≡ 0)
    first_task = ground (arith, same k, v.placed k, elem-count k r.result, beq_refl k)

    none_yet : (a : String) → count a (get_dependents k cleared) ≡ 0
    unfolding get_dependents lookup
    none_yet a = refl

    dependents_count :
        (a : String) → count a (get_dependents k (index ts cleared)) ≡ count k (deps_of ts a)
    dependents_count a = ground (arith, count-get_dependents ts cleared k a u, none_yet a)

    next_missing :
        (a : String)
        → missing (r.result ++ k ∷ []) (deps_of ts a) + count k (deps_of ts a)
          ≡ missing r.result (deps_of ts a)
    next_missing a = missing-append r.result (deps_of ts a) k (first_task.0)

    take_task-known :
        (a : String)
        → elem a (ids ts) ≡ true
        → (degree a (take_task (index ts cleared) k rest r).degrees
            ≡ pos (missing (r.result ++ k ∷ []) (deps_of ts a)))
          × (count a (take_task (index ts cleared) k rest r).queue + count a (r.result ++ k ∷ [])
              ≡ one_if (nat_beq (missing (r.result ++ k ∷ []) (deps_of ts a)) 0))
    unfolding take_task
    take_task-known a known =
        let n = missing r.result (deps_of ts a) in
        let ds = get_dependents k (index ts cleared) in
        let room : count a ds ≤ n = omega (arith, dependents_count a, next_missing a) in
        let after = relax-degree ds r.degrees rest a n (v.degrees a known) room in
        let left : n - count a ds ≡ missing (r.result ++ k ∷ []) (deps_of ts a) =
          omega (arith, dependents_count a, next_missing a) in
        let placed : count a r.queue + count a r.result ≡ one_if (nat_beq n 0) =
          ground (arith, v.placed a) in
        (
          after.0 ∙ ap pos left,
          places_add_up n (count a ds) (missing (r.result ++ k ∷ []) (deps_of ts a))
              (one_if (a == k)) (count a rest) (count a r.queue) _ (count a r.result)
              (count a (r.result ++ k ∷ [])) left room after.1 (same a) placed
              (count-append a r.result (k ∷ [])),
        )

    take_task-unknown :
        (a : String)
        → elem a (ids ts) ≡ false
        → count a (take_task (index ts cleared) k rest r).queue + count a (r.result ++ k ∷ []) ≡ 0
    unfolding take_task
    take_task-unknown a unknown =
        let ds = get_dependents k (index ts cleared) in
        let no_deps : count k (deps_of ts a) ≡ 0 = rw (deps_of-unknown ts a unknown) refl in
        let after = relax_other ds r.degrees rest a (dependents_count a ∙ no_deps) in
        ground (arith, after.1, same a, v.placed a, count-append a r.result (k ∷ []))

    -- A round keeps the invariant.
    pub take_task-IsSorting : IsSorting (take_task (index ts cleared) k rest r)
    unfolding take_task
    take_task-IsSorting = record {
      degrees = λ a known. (take_task-known a known).0;
      placed = λ a. elim (Bool-cases (elem a (ids ts))) [
        | inl e ↦ ground (arith, (take_task-known a e).1)
        | inr e ↦ ground (arith, take_task-unknown a e)
      ];
      ordered =
          let ready = all_of_missing r.result (deps_of ts k) (first_task.1) in
          rw (in_order-append ts [] r.result k, v.ordered, ready) refl;
    }
