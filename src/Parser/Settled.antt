-- ===== src/Parser/Settled.antt =====
-- The loop over the sorted tasks in `get_critical_path` of zerg/parser.py.
use zerg.Common.{
  ℕ, ◌+◌, ◌≤◌, ◌≡◌, ◌∙◌, ap, sym, subst, refl, true, false, Option, none, some, is_some, List, [],
  ◌∷◌, ◌++◌, String, string_eq, nat_eq, elem, all, count, map, elem-append, elem-count,
  count-append, append_one, append_nil, get_or, ◌==◌, ◌⊎◌, arith, beq_refl, Bool-cases, inl, inr,
  if◌then◌else◌,
}
use zerg.Common.Dict.{Dict, lookup, elem-keys}
use zerg.Validation.{GraphTask}
use zerg.Parser.{TaskParser, index, cleared}
use zerg.Parser.Index.{ids, deps_of, lookup-dependencies}
use zerg.Parser.Kahn.{in_order}
use zerg.Parser.Start.{keys_known}
use zerg.Parser.Accepted.{IsAccepted}
use zerg.Parser.Critical.{Table, relax_deps, relax_order, start_table}
use zerg.Parser.Longest.{mins, dist_of, pred_of, IsComplete, IsRelaxed, relax_deps-IsRelaxed}

pub elem_of_all :
    (d : String) (done ds : List String)
    → all (λ x. elem x done) ds ≡ true
    → elem d ds ≡ true
    → elem d done ≡ true
elem_of_all d done [] h m = absurd (ground (arith, m))
elem_of_all d done (x ∷ ds) h m =
    ground (arith, h, m, elem_of_all d done ds, string_eq.same_iff d x)

module _ (ts : List GraphTask) (w : IsAccepted ts) where
  abbrev pub graph : TaskParser
  graph = index ts cleared

  pub task_known : (k : String) → elem k (ids ts) ≡ true → is_some (lookup k graph.tasks) ≡ true
  task_known k m =
      sym (elem-keys k graph.tasks) ∙ ap (λ ks. elem k ks) ((keys_known ts w.distinct).0) ∙ m

  -- The distance of a task is that of the chain through its predecessor, and no dependency has a
  -- longer one.
  pub record IsSettled (s : Table) (k : String) : Type 0 where
    pub bound :
        (d : String) → elem d (deps_of ts k) ≡ true → dist_of s d + mins graph d ≤ dist_of s k
    pub cause :
        ((pred_of s k ≡ none) × (dist_of s k ≡ 0))
        ⊎ ((d : String) × (elem d (deps_of ts k) ≡ true)
            × (pred_of s k ≡ some d)
            × (dist_of s k ≡ dist_of s d + mins graph d))

  pub record IsLongest (done : List String) (s : Table) : Type 0 where
    pub complete : IsComplete graph s
    pub settled : (k : String) → elem k done ≡ true → IsSettled s k
    pub untouched : (k : String) → elem k done ≡ false → (dist_of s k ≡ 0) × (pred_of s k ≡ none)
    pub closed :
        (k d : String) → elem k done ≡ true → elem d (deps_of ts k) ≡ true → elem d done ≡ true

  module _ (done : List String) (k : String) (s s' : Table) (v : IsLongest done s)
      (fresh : elem k done ≡ false)
      (below : (d : String) → elem d (deps_of ts k) ≡ true → elem d done ≡ true)
      (r : IsRelaxed graph k (deps_of ts k) s s') where
    same_below :
        (x : String)
        → elem x done ≡ true
        → (dist_of s' x ≡ dist_of s x) × (pred_of s' x ≡ pred_of s x)
    same_below x m = r.others x (ground (arith, m, fresh, string_eq.same_iff x k))

    settled_self : IsSettled s' k
    settled_self = record {
      bound = λ d m. omega (arith, r.bound d m, (same_below d (below d m)).0);
      cause = elim r.cause [
        | inl (e, f) ↦
            let (zero_before, none_before) = v.untouched k fresh in
            inl (e ∙ none_before, f ∙ zero_before)
        | inr (d, m, e, f) ↦ inr (d, m, e, omega (arith, f, (same_below d (below d m)).0))
      ];
    }

    settled_other : (j : String) → elem j done ≡ true → IsSettled s' j
    settled_other j m =
        let old = v.settled j m in
        let (dist_same, pred_same) = same_below j m in
        let dep_same =
          λ (d : String) (i : elem d (deps_of ts j) ≡ true). (same_below d (v.closed j d m i)).0 in
        record {
          bound = λ d i. omega (arith, old.bound d i, dep_same d i, dist_same);
          cause = elim old.cause [
            | inl (e, f) ↦ inl (pred_same ∙ e, dist_same ∙ f)
            | inr (d, i, e, f) ↦
                inr (d, i, pred_same ∙ e, omega (arith, f, dep_same d i, dist_same))
          ];
        }

    done_or_self : (j : String) → elem j (done ++ k ∷ []) ≡ true → (elem j done ≡ true) ⊎ (j ≡ k)
    done_or_self j m = elim (Bool-cases (elem j done)) [
      | inl e ↦ inl e
      | inr e ↦ inr (ground (arith, m, e, elem-append j done (k ∷ []), string_eq.same_iff j k))
    ]

    -- A task after all of its dependencies.
    step-IsLongest : IsLongest (done ++ k ∷ []) s'
    step-IsLongest = record {
      complete = r.complete;
      settled = λ j m. elim (done_or_self j m) [
        | inl i ↦ settled_other j i
        | inr e ↦ subst (IsSettled s') (sym e) settled_self
      ];
      untouched = λ j m.
          let apart : (j == k) ≡ false =
            ground (arith, m, elem-append j done (k ∷ []), string_eq.same_iff j k) in
          let old = v.untouched j (ground (arith, m, elem-append j done (k ∷ []))) in
          ((r.others j apart).0 ∙ old.0, (r.others j apart).1 ∙ old.1);
      closed = λ j d m i.
          let before : elem d done ≡ true = elim (done_or_self j m) [
            | inl n ↦ v.closed j d n i
            | inr e ↦ below d (subst (λ x. elem d (deps_of ts x) ≡ true) e i)
          ] in
          ground (arith, before, elem-append d done (k ∷ []));
    }

  relax_order-next :
      (k : String) (ks : List String) (s s' : Table)
      → elem k (ids ts) ≡ true
      → relax_deps graph k (deps_of ts k) s ≡ some s'
      → relax_order graph (k ∷ ks) s ≡ relax_order graph ks s'
  unfolding relax_order
  relax_order-next k ks s s' m e =
      let same : get_or (lookup k graph.dependencies) [] ≡ deps_of ts k =
        ground (arith, lookup-dependencies ts cleared k w.distinct, m) in
      let here : relax_deps graph k (get_or (lookup k graph.dependencies) []) s ≡ some s' =
        ap (λ ds. relax_deps graph k ds s) same ∙ e in
      ground (arith, here)

  pub relax_order-IsLongest :
      (ks done : List String) (s : Table)
      → IsLongest done s
      → in_order ts done ks ≡ true
      → ((a : String) → count a (done ++ ks) ≤ 1)
      → ((a : String) → elem a ks ≡ true → elem a (ids ts) ≡ true)
      → (s' : Table) × (relax_order graph ks s ≡ some s') × IsLongest (done ++ ks) s'
  unfolding relax_order
  relax_order-IsLongest [] done s v o u h =
      (s, refl, subst (λ x. IsLongest x s) (sym (append_nil done)) v)
  relax_order-IsLongest (k ∷ ks) done s v o u h =
      let known = h k (ground (arith, beq_refl k)) in
      let fresh : elem k done ≡ false =
        ground (arith, u k, count-append k done (k ∷ ks), elem-count k done, beq_refl k) in
      let below : (d : String) → elem d (deps_of ts k) ≡ true → elem d done ≡ true =
        λ d m. elem_of_all d done (deps_of ts k) (ground (arith, o)) m in
      let (s₁, e, r) =
        relax_deps-IsRelaxed graph k (deps_of ts k) s v.complete (task_known k known) (λ x m. (
          ground (arith, below x m, fresh, string_eq.same_iff x k),
          task_known x (w.known k x m),
        )) in
      let (s₂, f, v') =
        relax_order-IsLongest ks (done ++ k ∷ []) s₁ (step-IsLongest done k s s₁ v fresh below r)
          (ground (arith, o)) (λ a. rw (append_one done k ks) (u a))
          (λ a m. h a (ground (arith, m))) in
      (
        s₂,
        relax_order-next k ks s s₁ known e ∙ f,
        subst (λ x. IsLongest x s₂) (append_one done k ks) v',
      )

  lookup-zeros :
      {V : Type 0} (v : V) (d : Dict String GraphTask) (k : String)
      → lookup k (map (λ e. (e.0, v)) d) ≡ (if is_some (lookup k d) then some v else none)
  unfolding lookup
  lookup-zeros v [] k = refl
  lookup-zeros v ((j, t) ∷ d) k = ground (arith, lookup-zeros v d k)

  pub start_table-IsLongest : IsLongest [] (start_table graph)
  unfolding start_table IsComplete
  start_table-IsLongest = record {
    complete = λ k h. (
      ground (arith, lookup-zeros {V = ℕ} 0 graph.tasks k, h),
      ground (arith, lookup-zeros {V = Option String} none graph.tasks k, h),
    );
    settled = λ k m. absurd (ground (arith, m));
    untouched = λ k m. (
      ground (arith, lookup-zeros {V = ℕ} 0 graph.tasks k),
      ground (arith, lookup-zeros {V = Option String} none graph.tasks k),
    );
    closed = λ k d m i. absurd (ground (arith, m));
  }
