-- ===== src/Parser/Longest.antt =====
-- What the loops of `get_critical_path` of zerg/parser.py leave in `dist` and `pred`.
use zerg.Common.{
  ℕ, ◌+◌, ◌≤◌, ◌≡◌, ◌∙◌, refl, true, false, Option, none, some, is_some, List, [], ◌∷◌, String,
  string_eq, nat_eq, elem, ltb, get_or, ◌==◌, ◌⊎◌, arith, beq_refl, Bool-cases, inl, inr,
  if◌then◌else◌,
}
use zerg.Common.Dict.{lookup, insert, lookup-insert}
use zerg.Parser.{TaskParser}
use zerg.Parser.Critical.{Table, minutes_of, end_minutes, relax_dep, relax_deps}

abbrev pub mins : TaskParser → String → ℕ
mins p k = elim (lookup k p.tasks) [ none ↦ 0 | some t ↦ minutes_of t ]

abbrev pub dist_of : Table → String → ℕ
dist_of s k = get_or (lookup k s.dist) 0

abbrev pub pred_of : Table → String → Option String
pred_of s k = get_or (lookup k s.pred) none

-- The tables have all tasks.
unfoldable pub IsComplete : TaskParser → Table → Type 0
IsComplete p s =
    (k : String)
    → is_some (lookup k p.tasks) ≡ true
    → (is_some (lookup k s.dist) ≡ true) × (is_some (lookup k s.pred) ≡ true)

unfoldable pub improved : TaskParser → String → String → Table → Table
improved p k d s =
    if ltb (dist_of s k) (dist_of s d + mins p d)
    then record { dist = insert k (dist_of s d + mins p d) s.dist; pred = insert k (some d) s.pred }
    else s

module _ (p : TaskParser) where
  pub end_minutes-known :
      (s : Table) (k : String)
      → IsComplete p s
      → is_some (lookup k p.tasks) ≡ true
      → end_minutes p s k ≡ some (dist_of s k + mins p k)
  unfolding end_minutes IsComplete
  end_minutes-known s k c h = ground (arith, (c k h).0, h)

  relax_dep-known :
      (s : Table) (k d : String)
      → IsComplete p s
      → is_some (lookup k p.tasks) ≡ true
      → is_some (lookup d p.tasks) ≡ true
      → relax_dep p k d s ≡ some (improved p k d s)
  unfolding relax_dep improved IsComplete
  relax_dep-known s k d c h g = rw (end_minutes-known s d c g) (ground (arith, (c k h).0))

  improved-IsComplete :
      (s : Table) (k d : String) → IsComplete p s → IsComplete p (improved p k d s)
  unfolding improved IsComplete
  improved-IsComplete s k d c j h = ground (
    arith,
    c j h,
    lookup-insert k j (dist_of s d + mins p d) s.dist,
    lookup-insert k j (some d) s.pred,
  )

  -- The tables after some dependencies of a task.
  pub record IsRelaxed (k : String) (ds : List String) (s s' : Table) : Type 0 where
    pub complete : IsComplete p s'
    pub others :
        (j : String)
        → (j == k) ≡ false
        → (dist_of s' j ≡ dist_of s j) × (pred_of s' j ≡ pred_of s j)
    pub bound : (d : String) → elem d ds ≡ true → dist_of s d + mins p d ≤ dist_of s' k
    pub grows : dist_of s k ≤ dist_of s' k
    pub cause :
        ((pred_of s' k ≡ pred_of s k) × (dist_of s' k ≡ dist_of s k))
        ⊎ ((d : String) × (elem d ds ≡ true)
            × (pred_of s' k ≡ some d)
            × (dist_of s' k ≡ dist_of s d + mins p d))

  improved-others :
      (s : Table) (k d j : String)
      → (j == k) ≡ false
      → (dist_of (improved p k d s) j ≡ dist_of s j) × (pred_of (improved p k d s) j ≡ pred_of s j)
  unfolding improved
  improved-others s k d j h = ground (
    arith,
    lookup-insert k j (dist_of s d + mins p d) s.dist,
    lookup-insert k j (some d) s.pred,
    string_eq.same_iff k j,
    string_eq.same_iff j k,
  )

  improved-longer :
      (s : Table) (k d : String)
      → ltb (dist_of s k) (dist_of s d + mins p d) ≡ true
      → (pred_of (improved p k d s) k ≡ some d)
        × (dist_of (improved p k d s) k ≡ dist_of s d + mins p d)
  unfolding improved
  improved-longer s k d h = ground (
    arith,
    h,
    lookup-insert k k (dist_of s d + mins p d) s.dist,
    lookup-insert k k (some d) s.pred,
    beq_refl k,
  )

  improved-kept :
      (s : Table) (k d : String)
      → ltb (dist_of s k) (dist_of s d + mins p d) ≡ false
      → improved p k d s ≡ s
  unfolding improved
  improved-kept s k d h = rw h refl

  -- One dependency.
  improved-IsRelaxed :
      (s : Table) (k d : String) → IsComplete p s → IsRelaxed k (d ∷ []) s (improved p k d s)
  improved-IsRelaxed s k d c = elim (Bool-cases (ltb (dist_of s k) (dist_of s d + mins p d))) [
    | inl h ↦
        let (e, f) = improved-longer s k d h in
        record {
          complete = improved-IsComplete s k d c;
          others = improved-others s k d;
          bound = λ x m. ground (arith, f, m, string_eq.same_iff x d, string_eq.same_iff d x);
          grows = ground (arith, f, h);
          cause = inr (d, ground (arith, beq_refl d), e, f);
        }
    | inr h ↦
        let e = improved-kept s k d h in
        record {
          complete = improved-IsComplete s k d c;
          others = improved-others s k d;
          bound =
              λ x m. rw e (ground (arith, h, m, string_eq.same_iff x d, string_eq.same_iff d x));
          grows = rw e (omega arith);
          cause = rw e (inl (refl, refl));
        }
  ]

  -- The first dependency, and then the others, of which none is the task.
  cons-IsRelaxed :
      (k d : String) (ds : List String) (s s₁ s₂ : Table)
      → ((x : String) → elem x (d ∷ ds) ≡ true → (x == k) ≡ false)
      → IsRelaxed k (d ∷ []) s s₁
      → IsRelaxed k ds s₁ s₂
      → IsRelaxed k (d ∷ ds) s s₂
  cons-IsRelaxed k d ds s s₁ s₂ apart a b = record {
    complete = b.complete;
    others = λ j h. ((b.others j h).0 ∙ (a.others j h).0, (b.others j h).1 ∙ (a.others j h).1);
    bound = λ x m. ground (
      arith,
      m,
      a.bound x,
      b.bound x,
      b.grows,
      (a.others x (apart x m)).0,
      string_eq.same_iff x d,
    );
    grows = omega (arith, a.grows, b.grows);
    cause = elim b.cause [
      | inl (e, f) ↦ elim a.cause [
        | inl (e', f') ↦ inl (e ∙ e', f ∙ f')
        | inr (x, m, e', f') ↦ inr (x, ground (arith, m), e ∙ e', f ∙ f')
      ]
      | inr (x, m, e, f) ↦
          let i : elem x (d ∷ ds) ≡ true = ground (arith, m) in
          inr (x, i, e, omega (arith, f, (a.others x (apart x i)).0))
    ];
  }

  relax_deps-next :
      (k d : String) (ds : List String) (s s₁ : Table)
      → relax_dep p k d s ≡ some s₁
      → relax_deps p k (d ∷ ds) s ≡ relax_deps p k ds s₁
  unfolding relax_deps
  relax_deps-next k d ds s s₁ e = ground arith

  pub relax_deps-IsRelaxed :
      (k : String) (ds : List String) (s : Table)
      → IsComplete p s
      → is_some (lookup k p.tasks) ≡ true
      → ((x : String) → elem x ds ≡ true → ((x == k) ≡ false) × (is_some (lookup x p.tasks) ≡ true))
      → (s' : Table) × (relax_deps p k ds s ≡ some s') × IsRelaxed k ds s s'
  unfolding relax_deps
  relax_deps-IsRelaxed k [] s c h g = (
    s,
    refl,
    record {
      complete = c;
      others = λ j h. (refl, refl);
      bound = λ x m. absurd (ground (arith, m));
      grows = omega arith;
      cause = inl (refl, refl);
    },
  )
  relax_deps-IsRelaxed k (d ∷ ds) s c h g =
      let here = g d (ground (arith, beq_refl d)) in
      let s₁ = improved p k d s in
      let (s₂, e, r) =
        relax_deps-IsRelaxed k ds s₁ (improved-IsComplete s k d c) h
          (λ x m. g x (ground (arith, m))) in
      (
        s₂,
        relax_deps-next k d ds s s₁ (relax_dep-known s k d c h (here.1)) ∙ e,
        cons-IsRelaxed k d ds s s₁ s₂ (λ x m. (g x m).0) (improved-IsRelaxed s k d c) r,
      )
