-- ===== src/Loops/Best.antt =====
-- What the loop of zerg/loops.py answers.
use zerg.Common.{
  ℕ, zero, suc, ◌+◌, ◌≤◌, ◌≡◌, ◌≢◌, ◌⊎◌, refl, subst, ap, ◌∙◌, Bool, true, false, ◌&&◌, ◌||◌,
  Option, none, some, List, [], ◌∷◌, ◌++◌, nat_eq, ◌==◌, length, length-append, arith, Option-cases,
  Bool-cases, inl, inr, All,
}
use zerg.Common.Int.{ℤ, ltb_ℤ, ◌≤ℤ◌, eqb_ℤ}
use zerg.Loops.{
  LoopStatus, max_iterations, aborted, IterationResult, LoopController, Progress, LoopSummary,
  tracked, stop_reason, summary, rounds, at_start, run,
}

-- Some round of the list has this number and this score.
abbrev pub scored : ℕ → ℤ → List IterationResult → Bool
scored i s [] = false
scored i s (r ∷ rs) = (r.iteration == i && eqb_ℤ r.score s) || scored i s rs

scored-append :
    (i : ℕ) (s : ℤ) (rs : List IterationResult) (r : IterationResult)
    → scored i s (rs ++ r ∷ []) ≡ (scored i s rs || (r.iteration == i && eqb_ℤ r.score s))
scored-append i s [] r = ground arith
scored-append i s (q ∷ rs) r = ground (arith, scored-append i s rs r)

-- No score of the list is above `best`.
abbrev pub AllBelow : ℤ → List IterationResult → Type 0
AllBelow best = All (λ r. r.score ≤ℤ best)

AllBelow-raise : (b b' : ℤ) (rs : List IterationResult) → b ≤ℤ b' → AllBelow b rs → AllBelow b' rs
AllBelow-raise b b' [] h v = tt
AllBelow-raise b b' (r ∷ rs) h (w, v) = (omega (arith, h, w), AllBelow-raise b b' rs h v)

AllBelow-append :
    (b : ℤ) (rs : List IterationResult) (r : IterationResult)
    → AllBelow b rs
    → r.score ≤ℤ b
    → AllBelow b (rs ++ r ∷ [])
AllBelow-append b [] r v h = (h, tt)
AllBelow-append b (q ∷ rs) r (w, v) h = (w, AllBelow-append b rs r v h)

-- The best score so far is the largest, and is the initial score or that of the best round.
pub record IsBest (initial : ℤ) (best_score : ℤ) (best_iteration : ℕ) (rs : List IterationResult)
    : Type 0 where
  pub above_initial : initial ≤ℤ best_score
  pub above_all : AllBelow best_score rs
  pub attained :
      ((best_iteration ≡ 0) × (best_score ≡ initial)) ⊎ (scored best_iteration best_score rs ≡ true)

eqb_refl : (z : ℤ) → eqb_ℤ z z ≡ true
eqb_refl z = ground arith

better-IsBest :
    (initial best : ℤ) (k : ℕ) (rs : List IterationResult) (r : IterationResult)
    → IsBest initial best k rs
    → best ≤ℤ r.score
    → IsBest initial r.score r.iteration (rs ++ r ∷ [])
better-IsBest initial best k rs r v h = record {
  above_initial = omega (arith, v.above_initial, h);
  above_all =
      AllBelow-append r.score rs r (AllBelow-raise best r.score rs h v.above_all) (omega arith);
  attained = inr (ground (arith, scored-append r.iteration r.score rs r, eqb_refl r.score));
}

kept-IsBest :
    (initial best : ℤ) (k : ℕ) (rs : List IterationResult) (r : IterationResult)
    → IsBest initial best k rs
    → r.score ≤ℤ best
    → IsBest initial best k (rs ++ r ∷ [])
kept-IsBest initial best k rs r v h = record {
  above_initial = v.above_initial;
  above_all = AllBelow-append best rs r v.above_all h;
  attained = elim v.attained [
    | inl start ↦ inl start
    | inr found ↦ inr (ground (arith, scored-append k best rs r, found))
  ];
}

tracked-IsBest :
    (c : LoopController) (i : ℕ) (score initial : ℤ) (p : Progress)
    → IsBest initial p.best_score p.best_iteration p.iterations
    → let q = tracked c i score p in IsBest initial q.best_score q.best_iteration q.iterations
unfolding tracked
tracked-IsBest c i score initial p v = elim (Bool-cases (ltb_ℤ p.best_score score)) [
  | inl e ↦
      rw e (better-IsBest initial p.best_score p.best_iteration p.iterations _ v (ground arith))
  | inr e ↦ rw e (kept-IsBest initial p.best_score p.best_iteration p.iterations _ v (ground arith))
]

length-tracked :
    (c : LoopController) (i : ℕ) (score : ℤ) (p : Progress)
    → length (tracked c i score p).iterations ≡ suc (length p.iterations)
unfolding tracked
length-tracked c i score p = omega (arith, length-append p.iterations _)

-- What a summary of at most `n` rounds promises.
pub record IsSummary (initial : ℤ) (n : ℕ) (s : LoopSummary) : Type 0 where
  pub best : IsBest initial s.best_score s.best_iteration s.iterations
  pub at_most : length s.iterations ≤ n
  pub in_full : s.status ≡ max_iterations → length s.iterations ≡ n

stop_reason_breaks :
    (c : LoopController) (i : ℕ) (score : ℤ) (p : Progress)
    → stop_reason c i score p ≢ some max_iterations
unfolding stop_reason
stop_reason_breaks c i score p = ground arith

zero_plus : (n : ℕ) → 0 + n ≡ n
zero_plus n = omega arith

module _ (n i : ℕ) (c : LoopController) (improve_fn : ℕ → Option ℤ) (p : Progress) where
  rounds-aborted : improve_fn i ≡ none → rounds (suc n) i c improve_fn p ≡ summary aborted p
  unfolding rounds
  rounds-aborted e = ground arith

  rounds-stopped :
      (score : ℤ) (status : LoopStatus)
      → improve_fn i ≡ some score
      → stop_reason c i score p ≡ some status
      → rounds (suc n) i c improve_fn p ≡ summary status (tracked c i score p)
  unfolding rounds
  rounds-stopped score status e f = ground arith

  rounds-next :
      (score : ℤ)
      → improve_fn i ≡ some score
      → stop_reason c i score p ≡ none
      → rounds (suc n) i c improve_fn p ≡ rounds n (suc i) c improve_fn (tracked c i score p)
  unfolding rounds
  rounds-next score e f = ground arith

rounds-IsSummary :
    (n i : ℕ) (c : LoopController) (improve_fn : ℕ → Option ℤ) (initial : ℤ) (p : Progress)
    → IsBest initial p.best_score p.best_iteration p.iterations
    → IsSummary initial (length p.iterations + n) (rounds n i c improve_fn p)
unfolding rounds
rounds-IsSummary zero i c improve_fn initial p v = record {
  best = v;
  at_most = omega arith;
  in_full = λ e. omega arith;
}
rounds-IsSummary (suc n) i c improve_fn initial p v = elim (Option-cases (improve_fn i)) [
  | inl e ↦
      rw (rounds-aborted n i c improve_fn p e)
        (record { best = v; at_most = omega arith; in_full = λ f. ground (arith, f) })
  | inr (score, e) ↦
      let q = tracked c i score p in
      let v' = tracked-IsBest c i score initial p v in
      let size = length-tracked c i score p in
      elim (Option-cases (stop_reason c i score p)) [
        | inl f ↦
            let next = rounds-IsSummary n (suc i) c improve_fn initial q v' in
            let grown : length q.iterations + n ≡ length p.iterations + suc n =
              omega (arith, size) in
            rw (rounds-next n i c improve_fn p score e f)
              (subst (λ m. IsSummary initial m (rounds n (suc i) c improve_fn q)) grown next)
        | inr (status, f) ↦ rw (rounds-stopped n i c improve_fn p score status e f) (record {
          best = v';
          at_most = omega (arith, size);
          in_full = λ g. absurd (stop_reason_breaks c i score p (f ∙ ap (λ x. some x) g));
        })
      ]
]

-- Whatever the scores, the loop ends after at most `max_iterations` rounds, and after as many where
-- no break ended it; the best score is the largest of the initial one and those of the rounds, and
-- is the initial one, with best round 0, or that of the best round.
pub run_lem :
    (c : LoopController) (improve_fn : ℕ → Option ℤ) (initial : ℤ)
    → IsSummary initial c.max_iterations (run c improve_fn initial)
unfolding run
run_lem c improve_fn initial =
    let start =
      rounds-IsSummary c.max_iterations 1 c improve_fn initial (at_start initial)
        (record { above_initial = omega arith; above_all = tt; attained = inl (refl, refl) }) in
    subst (λ m. IsSummary initial m (rounds c.max_iterations 1 c improve_fn (at_start initial)))
      (zero_plus c.max_iterations) start
