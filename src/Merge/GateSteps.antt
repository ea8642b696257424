-- ===== src/Merge/GateSteps.antt =====
-- The gates leave the branches where they are, if their commands do.
use zerg.Common.{
  ℕ, suc, ◌≡◌, refl, ap, ◌∙◌, Bool, true, Option, none, some, List, [], ◌∷◌, String, nat_eq,
  string_eq, arith, length, select,
}
use zerg.Gates.{QualityGate, GateRunResult, Executor, Runner, run_gate, run_gates, run_all_gates}
use zerg.Git.Calls.{Answer, done, raised, Act}
use zerg.Git.Triple.{After, Ensures, Keeps, Ensures-bind}
use zerg.Merge.Pipeline.{
  Cached, Artifacts, Site, GatePipeline, on_world, with_runner, made, cached_result, run_and_store,
  result_for, fresh, gates_of_level, run_gates_for_level, required_gates, run_gates_at,
}
use zerg.Merge.Passed.{AllPassed, passed_all-AllPassed, fallback-AllPassed}

module _ {W A : Type 0} (L : List GateRunResult → Option String → Type 0) where
  After-on_world :
      (Q : A → W → Type 0) (E : W → Type 0) (s : Site W) (x : Answer A × W)
      → L s.gate_results s.staging_branch
      → After Q E x
      → After
          (λ a t. Q a t.runner.world × L t.gate_results t.staging_branch)
          (λ t. E t.runner.world × L t.gate_results t.staging_branch)
          (x.0, record s { runner = record s.runner { world = x.1 } })
  After-on_world Q E s (done a, w) l h = (h, l)
  After-on_world Q E s (raised p, w) l h = (h, l)

  -- A call on the world keeps what is said of the variables of the flow.
  pub Ensures-on_world :
      {P : W → Type 0} {Q : A → W → Type 0} {E : W → Type 0} {m : Act W A}
      → Ensures P m Q E
      → Ensures
          (λ s. P s.runner.world × L s.gate_results s.staging_branch)
          (on_world m)
          (λ a s. Q a s.runner.world × L s.gate_results s.staging_branch)
          (λ s. E s.runner.world × L s.gate_results s.staging_branch)
  Ensures-on_world {Q = Q} {E = E} {m = m} h = record {
    after = λ s (p, l). After-on_world Q E s (m s.runner.world) l (h.after s.runner.world p);
  }

-- Something that is at `c0`, and what is said of the variables of the flow.
abbrev pub Phase :
    {W : Type 0}
    → (W → Option String)
    → String
    → (List GateRunResult → Option String → Type 0)
    → Site W
    → Type 0
Phase tip c0 L s = (tip s.runner.world ≡ some c0) × L s.gate_results s.staging_branch

-- That gate commands, and the files of artifacts, leave something of the world as it is.
pub record GateLaws {W : Type 0} (ex : Executor W) (art : Artifacts W) (tip : W → Option String)
    : Type 0 where
  pub tip-execute :
      (command : String) (timeout : ℕ) (w : W) → tip (ex.execute command timeout w).1 ≡ tip w
  pub tip-make_dir : (level : ℕ) (w : W) → tip (art.make_dir level w).1 ≡ tip w
  pub tip-save :
      (level : ℕ) (name : String) (c : Cached) (w : W) → tip (art.save level name c w) ≡ tip w

module _ {W : Type 0} (ex : Executor W) (art : Artifacts W) (tip : W → Option String)
    (laws : GateLaws ex art tip) where
  run_gate-tip : (g : QualityGate) (r : Runner W) → tip (run_gate ex g r).1.world ≡ tip r.world
  unfolding run_gate
  run_gate-tip g r = laws.tip-execute g.command g.timeout r.world

  run_gates-tip :
      (stop : Bool) (gs : List QualityGate) (r : Runner W)
      → tip (run_gates ex stop gs r).1.1.world ≡ tip r.world
  unfolding run_gates
  run_gates-tip stop [] r = refl
  run_gates-tip stop (g ∷ gs) r =
      let (v, r') = run_gate ex g r in ground (arith, run_gates-tip stop gs r', run_gate-tip g r)

  run_all_gates-tip :
      (gs : List QualityGate) (r : Runner W)
      → tip (run_all_gates ex gs true true none r).1.1.world ≡ tip r.world
  unfolding run_all_gates
  run_all_gates-tip gs r = ground (arith, run_gates-tip true (select (λ g. g.required) gs) r)

  result_for-tip :
      (level : ℕ) (g : QualityGate) (c : Option Cached) (r : Runner W)
      → tip (result_for ex art level g c r).1.world ≡ tip r.world
  unfolding run_and_store
  result_for-tip level g (some c) r = refl
  result_for-tip level g none r =
      let (v, r') = run_gate ex g r in
      laws.tip-save level g.name (cached_result art.first_500 (art.now r'.world) v) r'.world
      ∙ run_gate-tip g r

  gates_of_level-tip :
      (threshold level : ℕ) (gs : List QualityGate) (r : Runner W)
      → tip (gates_of_level ex art threshold level gs r).1.world ≡ tip r.world
  unfolding gates_of_level
  gates_of_level-tip threshold level [] r = refl
  gates_of_level-tip threshold level (g ∷ gs) r =
      let cached = fresh threshold (art.now r.world) (art.load level g.name r.world) in
      gates_of_level-tip threshold level gs (result_for ex art level g cached r).1
      ∙ result_for-tip level g cached r

  gates_of_level-length :
      (threshold level : ℕ) (gs : List QualityGate) (r : Runner W)
      → length (gates_of_level ex art threshold level gs r).0 ≡ length gs
  unfolding gates_of_level
  gates_of_level-length threshold level [] r = refl
  gates_of_level-length threshold level (g ∷ gs) r =
      let cached = fresh threshold (art.now r.world) (art.load level g.name r.world) in
      ap suc (gates_of_level-length threshold level gs (result_for ex art level g cached r).1)

  module _ (c0 : String) (L : List GateRunResult → Option String → Type 0) where
    with_runner-Phase :
        {A : Type 0} (f : Runner W → A × Runner W)
        → ((r : Runner W) → tip (f r).1.world ≡ tip r.world)
        → (Q : A → Type 0) → ((r : Runner W) → Q (f r).0)
        → Ensures (Phase tip c0 L) (with_runner f) (λ a s. Phase tip c0 L s × Q a) (Phase tip c0 L)
    with_runner-Phase f keeps Q q = record {
      after = λ s (h, l). ((keeps s.runner ∙ h, l), q s.runner);
    }

    After-made :
        (x : Option String × W)
        → tip (x.1) ≡ some c0
        → After (λ _ w. tip w ≡ some c0) (λ w. tip w ≡ some c0) (made x)
    After-made (none, w') h = h
    After-made (some m, w') h = h

    make_dir-Phase :
        (level : ℕ) → Keeps (Phase tip c0 L) (on_world (λ w. made (art.make_dir level w)))
    make_dir-Phase level = Ensures-on_world L (record {
      after = λ w h. After-made (art.make_dir level w) (laws.tip-make_dir level w ∙ h);
    })

    -- As many results as required gates, none of them a failure, where the gates passed.
    pub run_gates_at-Phase :
        (pipeline : GatePipeline) (level : ℕ) (skip_tests : Bool) (gates : List QualityGate)
        → Ensures
            (Phase tip c0 L)
            (run_gates_at ex art pipeline level skip_tests gates)
            (λ a s.
              Phase tip c0 L s
              × (a.0 ≡ true → AllPassed (length (required_gates skip_tests gates)) (a.1)))
            (Phase tip c0 L)
    unfolding run_gates_at run_gates_for_level
    run_gates_at-Phase (some threshold) level skip_tests gates =
        let gs = required_gates skip_tests gates in
        Ensures-bind
          (Ensures-bind (make_dir-Phase level) λ _.
            with_runner-Phase _ (gates_of_level-tip threshold level gs)
              (λ vs. length vs ≡ length gs) (gates_of_level-length threshold level gs))
          λ vs. record { after = λ s (h, e). (h, λ p. (passed_all-AllPassed vs p, e)) }
    run_gates_at-Phase none level skip_tests gates =
        with_runner-Phase _ (run_all_gates-tip (required_gates skip_tests gates)) _
          (fallback-AllPassed ex skip_tests gates)
