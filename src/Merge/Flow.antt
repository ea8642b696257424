-- ===== src/Merge/Flow.antt =====
-- The steps of `full_merge_flow` of zerg/merge.py, before and behind their gates.
use zerg.Common.{
  ℕ, ◌+◌, ◌≡◌, refl, ap, ◌∙◌, Bool, true, false, not, Option, some, List, ◌++◌, String, ◌==◌,
  nat_eq, string_eq, if◌then◌else◌, arith, length, ◌⊎◌, inl, inr,
}
use zerg.Gates.{QualityGate, GateRunResult, Executor}
use zerg.Git.{Git, delete_branch}
use zerg.Git.Calls.{Problem, Answer, done, raised, Act, ◌>>=◌, ◌>>◌, rescue}
use zerg.Git.Triple.{
  After, After-state, Ensures, Keeps, Ensures-bind, Ensures-rescue, Ensures-weaken,
}
use zerg.Git.Still.{GitLaws, create_staging_branch-Rests}
use zerg.Merge.Pipeline.{
  Artifacts, Site, GatePipeline, on_world, required_gates, run_gates_at, run_pre_merge_gates,
}
use zerg.Merge.Steps.{prepare_merge, finalize, abort}
use zerg.Merge.Quiet.{differs_from, execute_merge-Rests, abort-Rests}
use zerg.Merge.Passed.{AllPassed, AllPassed-append}
use zerg.Merge.GateSteps.{GateLaws, Phase, Ensures-on_world, run_gates_at-Phase}
use zerg.Merge.{
  Coordinator, Request, FlowError, flow_failed, flow_error, flow_succeeded, gate_step, finish_flow,
  merge_steps, flow_steps, flow_handler, guarded_flow, new_site, post_merge_gates_failed,
  pre_merge_gates_failed,
}

-- The gates that one round of a merge has to pass.
unfoldable pub gates_per_round : Bool → Bool → List QualityGate → ℕ
gates_per_round skip_gates skip_tests gates =
    if skip_gates then 0 else length (required_gates skip_tests gates)

module _ {W : Type 0} (ex : Executor W) (art : Artifacts W) (git : Git W) (pipeline : GatePipeline)
    (m : Coordinator) (laws : GitLaws git) (b : String) (gate_laws : GateLaws ex art (laws.tip b))
    (staging_differs : (git.staging_name m.feature == b) ≡ false) (c0 : String) where
  abbrev At : (List GateRunResult → Type 0) → Site W → Type 0
  At L = Phase (laws.tip b) c0 (λ vs staging. L vs × (differs_from b staging ≡ true))

  abbrev AtAny : Site W → Type 0
  AtAny = At (λ _. Unit {0})

  -- The branch has not moved, or so many results are there, none of them a failure.
  abbrev pub Outcome : ℕ → Site W → Type 0
  Outcome k s =
      ((laws.tip b s.runner.world ≡ some c0) ⊎ AllPassed k s.gate_results)
      × (differs_from b s.staging_branch ≡ true)

  abbrev AfterGates : ℕ → Bool → Site W → Type 0
  AfterGates k true = At (AllPassed k)
  AfterGates k false = AtAny

  AtAny-Outcome : (k : ℕ) (s : Site W) → AtAny s → Outcome k s
  AtAny-Outcome k s (h, (l, d)) = (inl h, d)

  forget : (k : ℕ) (s : Site W) → At (AllPassed k) s → AtAny s
  forget k s (h, (l, d)) = (h, (tt, d))

  -- The results join the others.
  extended :
      (n k : ℕ) (passed : Bool) (vs : List GateRunResult) (s : Site W)
      → At (AllPassed n) s
      → (passed ≡ true → AllPassed k vs)
      → AfterGates (n + k) passed (record s { gate_results = s.gate_results ++ vs })
  extended n k true vs s (h, (l, d)) g = (h, (AllPassed-append n k s.gate_results vs l (g refl), d))
  extended n k false vs s (h, (l, d)) g = (h, (tt, d))

  gate_step-At :
      (skip_gates skip_tests : Bool) (n level : ℕ)
      → Ensures
          (At (AllPassed n))
          (gate_step ex art git pipeline m skip_gates
            (run_gates_at ex art pipeline level skip_tests m.quality_gates))
          (AfterGates (n + gates_per_round skip_gates skip_tests m.quality_gates))
          AtAny
  unfolding gate_step gates_per_round
  gate_step-At true skip_tests n level = record {
    after = λ s (h, (l, d)). (h, ((l.0, omega (arith, l.1)), d));
  }
  gate_step-At false skip_tests n level =
      Ensures-bind {R = AfterGates (n + length (required_gates skip_tests m.quality_gates))}
        (Ensures-weaken
          (run_gates_at-Phase ex art (laws.tip b) gate_laws c0 _ pipeline level skip_tests
            m.quality_gates)
          (λ _ _ h. h) (forget n))
        λ (passed, vs). record { after = λ s (h, g). extended n _ passed vs s h g }

  abort-At :
      (staging : Option String)
      → differs_from b staging ≡ true
      → Keeps AtAny (on_world (abort git staging))
  abort-At staging d = Ensures-on_world _ (abort-Rests git laws b c0 staging d)

  fail-Outcome :
      (k : ℕ) (q : Request) (e : FlowError)
      → Ensures AtAny (flow_failed q e) (λ _. Outcome k) (Outcome k)
  fail-Outcome k q e = record { after = λ s h. AtAny-Outcome k s h }

  abbrev Behind : ℕ → Site W → Type 0
  Behind k s = AllPassed k s.gate_results × (differs_from b s.staging_branch ≡ true)

  After-kept :
      {A : Type 0} (k : ℕ) (s : Site W) (x : Answer A × W)
      → Behind k s
      → After
          (λ _. Behind k)
          (Behind k)
          (x.0, record s { runner = record s.runner { world = x.1 } })
  After-kept k s (done a, w) h = h
  After-kept k s (raised p, w) h = h

  Behind-Outcome : (k : ℕ) (s : Site W) → Behind k s → Outcome k s
  Behind-Outcome k s (h, d) = (inr h, d)

  -- Behind the gates the branch may move, and what they answered stays.
  kept : {A : Type 0} (k : ℕ) (f : Act W A) → Keeps (Behind k) (on_world f)
  kept k f = record { after = λ s h. After-kept k s (f s.runner.world) h }

  succeed-Behind :
      (k : ℕ) (q : Request) (commit : String) → Keeps (Behind k) (flow_succeeded q commit)
  succeed-Behind k q commit = record { after = λ s h. h }

  finish_flow-Outcome :
      (k : ℕ) (q : Request) (staging : String)
      → Ensures
          (Behind k)
          (finish_flow ex art git pipeline m q staging)
          (λ _. Outcome k)
          (Outcome k)
  unfolding finish_flow
  finish_flow-Outcome k q staging =
      Ensures-weaken
        (Ensures-bind (kept k (finalize git staging q.target_branch)) λ commit.
          Ensures-bind (kept k (delete_branch git staging true)) λ _. succeed-Behind k q commit)
        (λ _. Behind-Outcome k) (Behind-Outcome k)

  after_post_gates :
      (q : Request) (staging : String) (k : ℕ)
      → (staging == b) ≡ false
      → (passed : Bool)
      → Ensures
          (AfterGates k passed)
          (if passed
            then finish_flow ex art git pipeline m q staging
            else (on_world (abort git (some staging)) >> flow_failed q post_merge_gates_failed))
          (λ _. Outcome k)
          (Outcome k)
  after_post_gates q staging k differs true = record {
    after = λ s (h, r). (finish_flow-Outcome k q staging).after s r;
  }
  after_post_gates q staging k differs false =
      Ensures-bind
        (Ensures-weaken (abort-At (some staging) (ground (arith, differs))) (λ _ _ h. h)
          (AtAny-Outcome k))
        λ _. fail-Outcome k q post_merge_gates_failed

  merge_steps-Outcome :
      (q : Request) (staging : String) (n : ℕ)
      → (staging == b) ≡ false
      → let k = n + gates_per_round q.skip_gates q.skip_tests m.quality_gates in
        Ensures
          (At (AllPassed n))
          (merge_steps ex art git pipeline m q staging)
          (λ _. Outcome k)
          (Outcome k)
  unfolding merge_steps
  merge_steps-Outcome q staging n differs =
      let k = n + gates_per_round q.skip_gates q.skip_tests m.quality_gates in
      Ensures-bind
        (Ensures-weaken
          (Ensures-on_world _ (execute_merge-Rests git laws b c0 q.worker_branches staging differs))
          (λ _ _ h. h) (λ s h. AtAny-Outcome k s (forget n s h)))
        λ _.
          Ensures-bind
            (Ensures-weaken (gate_step-At q.skip_gates q.skip_tests n (q.level + 1000)) (λ _ _ h. h)
              (AtAny-Outcome k))
            (after_post_gates q staging k differs)

  after_pre_gates :
      (q : Request) (staging : String) (n : ℕ)
      → (staging == b) ≡ false
      → (passed : Bool)
      → let k = n + gates_per_round q.skip_gates q.skip_tests m.quality_gates in
        Ensures
          (AfterGates n passed)
          (if passed
            then merge_steps ex art git pipeline m q staging
            else flow_failed q pre_merge_gates_failed)
          (λ _. Outcome k)
          (Outcome k)
  after_pre_gates q staging n differs true = merge_steps-Outcome q staging n differs
  after_pre_gates q staging n differs false = fail-Outcome _ q pre_merge_gates_failed

  pre_gates :
      (q : Request) (staging : String)
      → (staging == b) ≡ false
      → let g = gates_per_round q.skip_gates q.skip_tests m.quality_gates in
        Ensures
          (At (AllPassed 0))
          (gate_step ex art git pipeline m q.skip_gates
              (run_pre_merge_gates ex art pipeline q.level q.skip_tests m.quality_gates)
            >>= λ passed.
                if passed
                then merge_steps ex art git pipeline m q staging
                else flow_failed q pre_merge_gates_failed)
          (λ _. Outcome (0 + g + g))
          (Outcome (0 + g + g))
  pre_gates q staging differs =
      let g = gates_per_round q.skip_gates q.skip_tests m.quality_gates in
      Ensures-bind
        (Ensures-weaken (gate_step-At q.skip_gates q.skip_tests 0 q.level) (λ _ _ h. h)
          (AtAny-Outcome (0 + g + g)))
        (after_pre_gates q staging (0 + g) differs)

  flow_steps-Outcome :
      (q : Request)
      → let g = gates_per_round q.skip_gates q.skip_tests m.quality_gates in
        Ensures
          (At (AllPassed 0))
          (flow_steps ex art git pipeline m q)
          (λ _. Outcome (0 + g + g))
          (Outcome (0 + g + g))
  unfolding flow_steps prepare_merge
  flow_steps-Outcome q =
      let g = gates_per_round q.skip_gates q.skip_tests m.quality_gates in
      let k = 0 + g + g in
      Ensures-bind
        (Ensures-weaken
          (Ensures-on_world _
            (create_staging_branch-Rests git laws b c0 m.feature q.target_branch staging_differs))
          (λ _ _ h. h) (λ s h. AtAny-Outcome k s (forget 0 s h)))
        λ staging. record {
          after = λ s ((h, e), (l, d)).
              let differs : (staging == b) ≡ false = ap (λ x. x == b) e ∙ staging_differs in
              (pre_gates q staging differs).after (record s { staging_branch = some staging })
                (h, (l, ap not differs));
        }

  failed-Behind :
      (k : ℕ) (q : Request) (e : FlowError)
      → Ensures (Behind k) (flow_failed q e) (λ _. Outcome k) (Outcome k)
  failed-Behind k q e = record { after = λ s h. Behind-Outcome k s h }

  flow_handler-Outcome :
      (k : ℕ) (q : Request) (p : Problem)
      → Ensures (Outcome k) (flow_handler ex art git pipeline m q p) (λ _. Outcome k) (Outcome k)
  unfolding flow_handler
  flow_handler-Outcome k q p = record {
    after = λ s (h, d). elim h [
      | inl at ↦
          (Ensures-bind
              (Ensures-weaken (abort-At s.staging_branch d) (λ _ _ h. h) (AtAny-Outcome k))
              (λ _. fail-Outcome k q (flow_error p))).after
            s (at, (tt, d))
      | inr ok ↦
          (Ensures-bind
              (Ensures-weaken (kept k (abort git s.staging_branch)) (λ _ _ h. h) (Behind-Outcome k))
              (λ _. failed-Behind k q (flow_error p))).after
            s (ok, d)
    ];
  }

  pub guarded_flow-Outcome :
      (q : Request) (s : Site W)
      → laws.tip b s.runner.world ≡ some c0
      → let g = gates_per_round q.skip_gates q.skip_tests m.quality_gates in
        Outcome (0 + g + g) (guarded_flow ex art git pipeline m q s).1
  unfolding guarded_flow
  guarded_flow-Outcome q s h =
      let g = gates_per_round q.skip_gates q.skip_tests m.quality_gates in
      let start : At (AllPassed 0) (new_site s.runner) = (h, ((refl, refl), refl)) in
      let k = 0 + g + g in
      After-state (Outcome k)
        (rescue (flow_steps ex art git pipeline m q) (flow_handler ex art git pipeline m q)
          (new_site s.runner))
        ((Ensures-rescue (flow_steps-Outcome q) (flow_handler-Outcome k q)).after
          (new_site s.runner) start)
