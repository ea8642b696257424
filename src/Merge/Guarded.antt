-- ===== src/Merge/Guarded.antt =====
-- A merge of zerg/merge.py moves its target only behind its gates.
use zerg.Common.{
  ℕ, ◌+◌, ◌≡◌, refl, sym, subst, ◌∙◌, Bool, true, false, Option, none, some, is_some, List, [], ◌∷◌,
  String, ◌==◌, nat_eq, string_eq, arith, ◌⊎◌, inl, inr,
}
use zerg.Gates.{Executor}
use zerg.Git.{Git, list_worker_branches}
use zerg.Git.Calls.{and_then}
use zerg.Git.Triple.{After-state, After-of_state, Ensures, Ensures-bind, Ensures-weaken}
use zerg.Git.Still.{GitLaws, list_worker_branches-Rests}
use zerg.Merge.Pipeline.{Artifacts, Site, GatePipeline, on_world}
use zerg.Merge.Passed.{AllPassed}
use zerg.Merge.GateSteps.{GateLaws, Ensures-on_world}
use zerg.Merge.Flow.{gates_per_round, guarded_flow-Outcome}
use zerg.Merge.{Coordinator, Request, guarded_flow, flow_on, full_merge_flow}

zero_add : (n : ℕ) → 0 + n ≡ n
zero_add n = omega arith

value_of : {A : Type 0} (x : Option A) → is_some x ≡ true → (a : A) × (x ≡ some a)
value_of none h = absurd (ground (arith, h))
value_of (some a) h = (a, refl)

module _ {W : Type 0} (ex : Executor W) (art : Artifacts W) (git : Git W) (pipeline : GatePipeline)
    (m : Coordinator) (laws : GitLaws git) (b : String) (gate_laws : GateLaws ex art (laws.tip b))
    (staging_differs : (git.staging_name m.feature == b) ≡ false) (target : String) (level : ℕ)
    (skip_gates skip_tests : Bool) where
  abbrev Safe : String → Site W → Type 0
  Safe c0 s =
      let g = gates_per_round skip_gates skip_tests m.quality_gates in
      (laws.tip b s.runner.world ≡ some c0) ⊎ AllPassed (g + g) s.gate_results

  flow_on-Safe :
      (c0 : String) (found : List String)
      → Ensures
          (λ s. (laws.tip b s.runner.world ≡ some c0) × Unit {0})
          (flow_on ex art git pipeline m level target skip_gates skip_tests found)
          (λ _. Safe c0)
          (Safe c0)
  flow_on-Safe c0 [] = record { after = λ s h. inl (h.0) }
  flow_on-Safe c0 (x ∷ found) =
      let q : Request = record {
        level = level;
        worker_branches = x ∷ found;
        target_branch = target;
        skip_gates = skip_gates;
        skip_tests = skip_tests;
      } in
      let g = gates_per_round skip_gates skip_tests m.quality_gates in
      record {
        after = λ s h. After-of_state (Safe c0) (guarded_flow ex art git pipeline m q s) (
            subst
              (λ n.
                (laws.tip b (guarded_flow ex art git pipeline m q s).1.runner.world ≡ some c0)
                ⊎ AllPassed (n + g) (guarded_flow ex art git pipeline m q s).1.gate_results)
              (zero_add g)
              (guarded_flow-Outcome ex art git pipeline m laws b gate_laws staging_differs c0 q s
                (h.0)).0);
      }

  full_merge_flow-Safe :
      (c0 : String) (worker_branches : Option (List String)) (s : Site W)
      → laws.tip b s.runner.world ≡ some c0
      → Safe c0
          (full_merge_flow ex art git pipeline m level worker_branches target skip_gates skip_tests
            s).1
  unfolding full_merge_flow
  full_merge_flow-Safe c0 (some given) s h =
      After-state (Safe c0)
        (flow_on ex art git pipeline m level target skip_gates skip_tests given s)
        ((flow_on-Safe c0 given).after s (h, tt))
  full_merge_flow-Safe c0 none s h =
      After-state (Safe c0)
        (and_then (flow_on ex art git pipeline m level target skip_gates skip_tests)
          (on_world (list_worker_branches git m.feature) s))
        ((Ensures-bind
            (Ensures-weaken
              (Ensures-on_world (λ _ _. Unit {0})
                (list_worker_branches-Rests git laws b c0 m.feature))
              (λ _ _ h. h) (λ _ h. inl (h.0)))
            (flow_on-Safe c0)).after
          s (h, tt))

  -- If a branch other than the staging branch exists, then after the merge flow, however it ends,
  -- the branch is where it was, or every result of the gates is no failure and they are as many as
  -- the required gates before the merge and again after it; none if gates are skipped. This takes
  -- that git moves and checks out branches as it documents, and that the commands of the gates and
  -- the files of their results leave the branch where it is.
  pub full_merge_flow_guarded :
      (worker_branches : Option (List String)) (s : Site W)
      → is_some (laws.tip b s.runner.world) ≡ true
      → let s' =
          (full_merge_flow ex art git pipeline m level worker_branches target skip_gates skip_tests
            s).1 in
        let g = gates_per_round skip_gates skip_tests m.quality_gates in
        (laws.tip b s'.runner.world ≡ laws.tip b s.runner.world) ⊎ AllPassed (g + g) s'.gate_results
  full_merge_flow_guarded worker_branches s h =
      let (c0, e) = value_of (laws.tip b s.runner.world) h in
      elim (full_merge_flow-Safe c0 worker_branches s e) [
        | inl at ↦ inl (at ∙ sym e)
        | inr passed ↦ inr passed
      ]
