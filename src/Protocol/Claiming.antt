-- ===== src/Protocol/Claiming.antt =====
-- What `claim_next_task` of zerg/protocol_state.py answers.
use zerg.Common.{
  ℕ, zero, suc, ◌+◌, ◌*◌, ◌/◌, ◌≤◌, ◌<◌, ◌≡◌, refl, ap, Bool, true, false, Option, none, some, List,
  [], ◌∷◌, String, leb, arith, Bool-cases, inl, inr,
}
use zerg.State.{claim_task, get_tasks_by_status}
use zerg.State.LevelRepo.{get_current_level}
use zerg.State.Exclusive.{IsHeld, claim_task-IsHeld}
use zerg.Constants as Constants
use zerg.Protocol.{
  Shared, Protocol, after_round, remembered, claim_first, claim_loop, next_interval,
  claim_next_task,
}

-- A task that is claimed is held by the worker.
abbrev Holds : Protocol → Option String → Shared → Type 0
Holds p none s = Unit {0}
Holds p (some k) s = IsHeld k p.worker_id s.tasks

-- The worker remembers a task that it holds, or is as before.
abbrev pub Remembers : Protocol → Option String → Protocol → Shared → Type 0
Remembers p none p' s = p' ≡ p
Remembers p (some k) p' s = (p'.current_task ≡ some k) × IsHeld k p.worker_id s.tasks

module _ (p : Protocol) (others : ℕ → Shared → Shared) (now busy late : ℕ → ℕ) where
  claim_first-Holds :
      (i : ℕ) (ks : List String) (s : Shared)
      → let (claimed, (j, s')) = claim_first p others now busy late i ks s in Holds p claimed s'
  unfolding claim_first
  claim_first-Holds i [] s = tt
  claim_first-Holds i (k ∷ ks) s =
      let s₁ = others i s in
      let level = some (get_current_level s.level_state) in
      let claim = claim_task k p.worker_id level p.checker (now i) (now i) s₁.tasks in
      elim (Bool-cases (claim.0)) [
        | inl e ↦ rw e (claim_task-IsHeld k p.worker_id (now i) (now i) level p.checker s₁.tasks e)
        | inr e ↦ rw e (claim_first-Holds (i + 1) ks (record s₁ { tasks = claim.1 }))
      ]

  abbrev Ends : Option (Option String × Shared) → Type 0
  Ends x = (a : Option String) × (s' : Shared) × (x ≡ some (a, s')) × Holds p a s'

  after_round-Ends :
      (claimed : Option String) (is_over : Bool) (s : Shared)
      (rest : Option (Option String × Shared))
      → Holds p claimed s
      → (is_over ≡ false → Ends rest)
      → Ends (after_round claimed is_over s rest)
  after_round-Ends (some k) is_over s rest h r = (some k, s, refl, h)
  after_round-Ends none true s rest h r = (none, s, refl, tt)
  after_round-Ends none false s rest h r = r refl

  next_interval-positive :
      (ceiling interval : ℕ) → 1 ≤ interval → 1 ≤ ceiling → 1 ≤ next_interval ceiling interval
  next_interval-positive ceiling interval h c =
      let half : 1 ≤ interval * 3 / 2 = omega (arith, h) in ground (arith, half, c)

  -- With a round of fuel for each tick that is left, the loop ends.
  claim_loop_lem :
      (max_wait ceiling fuel i interval elapsed : ℕ) (s : Shared)
      → 1 ≤ interval
      → 1 ≤ ceiling
      → 1 ≤ fuel
      → max_wait + 1 ≤ elapsed + fuel
      → Ends (claim_loop p others now busy late max_wait ceiling fuel i interval elapsed s)
  unfolding claim_loop
  claim_loop_lem max_wait ceiling zero i interval elapsed s h c one f = absurd (omega (arith, one))
  claim_loop_lem max_wait ceiling (suc n) i interval elapsed s h c one f =
      let s₁ = others i s in
      let ks = get_tasks_by_status (Constants.value Constants.pending) s₁.tasks in
      let (claimed, (j, s₂)) = claim_first p others now busy late (i + 1) ks s₁ in
      let waited = elapsed + busy i in
      after_round-Ends claimed (leb max_wait waited) s₂ _ (claim_first-Holds (i + 1) ks s₁)
        λ goes_on.
          let before : waited < max_wait = ground (arith, goes_on) in
          claim_loop_lem max_wait ceiling n j (next_interval ceiling interval)
            (waited + interval + late i) s₂ (next_interval-positive ceiling interval h c) c
            (omega (arith, f, before)) (omega (arith, f, h))

  claim_next_task-of_loop :
      (max_wait ceiling poll_interval : ℕ) (a : Option String) (s s' : Shared)
      → claim_loop p others now busy late max_wait ceiling (suc max_wait) 0 poll_interval 0 s
        ≡ some (a, s')
      → Holds p a s'
      → (p' : Protocol) × (claim_next_task p others now busy late max_wait ceiling poll_interval s
          ≡ some (a, (p', s')))
        × Remembers p a p' s'
  unfolding claim_next_task
  claim_next_task-of_loop max_wait ceiling poll_interval none s s' e h =
      (p, ap (remembered p) e, refl)
  claim_next_task-of_loop max_wait ceiling poll_interval (some k) s s' e h =
      (record p { current_task = some k }, ap (remembered p) e, (refl, h))

  -- Whatever other processes do to the state in between, a worker that asks for a task, with a
  -- positive interval of polling, comes to an answer: a task, which then is claimed by this worker in
  -- the shared state, and which it remembers; or none, and then the worker is as before.
  pub claim_next_task_lem :
      (max_wait ceiling poll_interval : ℕ) (s : Shared)
      → 1 ≤ poll_interval
      → 1 ≤ ceiling
      → (a : Option String) × (p' : Protocol) × (s' : Shared) × (claim_next_task p others now busy
            late max_wait ceiling poll_interval s
          ≡ some (a, (p', s')))
        × Remembers p a p' s'
  claim_next_task_lem max_wait ceiling poll_interval s h c =
      let (a, s', e, held) =
        claim_loop_lem max_wait ceiling (suc max_wait) 0 poll_interval 0 s h c (omega arith)
          (omega arith) in
      let (p', f, r) = claim_next_task-of_loop max_wait ceiling poll_interval a s s' e held in
      (a, p', s', f, r)
