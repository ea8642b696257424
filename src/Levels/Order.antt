-- ===== src/Levels/Order.antt =====
-- What `start_level` of zerg/levels.py allows and refuses.
use zerg.Common.{
  NoRepeat, ℕ, zero, suc, ◌+◌, ◌-◌, ◌≤◌, ◌<◌, ◌≡◌, refl, true, false, none, some, List, String,
  nat_eq, string_eq, arith, Option-cases, Bool-cases, inl, inr, All, ◌∙◌, ap, nat_beq, nat_beq_iff,
  subst,
}
use zerg.Common.Dict.{lookup, contains}
use zerg.Levels.{
  Task, LevelController, ok, err, not_complete, is_terminal, blocks, first_blocking,
  get_tasks_for_level, start_level, initialize, is_level_resolved,
}
use zerg.Levels.Steps.{Reach}
use zerg.Levels.Initial.{ids}
use zerg.Levels.Resolved.{all_terminal, is_level_resolved-Reach}

-- No level from `lo` up to `hi`, exclusive, blocks.
abbrev pub IsFree : ℕ → ℕ → LevelController → Type 0
IsFree lo hi c = (k : ℕ) → lo ≤ k → k < hi → blocks k c ≡ false

IsFree-step :
    (lo hi : ℕ) (c : LevelController) → blocks lo c ≡ false → IsFree (lo + 1) hi c → IsFree lo hi c
IsFree-step lo hi c here rest k a b = elim (Bool-cases (nat_beq lo k)) [
  | inl e ↦ subst (λ j. blocks j c ≡ false) ((nat_beq_iff lo k).0 e) here
  | inr e ↦ rest k (ground arith) b
]

first_blocking-none :
    (lo n : ℕ) (c : LevelController) → first_blocking lo n c ≡ none → IsFree lo (lo + n) c
unfolding first_blocking
first_blocking-none lo zero c e = λ k a b. absurd (omega arith)
first_blocking-none lo (suc n) c e =
    let rest = first_blocking-none (lo + 1) n c (ground arith) in
    IsFree-step lo (lo + suc n) c (ground arith) (λ k a b. rest k a (omega arith))

first_blocking-some :
    (lo n p : ℕ) (c : LevelController)
    → first_blocking lo n c ≡ some p
    → (lo ≤ p) × (p < lo + n) × (blocks p c ≡ true) × IsFree lo p c
unfolding first_blocking
first_blocking-some lo zero p c e = absurd (ground arith)
first_blocking-some lo (suc n) p c e = elim (Bool-cases (blocks lo c)) [
  | inl b ↦
      let same : lo ≡ p = ground arith in
      (
        omega arith,
        omega arith,
        subst (λ j. blocks j c ≡ true) same b,
        λ k a l. absurd (omega arith),
      )
  | inr f ↦
      let (a, l, b, free) = first_blocking-some (lo + 1) n p c (ground arith) in
      (omega arith, omega arith, b, IsFree-step lo p c f free)
]

first_blocking_of_free :
    (lo n : ℕ) (c : LevelController) → IsFree lo (lo + n) c → first_blocking lo n c ≡ none
first_blocking_of_free lo n c free = elim (Option-cases (first_blocking lo n c)) [
  | inl e ↦ e
  | inr (p, e) ↦
      let (a, l, b, _) = first_blocking-some lo n p c e in absurd (ground (arith, free p a l))
]

first_blocking_of_first :
    (lo n p : ℕ) (c : LevelController)
    → lo ≤ p
    → p < lo + n
    → blocks p c ≡ true
    → IsFree lo p c
    → first_blocking lo n c ≡ some p
first_blocking_of_first lo n p c a l b free = elim (Option-cases (first_blocking lo n c)) [
  | inl e ↦ absurd (ground (arith, first_blocking-none lo n c e p a l))
  | inr (q, e) ↦
      let (a', l', b', free') = first_blocking-some lo n q c e in
      let same : q ≡ p = ground (arith, free q a', free' p a) in e ∙ ap some same
]

-- A level that exists and whose lower levels are all resolved or missing is started: it becomes
-- the current level, and its task IDs are returned.
pub start_level_runs :
    (level now : ℕ) (c : LevelController)
    → contains level c.levels ≡ true
    → IsFree 1 level c
    → let (r, c') = start_level level now c in
      (r ≡ ok (get_tasks_for_level level c))
      × (c'.current_level ≡ level)
      × (c'.started ≡ true)
      × (c'.tasks ≡ c.tasks)
unfolding start_level
start_level_runs level now c there free = elim (Option-cases (lookup level c.levels)) [
  | inl absent ↦ absurd (ground arith)
  | inr (s, e) ↦
      let clear = first_blocking_of_free 1 (level - 1) c (λ k a b. free k a (omega arith)) in
      rw (e, start_level, clear) (unfold get_tasks_for_level in (refl, refl, refl, refl))
]

-- A level that exists is refused when a lower level blocks, and nothing changes; the error names the
-- lowest level that blocks.
pub start_level_refuses :
    (level prev now : ℕ) (c : LevelController)
    → contains level c.levels ≡ true
    → 1 ≤ prev
    → prev < level
    → blocks prev c ≡ true
    → IsFree 1 prev c
    → start_level level now c ≡ (err (not_complete level prev), c)
unfolding start_level
start_level_refuses level prev now c there a l b free =
    ground (arith, first_blocking_of_first 1 (level - 1) prev c a (omega arith) b free)

-- From a task graph with distinct IDs, none of its tasks complete or failed, through any calls: a
-- level starts only when every task of every lower level is complete or failed.
pub start_level_order :
    (ts : List Task) (c d : LevelController) (level prev now : ℕ) (started : List String)
    → NoRepeat (ids ts)
    → All (λ t. is_terminal t ≡ false) ts
    → initialize ts ≡ some c
    → Reach c d
    → (start_level level now d).0 ≡ ok started
    → 1 ≤ prev
    → prev < level
    → contains prev d.levels ≡ true
    → all_terminal prev d.tasks ≡ true
unfolding start_level
start_level_order ts c d level prev now started n o e r s lo hi there =
    elim (Option-cases (first_blocking 1 (level - 1) d)) [
      | inl clear ↦
          let free : blocks prev d ≡ false =
            first_blocking-none 1 (level - 1) d clear prev lo (omega arith) in
          let resolved = is_level_resolved-Reach ts c d prev n o e r in
          unfold is_level_resolved in ground arith
      | inr (p, held) ↦ absurd (ground arith)
    ]
