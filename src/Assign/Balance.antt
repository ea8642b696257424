-- ===== src/Assign/Balance.antt =====
-- How evenly zerg/assign.py spreads the minutes of a level, and what the totals count.
use zerg.Common.{
  ℕ, zero, suc, ◌+◌, ◌≤◌, ◌<◌, ◌≡◌, subst, sym, Bool, true, false, some, List, [], ◌∷◌, ◌==◌,
  nat_eq, if◌then◌else◌, get_or, arith, Option-cases, Bool-cases, inl, inr, All,
}
use zerg.Common.Dict.{Dict, lookup, insert, lookup-insert}
use zerg.Assign.{
  Task, WorkerAssignment, minutes_or, minutes_of, add_minutes, scan, least_loaded, place, place_all,
}

minutes_of-add_minutes :
    (w v m : ℕ) (d : Dict ℕ ℕ)
    → minutes_of v (add_minutes w m d) ≡ (if w == v then minutes_of w d + m else minutes_of v d)
unfolding minutes_of add_minutes
minutes_of-add_minutes w v m d = ground (arith, lookup-insert w v (get_or (lookup w d) 0 + m) d)

-- The sum of all minutes in a dictionary.
abbrev pub total : Dict ℕ ℕ → ℕ
total [] = 0
total (e ∷ d) = e.1 + total d

total-add_minutes : (w m : ℕ) (d : Dict ℕ ℕ) → total (add_minutes w m d) ≡ total d + m
unfolding add_minutes lookup insert
total-add_minutes w m [] = ground arith
total-add_minutes w m ((v, n) ∷ d) = ground (arith, total-add_minutes w m d)

-- The scanned worker is in range, and has no more minutes than the best one before.
scan_best :
    (d : Dict ℕ ℕ) (w n best : ℕ)
    → best < w
    → (scan d w n best < w + n) × (minutes_of (scan d w n best) d ≤ minutes_of best d)
unfolding scan
scan_best d w zero best h = (omega arith, omega arith)
scan_best d w (suc n) best h = ground (arith, scan_best d (w + 1) n best, scan_best d (w + 1) n w)

-- And no more than any worker that the scan looks at.
scan_all :
    (d : Dict ℕ ℕ) (w n best v : ℕ)
    → best < w
    → w ≤ v
    → v < w + n
    → minutes_of (scan d w n best) d ≤ minutes_of v d
unfolding scan
scan_all d w zero best v h lo hi = absurd (omega arith)
scan_all d w (suc n) best v h lo hi = elim (Bool-cases (w == v)) [
  | inl same ↦
      let e : w ≡ v = (nat_eq.same_iff w v).0 same in
      subst (λ u. minutes_of (scan d w (suc n) best) d ≤ minutes_of u d) e
        (ground (arith, scan_best d (w + 1) n best, scan_best d (w + 1) n w))
  | inr other ↦
      let later : w + 1 ≤ v = ground (arith, nat_eq.same_iff w v) in
      ground (arith, scan_all d (w + 1) n best v, scan_all d (w + 1) n w v, later)
]

least_loaded_least :
    (n w v : ℕ) (d : Dict ℕ ℕ)
    → least_loaded n d ≡ some w
    → v < n
    → (w < n) × (minutes_of w d ≤ minutes_of v d)
unfolding least_loaded
least_loaded_least zero w v d e h = absurd (omega arith)
least_loaded_least (suc n) w zero d e h = ground (arith, scan_best d 1 n 0)
least_loaded_least (suc n) w (suc v) d e h =
    ground (arith, scan_best d 1 n 0, scan_all d 1 n 0 (suc v))

-- Of `n` workers, none has more than `m` minutes more than another.
abbrev pub IsBalanced : ℕ → ℕ → Dict ℕ ℕ → Type 0
IsBalanced n m d = (w v : ℕ) → w < n → v < n → minutes_of w d ≤ minutes_of v d + m

place-IsBalanced :
    (t : Task) (a a' : WorkerAssignment) (d d' : Dict ℕ ℕ) (m : ℕ)
    → place true t a d ≡ some (a', d')
    → minutes_or t ≤ m
    → IsBalanced a.worker_count m d
    → IsBalanced a.worker_count m d' × (a'.worker_count ≡ a.worker_count)
unfolding place
place-IsBalanced t a a' d d' m e short b = elim (Option-cases (least_loaded a.worker_count d)) [
  | inl nobody ↦ absurd (ground arith)
  | inr (x, found) ↦ (
    λ w v hw hv. ground (
      arith,
      b w v hw hv,
      least_loaded_least a.worker_count x v d found hv,
      minutes_of-add_minutes x w (minutes_or t) d,
      minutes_of-add_minutes x v (minutes_or t) d,
      nat_eq.same_iff x w,
      nat_eq.same_iff x v,
    ),
    ground arith,
  )
]

place_all-IsBalanced :
    (ts : List Task) (a a' : WorkerAssignment) (d d' : Dict ℕ ℕ) (m : ℕ)
    → place_all true ts a d ≡ some (a', d')
    → All (λ t. minutes_or t ≤ m) ts
    → IsBalanced a.worker_count m d
    → IsBalanced a.worker_count m d'
unfolding place_all
place_all-IsBalanced [] a a' d d' m e s b = λ w v hw hv. ground (arith, b w v hw hv)
place_all-IsBalanced (t ∷ ts) a a' d d' m e (here, there) b =
    elim (Option-cases (place true t a d)) [
      | inl nobody ↦ absurd (ground arith)
      | inr ((a₁, d₁), first) ↦
          let (b₁, n) = place-IsBalanced t a a₁ d d₁ m first here b in
          let rest : place_all true ts a₁ d₁ ≡ some (a', d') = ground arith in
          let b₂ = place_all-IsBalanced ts a₁ a' d₁ d' m rest there (rw n b₁) in rw (sym n) b₂
    ]

-- With balancing, after the tasks of a level are placed, in any order, the minutes of two workers on
-- this level differ by at most the longest task.
pub place_all_balance :
    (ts : List Task) (a a' : WorkerAssignment) (d : Dict ℕ ℕ) (m w v : ℕ)
    → place_all true ts a [] ≡ some (a', d)
    → All (λ t. minutes_or t ≤ m) ts
    → w < a.worker_count
    → v < a.worker_count
    → minutes_of w d ≤ minutes_of v d + m
place_all_balance ts a a' d m w v e s hw hv =
    place_all-IsBalanced ts a a' [] d m e s
      (λ x y hx hy. unfold minutes_of in unfold lookup in omega arith) w v hw hv

-- The estimated minutes of all tasks together.
abbrev pub estimated : List Task → ℕ
estimated [] = 0
estimated (t ∷ ts) = minutes_or t + estimated ts

place_total :
    (balance : Bool) (t : Task) (a a' : WorkerAssignment) (d d' : Dict ℕ ℕ)
    → place balance t a d ≡ some (a', d')
    → total a'.worker_minutes
      ≡ total a.worker_minutes + (if balance then minutes_or t else minutes_or t + minutes_or t)
unfolding place
place_total true t a a' d d' e = elim (Option-cases (least_loaded a.worker_count d)) [
  | inl nobody ↦ absurd (ground arith)
  | inr (x, found) ↦ ground (arith, total-add_minutes x (minutes_or t) a.worker_minutes)
]
place_total false t a a' d d' e =
    elim (Option-cases (least_loaded a.worker_count a.worker_minutes)) [
      | inl nobody ↦ absurd (ground arith)
      | inr (x, found) ↦ ground (
        arith,
        total-add_minutes x (minutes_or t) a.worker_minutes,
        total-add_minutes x (minutes_or t) (add_minutes x (minutes_or t) a.worker_minutes),
      )
    ]

-- Placing tasks adds their estimated minutes to the workers' minutes once with balancing by level,
-- and twice without it.
pub place_all_total :
    (balance : Bool) (ts : List Task) (a a' : WorkerAssignment) (d d' : Dict ℕ ℕ)
    → place_all balance ts a d ≡ some (a', d')
    → total a'.worker_minutes
      ≡ total a.worker_minutes + (if balance then estimated ts else estimated ts + estimated ts)
unfolding place_all
place_all_total balance [] a a' d d' e = ground arith
place_all_total balance (t ∷ ts) a a' d d' e = elim (Option-cases (place balance t a d)) [
  | inl nobody ↦ absurd (ground arith)
  | inr ((a₁, d₁), first) ↦
      let rest : place_all balance ts a₁ d₁ ≡ some (a', d') = ground arith in
      ground
        (arith, place_total balance t a a₁ d d₁ first, place_all_total balance ts a₁ a' d₁ d' rest)
]
