-- ===== src/Ports/Enough.antt =====
-- When `allocate` of zerg/ports.py finds enough ports.
use zerg.Common.{
  ℕ, zero, suc, ◌+◌, ◌*◌, ◌≤◌, ◌≡◌, ◌∙◌, ap, refl, Bool, true, false, List, [], ◌∷◌, nat_eq,
  if◌then◌else◌, elem, length, arith, NoRepeat, leb, count_if, take, is_some, Bool-cases, inl, inr,
  one_if,
}
use zerg.Ports.{PortAllocator, add, is_available, pick, allocate}
use zerg.Ports.Fresh.{elem-add}

module _ (can_bind : ℕ → Bool) where
  available : List ℕ → List ℕ → ℕ
  available s = count_if (λ p. is_available can_bind p s)

  available-add :
      (p n : ℕ) (ports s : List ℕ)
      → elem p ports ≡ false
      → available (add p s) (take n ports) ≡ available s (take n ports)
  unfolding available
  available-add p zero ports s h = refl
  available-add p (suc n) [] s h = refl
  available-add p (suc n) (q ∷ ports) s h =
      ground
        (arith, available-add p n ports s, elem-add q p s, nat_eq.same_iff q p, nat_eq.same_iff p q)

  available-cons :
      (p n : ℕ) (ports s : List ℕ)
      → available s (take (suc n) (p ∷ ports))
        ≡ one_if (is_available can_bind p s) + available s (take n ports)
  unfolding available
  available-cons p n ports s = refl

  module _ (count max_attempts : ℕ) where
    -- How many ports are found from here on.
    finds : ℕ → ℕ → List ℕ → List ℕ → ℕ
    finds found attempts ports s =
        length (pick can_bind count max_attempts found attempts ports s).0

    finds_enough :
        (found attempts : ℕ) (ports s : List ℕ)
        → leb count found ≡ true
        → finds found attempts ports s ≡ 0
    unfolding finds pick
    finds_enough found attempts [] s h = refl
    finds_enough found attempts (p ∷ ports) s h = rw h refl

    finds_more :
        (found attempts p : ℕ) (ports s : List ℕ)
        → leb count found ≡ false
        → leb max_attempts (attempts + 1) ≡ false
        → finds found attempts (p ∷ ports) s ≡ (
            if is_available can_bind p s
            then suc (finds (found + 1) (attempts + 1) ports (add p s))
            else finds found (attempts + 1) ports s)
    unfolding finds pick
    finds_more found attempts p ports s h l = elim (Bool-cases (is_available can_bind p s)) [
      | inl yes_ ↦ rw (h, l, yes_) refl
      | inr no_ ↦ rw (h, l, no_) refl
    ]

    finds_last :
        (found attempts p : ℕ) (ports s : List ℕ)
        → leb count found ≡ false
        → leb max_attempts (attempts + 1) ≡ true
        → finds found attempts (p ∷ ports) s ≡ one_if (is_available can_bind p s)
    unfolding finds pick
    finds_last found attempts p ports s h l = elim (Bool-cases (is_available can_bind p s)) [
      | inl yes_ ↦ rw (h, l, yes_) refl
      | inr no_ ↦ rw (h, l, no_) refl
    ]

    -- `found` and what `k` available ports add to it, up to `count`.
    capped : ℕ → ℕ → ℕ
    capped found k = if leb count (found + k) then count else found + k

    capped_step :
        (found k : ℕ) (b : Bool) (m m' : ℕ)
        → leb count found ≡ false
        → (found + 1 ≤ count → found + 1 + m ≡ capped (found + 1) k)
        → found + m' ≡ capped found k
        → found + (if b then suc m else m') ≡ capped found (one_if b + k)
    unfolding capped
    capped_step found k true m m' h more less = ground (arith, more)
    capped_step found k false m m' h more less = ground arith

    capped_full :
        (found k : ℕ) → found ≤ count → leb count found ≡ true → found + 0 ≡ capped found k
    unfolding capped
    capped_full found k h full = ground arith

    finds_nil :
        (n found attempts : ℕ) (s : List ℕ)
        → found ≤ count
        → found + finds found attempts [] s ≡ capped found (available s (take (suc n) []))
    unfolding finds pick available capped
    finds_nil n found attempts s h = ground arith

    capped_last :
        (found : ℕ) (b : Bool)
        → leb count found ≡ false
        → found + one_if b ≡ capped found (one_if b + 0)
    unfolding capped
    capped_last found b h = ground arith

    -- With `n + 1` rounds left.
    pick_finds :
        (n found attempts : ℕ) (ports s : List ℕ)
        → max_attempts ≡ attempts + suc n
        → NoRepeat ports
        → found ≤ count
        → found + finds found attempts ports s ≡ capped found (available s (take (suc n) ports))
    pick_finds n found attempts [] s e u h = finds_nil n found attempts s h
    pick_finds zero found attempts (p ∷ ports) s e (fresh, u) h =
        elim (Bool-cases (leb count found)) [
          | inl full ↦
              rw (finds_enough found attempts (p ∷ ports) s full) (capped_full found _ h full)
          | inr few ↦
              rw
                (finds_last found attempts p ports s few (ground arith), available-cons p 0 ports s)
                (unfold available in capped_last found (is_available can_bind p s) few)
        ]
    pick_finds (suc n) found attempts (p ∷ ports) s e (fresh, u) h =
        elim (Bool-cases (leb count found)) [
          | inl full ↦
              rw (finds_enough found attempts (p ∷ ports) s full) (capped_full found _ h full)
          | inr few ↦
              let e' : max_attempts ≡ attempts + 1 + suc n = omega arith in
              let kept = available-add p (suc n) ports s fresh in
              let more = pick_finds n (found + 1) (attempts + 1) ports (add p s) e' u in
              let less = pick_finds n found (attempts + 1) ports s e' u h in
              let step =
                capped_step found _ (is_available can_bind p s) _ _ few
                  (λ l. more l ∙ ap (capped (found + 1)) kept) less in
              rw
                (
                  finds_more found attempts p ports s few (ground arith),
                  available-cons p (suc n) ports s,
                )
                step
        ]

pick_of_count :
    (can_bind : ℕ → Bool) (count : ℕ) (candidates s : List ℕ)
    → NoRepeat candidates
    → let r = (pick can_bind count (count * 10) 0 0 candidates s).0 in
      leb count (length r) ≡ leb count (available can_bind s (take (count * 10) candidates))
pick_of_count can_bind zero candidates s u = ground arith
pick_of_count can_bind (suc n) candidates s u =
    let rounds : suc n * 10 ≡ suc (n * 10 + 9) = omega arith in
    let same : take (suc n * 10) candidates ≡ take (suc (n * 10 + 9)) candidates =
      ap (λ m. take m candidates) rounds in
    let r =
      pick_finds can_bind (suc n) (suc n * 10) (n * 10 + 9) 0 0 candidates s (omega arith) u
        (omega arith) in
    unfold finds in unfold capped in rw same (ground (arith, r))

-- With distinct candidates, an allocation succeeds exactly when among the first `10 * count`
-- candidates at least `count` are not allocated and can be bound.
pub allocate_succeeds :
    (can_bind : ℕ → Bool) (candidates : List ℕ) (count : ℕ) (a : PortAllocator)
    → NoRepeat candidates
    → is_some (allocate can_bind candidates count a).0
      ≡ leb count
          (count_if (λ p. is_available can_bind p a.allocated) (take (count * 10) candidates))
unfolding allocate available
allocate_succeeds can_bind candidates count a u =
    ground (arith, pick_of_count can_bind count candidates a.allocated u)
