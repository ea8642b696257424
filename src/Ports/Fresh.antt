-- ===== src/Ports/Fresh.antt =====
-- Which ports `allocate` of zerg/ports.py hands out.
use zerg.Common.{
  elem-append, ℕ, ◌+◌, ◌≤◌, ◌≡◌, subst, ◌*◌, Bool, false, not, ◌&&◌, ◌||◌, none, some, List, [],
  ◌∷◌, ◌==◌, nat_eq, elem, length, arith, NoRepeat, beq_refl,
}
use zerg.Ports.{PortAllocator, add, pick, allocate}

pub elem-add : (q p : ℕ) (s : List ℕ) → elem q (add p s) ≡ (elem q s || q == p)
elem-add q p s = ground (arith, elem-append q s (p ∷ []), nat_eq.same_iff q p)

module _ (can_bind : ℕ → Bool) (count max_attempts : ℕ) where
  -- The set gains the ports that are found, and these were not in it.
  pub elem-pick :
      (found attempts : ℕ) (ports s : List ℕ) (q : ℕ)
      → let (r, s') = pick can_bind count max_attempts found attempts ports s in
        (elem q s' ≡ (elem q s || elem q r))
        × ((elem q r && elem q s) ≡ false)
        × ((elem q r && not (elem q ports && can_bind q)) ≡ false)
  unfolding pick
  elem-pick found attempts [] s q = ground arith
  elem-pick found attempts (p ∷ ports) s q = ground (
    arith,
    elem-pick (found + 1) (attempts + 1) ports (add p s) q,
    elem-pick found (attempts + 1) ports s q,
    elem-add q p s,
    nat_eq.same_iff q p,
  )

  pick-NoRepeat :
      (found attempts : ℕ) (ports s : List ℕ)
      → NoRepeat (pick can_bind count max_attempts found attempts ports s).0
  unfolding pick
  pick-NoRepeat found attempts [] s = tt
  pick-NoRepeat found attempts (p ∷ ports) s = ground (
    arith,
    pick-NoRepeat (found + 1) (attempts + 1) ports (add p s),
    pick-NoRepeat found (attempts + 1) ports s,
    elem-pick (found + 1) (attempts + 1) ports (add p s) p,
    elem-add p p s,
    beq_refl p,
  )

  pick-length :
      (found attempts : ℕ) (ports s : List ℕ)
      → found ≤ count
      → found + length (pick can_bind count max_attempts found attempts ports s).0 ≤ count
  unfolding pick
  pick-length found attempts [] s h = omega arith
  pick-length found attempts (p ∷ ports) s h = ground (
    arith,
    pick-length (found + 1) (attempts + 1) ports (add p s),
    pick-length found (attempts + 1) ports s,
  )

-- Ports that are handed out are as many as asked for and all different. Each is a candidate that
-- the system lets bind and was not allocated before; the set gains these ports and no other.
pub allocate_fresh :
    (can_bind : ℕ → Bool) (candidates ports : List ℕ) (count q : ℕ) (a : PortAllocator)
    → (allocate can_bind candidates count a).0 ≡ some ports
    → (length ports ≡ count)
      × NoRepeat ports
      × (elem q (allocate can_bind candidates count a).1.allocated
          ≡ (elem q a.allocated || elem q ports))
      × ((elem q ports && elem q a.allocated) ≡ false)
      × ((elem q ports && not (elem q candidates && can_bind q)) ≡ false)
unfolding allocate
allocate_fresh can_bind candidates ports count q a e =
    let max = count * 10 in
    let (r, s) = pick can_bind count max 0 0 candidates a.allocated in
    let found = pick-length can_bind count max 0 0 candidates a.allocated (omega arith) in
    let elements = elem-pick can_bind count max 0 0 candidates a.allocated q in
    let same : r ≡ ports = ground arith in
    (
      ground (arith, found),
      subst NoRepeat same (pick-NoRepeat can_bind count max 0 0 candidates a.allocated),
      ground (arith, elements),
      ground (arith, elements),
      ground (arith, elements),
    )

-- An allocation that fails keeps the ports that it found: the set only grows, by the candidates
-- that the loop picked, and none of them is handed out.
pub allocate_leaks :
    (can_bind : ℕ → Bool) (candidates : List ℕ) (count q : ℕ) (a : PortAllocator)
    → (allocate can_bind candidates count a).0 ≡ none
    → elem q (allocate can_bind candidates count a).1.allocated ≡ (
        elem q a.allocated
        || elem q (pick can_bind count (count * 10) 0 0 candidates a.allocated).0)
unfolding allocate
allocate_leaks can_bind candidates count q a e =
    ground (arith, elem-pick can_bind count (count * 10) 0 0 candidates a.allocated q)
