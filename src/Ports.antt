-- ===== src/Ports.antt =====
-- zerg/ports.py: ports for workers. The set of allocated ports is a list without repetitions. What
-- the operating system answers to an attempt to bind a port is a parameter, and so is the order in
-- which `random.shuffle` leaves the candidates.
pub mod Fresh
pub mod Enough
mod Tests
use zerg.Common.{
  ℕ, ◌+◌, ◌*◌, Bool, not, ◌&&◌, Option, none, some, List, [], ◌∷◌, ◌++◌, ◌==◌, nat_eq, ltb, leb,
  if◌then◌else◌, elem, select, length, foldl,
}
use zerg.Common.Int.{ℤ, pos, ◌-ℤ◌}

pub record PortAllocator : Type 0 where
  pub range_start : ℕ
  pub range_end : ℕ
  pub allocated : List ℕ

-- `s.add(port)` and `s.discard(port)`
abbrev pub add : ℕ → List ℕ → List ℕ
add port s = if elem port s then s else s ++ port ∷ []

abbrev pub discard : ℕ → List ℕ → List ℕ
discard port s = select (λ p. not (p == port)) s

abbrev pub is_available : (ℕ → Bool) → ℕ → List ℕ → Bool
is_available can_bind port allocated = not (elem port allocated) && can_bind port

-- The loop of `allocate` after `attempts` rounds that found `found` ports: the ports that it finds
-- from there on, and the set.
unfoldable pub pick : (ℕ → Bool) → ℕ → ℕ → ℕ → ℕ → List ℕ → List ℕ → List ℕ × List ℕ
pick can_bind count max_attempts found attempts [] s = ([], s)
pick can_bind count max_attempts found attempts (port ∷ ports) s =
    let last = leb max_attempts (attempts + 1) in
    let (more, s') =
      pick can_bind count max_attempts (found + 1) (attempts + 1) ports (add port s) in
    let skipped = pick can_bind count max_attempts found (attempts + 1) ports s in
    if leb count found
    then ([], s)
    else if is_available can_bind port s
    then (if last then (port ∷ [], add port s) else (port ∷ more, s'))
    else if last
    then ([], s)
    else skipped

-- The ports, or a RuntimeError, and the allocator in either case.
unfoldable pub allocate : (ℕ → Bool) → List ℕ → ℕ → PortAllocator → Option (List ℕ) × PortAllocator
allocate can_bind candidates count a =
    let (ports, s) = pick can_bind count (count * 10) 0 0 candidates a.allocated in
    (if ltb (length ports) count then none else some ports, record a { allocated = s })

unfoldable pub release : ℕ → PortAllocator → PortAllocator
release port a =
    if elem port a.allocated then record a { allocated = discard port a.allocated } else a

unfoldable pub release_all : PortAllocator → PortAllocator
release_all a = record a { allocated = [] }

unfoldable pub release_for_worker : List ℕ → PortAllocator → PortAllocator
release_for_worker ports a = foldl (λ b port. release port b) a ports

unfoldable pub allocate_for_worker :
    (ℕ → Bool) → List ℕ → ℕ → PortAllocator → Option (List ℕ) × PortAllocator
allocate_for_worker can_bind candidates ports_per_worker a =
    allocate can_bind candidates ports_per_worker a

-- `allocate(1)[0]`
abbrev pub first : List ℕ → Option ℕ
first [] = none
first (p ∷ ps) = some p

unfoldable pub allocate_one : (ℕ → Bool) → List ℕ → PortAllocator → Option ℕ × PortAllocator
allocate_one can_bind candidates a =
    let (ports, a') = allocate can_bind candidates 1 a in
    (elim ports [ none ↦ none | some ps ↦ first ps ], a')

unfoldable pub get_allocated : PortAllocator → List ℕ
get_allocated a = a.allocated

unfoldable pub available_count : PortAllocator → ℤ
available_count a = pos (a.range_end + 1) -ℤ pos a.range_start -ℤ pos (length a.allocated)
