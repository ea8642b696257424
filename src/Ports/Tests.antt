-- ===== src/Ports/Tests.antt =====
-- Runs of zerg/ports.py on a range of six ports, of which the system refuses 103.
use zerg.Common.{
  some, ℕ, ◌*◌, ◌≡◌, refl, Bool, not, ◌&&◌, ◌||◌, List, [], ◌∷◌, ◌==◌, nat_eq, false, elem, length,
  NoRepeat,
}
use zerg.Common.Int.{pos, ◌-ℤ◌}
use zerg.Ports.{
  available_count, allocate_one, PortAllocator, pick, allocate, release_for_worker, release,
}
use zerg.Ports.Fresh.{allocate_fresh, allocate_leaks}

abbrev can_bind : ℕ → Bool
can_bind p = not (p == 103)

abbrev shuffled : List ℕ
shuffled = 104 ∷ 103 ∷ 101 ∷ 100 ∷ 105 ∷ 102 ∷ []

abbrev allocator : PortAllocator
allocator = record { range_start = 100; range_end = 105; allocated = 101 ∷ [] }

abbrev handed_out : List ℕ
handed_out = 104 ∷ 100 ∷ []

allocate_fresh_example :
    (length handed_out ≡ 2)
    × NoRepeat handed_out
    × (elem {A = ℕ} 100 (allocate can_bind shuffled 2 allocator).1.allocated
        ≡ (elem {A = ℕ} 100 allocator.allocated || elem {A = ℕ} 100 handed_out))
    × ((elem {A = ℕ} 100 handed_out && elem {A = ℕ} 100 allocator.allocated) ≡ false)
    × ((elem {A = ℕ} 100 handed_out && not (elem {A = ℕ} 100 shuffled && can_bind 100)) ≡ false)
unfolding allocate pick
allocate_fresh_example = allocate_fresh can_bind shuffled handed_out 2 100 allocator refl

allocate_leaks_example : elem {A = ℕ} 104 (allocate can_bind shuffled 5 allocator).1.allocated ≡ (
    elem {A = ℕ} 104 allocator.allocated
    || elem {A = ℕ} 104 (pick can_bind 5 (5 * 10) 0 0 shuffled allocator.allocated).0)
unfolding allocate pick
allocate_leaks_example = allocate_leaks can_bind shuffled 5 104 allocator refl

leaks_four : (allocate can_bind shuffled 5 allocator).1.allocated ≡ 101 ∷ 104 ∷ 100 ∷ 105 ∷ 102 ∷ []
unfolding allocate pick
leaks_four = refl

releases : (release_for_worker handed_out (allocate can_bind shuffled 2 allocator).1) ≡ allocator
unfolding allocate pick release_for_worker release
releases = refl

counts_left : available_count allocator ≡ pos 5
unfolding available_count ◌-ℤ◌
counts_left = refl

takes_one : (allocate_one can_bind shuffled allocator).0 ≡ some 104
unfolding allocate_one allocate pick
takes_one = refl
