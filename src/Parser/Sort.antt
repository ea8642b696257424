-- ===== src/Parser/Sort.antt =====
-- `topological_sort` of zerg/parser.py. In-degrees are integers, since the loop subtracts with no
-- guard; the loop runs on fuel, one round for each task.
use zerg.Common.{
  ℕ, zero, suc, ◌≡◌, refl, Bool, true, false, not, ◌&&◌, ◌||◌, Option, none, some, List, [], ◌∷◌,
  ◌++◌, String, ◌==◌, string_eq, nat_eq, ltb, if◌then◌else◌, get_or, elem, select, length, map,
  count, arith,
}
use zerg.Common.Int.{ℤ, pos, ◌-ℤ◌, eqb_ℤ}
use zerg.Common.Dict.{Dict, lookup, insert, keys}
use zerg.Parser.{TaskParser, get_dependents}
use Prim.Native.String.{compare}
use Prim.Native.Nat.{Ordering}

-- `(level, tid) <= (level', tid')`
abbrev pub key_le : ℕ × String → ℕ × String → Bool
key_le (l, k) (m, j) = ltb l m || (l == m && elim (compare k j) [ Ordering.gt ↦ false | _ ↦ true ])

-- `(self._tasks[tid].get("level", 0), tid)`
abbrev pub key_of : TaskParser → String → ℕ × String
key_of p k = (elim (lookup k p.tasks) [ none ↦ 0 | some t ↦ t.level ], k)

unfoldable pub put_in_order : TaskParser → String → List String → List String
put_in_order p k [] = k ∷ []
put_in_order p k (j ∷ js) =
    if key_le (key_of p k) (key_of p j) then k ∷ j ∷ js else j ∷ put_in_order p k js

-- `queue.sort(key=...)`
unfoldable pub sort_queue : TaskParser → List String → List String
sort_queue p [] = []
sort_queue p (k ∷ ks) = put_in_order p k (sort_queue p ks)

unfoldable pub in_degrees : Dict String (List String) → Dict String ℤ
in_degrees = map (λ e. (e.0, pos (length e.1)))

-- The loop over the dependents of a task.
unfoldable pub relax : List String → Dict String ℤ → List String → Dict String ℤ × List String
relax [] degrees queue = (degrees, queue)
relax (d ∷ ds) degrees queue =
    let degree = get_or (lookup d degrees) (pos 0) -ℤ pos 1 in
    relax ds (insert d degree degrees) (if eqb_ℤ degree (pos 0) then queue ++ d ∷ [] else queue)

pub record Round : Type 0 where
  pub degrees : Dict String ℤ
  pub queue : List String
  pub result : List String

-- One round of the `while` loop on the sorted queue `task_id ∷ rest`.
unfoldable pub take_task : TaskParser → String → List String → Round → Round
take_task p task_id rest r =
    let (degrees, queue) = relax (get_dependents task_id p) r.degrees rest in
    record { degrees = degrees; queue = queue; result = r.result ++ task_id ∷ [] }

unfoldable pub sort_loop : ℕ → TaskParser → Round → Option Round
sort_loop zero p r = if length r.queue == 0 then some r else none
sort_loop (suc n) p r = elim (sort_queue p r.queue) [
  | [] ↦ some r
  | k ∷ rest ↦ sort_loop n p (take_task p k rest r)
]

pub data SortResult : Type 0 where
  sorted : (order : List String) → SortResult
  cycle_detected : (remaining : List String) → SortResult
  out_of_fuel : SortResult

unfoldable pub start_round : TaskParser → Round
start_round p =
    let degrees = in_degrees p.dependencies in
    record {
      degrees = degrees;
      queue = keys (select (λ e. eqb_ℤ e.1 (pos 0)) degrees);
      result = [];
    }

unfoldable pub topological_sort : TaskParser → SortResult
topological_sort p = elim (sort_loop (length p.tasks) p (start_round p)) [
  | none ↦ out_of_fuel
  | some r ↦
      if length r.result == length p.tasks
      then sorted r.result
      else cycle_detected (select (λ k. not (elem k r.result)) (keys p.tasks))
]

count-put_in_order :
    (p : TaskParser) (a k : String) (ks : List String)
    → count a (put_in_order p k ks) ≡ count a (k ∷ ks)
unfolding put_in_order
count-put_in_order p a k [] = refl
count-put_in_order p a k (j ∷ ks) = ground (arith, count-put_in_order p a k ks)

-- Sorting the queue moves its members only.
pub count-sort_queue :
    (p : TaskParser) (a : String) (ks : List String) → count a (sort_queue p ks) ≡ count a ks
unfolding sort_queue
count-sort_queue p a [] = refl
count-sort_queue p a (k ∷ ks) =
    omega (arith, count-put_in_order p a k (sort_queue p ks), count-sort_queue p a ks)
