-- ===== src/GraphValidation/Search.antt =====
-- The search of `_check_unreachable_tasks` of zerg/graph_validation.py: its fuel and its invariant.
use zerg.Common.{
  ℕ, zero, suc, ◌+◌, ◌≤◌, ◌≡◌, ◌∙◌, refl, sym, ap, true, false, not, ◌&&◌, ◌||◌, some, List, [],
  ◌∷◌, String, string_eq, if◌then◌else◌, get_or, elem, length, arith, beq_refl, Bool-cases, inl,
  inr,
}
use zerg.Common.Dict.{Dict, lookup}
use zerg.GraphValidation.{push_new, visit_all, room}

elem-push_new :
    (visited ks queue : List String) (a : String)
    → elem a (push_new visited ks queue) ≡ (elem a queue || (elem a ks && not (elem a visited)))
elem-push_new visited [] queue a = ground arith
elem-push_new visited (k ∷ ks) queue a = ground (
  arith,
  elem-push_new visited ks (if elem k visited then queue else k ∷ queue) a,
  string_eq.same_iff a k,
)

length-push_new :
    (visited ks queue : List String) → length (push_new visited ks queue) ≤ length ks + length queue
length-push_new visited [] queue = omega arith
length-push_new visited (k ∷ ks) queue =
    ground (arith, length-push_new visited ks (if elem k visited then queue else k ∷ queue))

empty_of_elem : (xs : List String) → ((a : String) → elem a xs ≡ false) → length xs ≡ 0
empty_of_elem [] h = refl
empty_of_elem (x ∷ xs) h = absurd (ground (arith, h x, beq_refl x))

module _ (listed : List String → List String)
    (same : (xs : List String) (a : String) → elem a (listed xs) ≡ elem a xs)
    (feeds : Dict String (List String)) where
  abbrev pub fed_by : String → List String
  fed_by k = get_or (lookup k feeds) []

  room_mono :
      (d : Dict String (List String)) (visited : List String) (k : String)
      → room listed d (k ∷ visited) ≤ room listed d visited
  room_mono [] visited k = omega arith
  room_mono ((j, ks) ∷ d) visited k = ground (arith, room_mono d visited k)

  -- A task that is visited for the first time has kept room for what it puts on the queue.
  room_visit :
      (d : Dict String (List String)) (visited : List String) (k : String)
      → elem k visited ≡ false
      → length (listed (get_or (lookup k d) [])) + room listed d (k ∷ visited)
        ≤ room listed d visited
  unfolding lookup
  room_visit [] visited k fresh = omega (arith, empty_of_elem (listed []) (λ a. same [] a))
  room_visit ((j, ks) ∷ d) visited k fresh = ground (
    arith,
    room_visit d visited k fresh,
    room_mono d visited k,
    string_eq.same_iff j k,
    string_eq.same_iff k j,
  )

  module _ {ℓ} (Reaches : String → Type ℓ)
      (onward : (k a : String) → Reaches k → elem a (fed_by k) ≡ true → Reaches a)
      (starts : List String) where
    -- What is queued or visited is reached; the starts are queued or visited, and so is all that a
    -- visited task feeds into.
    pub record IsSearching (queue visited : List String) : Type ℓ where
      pub queued : (a : String) → elem a queue ≡ true → Reaches a
      pub seen : (a : String) → elem a visited ≡ true → Reaches a
      pub started : (a : String) → elem a starts ≡ true → (elem a visited || elem a queue) ≡ true
      pub closed :
          (k a : String)
          → elem k visited ≡ true
          → elem a (fed_by k) ≡ true
          → (elem a visited || elem a queue) ≡ true

    skip-IsSearching :
        (k : String) (queue visited : List String)
        → IsSearching (k ∷ queue) visited
        → elem k visited ≡ true
        → IsSearching queue visited
    skip-IsSearching k queue visited v old = record {
      queued = λ a m. v.queued a (ground arith);
      seen = v.seen;
      started = λ a m. ground (arith, v.started a m, string_eq.same_iff a k);
      closed = λ j a m i. ground (arith, v.closed j a m i, string_eq.same_iff a k);
    }

    visit-IsSearching :
        (k : String) (queue visited : List String)
        → IsSearching (k ∷ queue) visited
        → IsSearching (push_new (k ∷ visited) (listed (fed_by k)) queue) (k ∷ visited)
    visit-IsSearching k queue visited v =
        let pushed = λ (a : String). elem-push_new (k ∷ visited) (listed (fed_by k)) queue a in
        let here = v.queued k (ground (arith, beq_refl k)) in
        record {
          queued = λ a m. elim (Bool-cases (elem a queue)) [
            | inl e ↦ v.queued a (ground arith)
            | inr e ↦ onward k a here (ground (arith, pushed a, same (fed_by k) a))
          ];
          seen = λ a m. elim (Bool-cases (elem a visited)) [
            | inl e ↦ v.seen a e
            | inr e ↦ v.queued a (ground arith)
          ];
          started = λ a m. ground (arith, pushed a, v.started a m);
          closed = λ j a m i. elim (Bool-cases (elem j visited)) [
            | inl e ↦ ground (arith, pushed a, v.closed j a e i)
            | inr e ↦
                let is_k : j ≡ k = (string_eq.same_iff j k).0 (ground arith) in
                let from_k : elem a (fed_by k) ≡ true =
                  ap (λ x. elem a (fed_by x)) (sym is_k) ∙ i in
                ground (arith, pushed a, same (fed_by k) a)
          ];
        }

    -- With fuel for what is queued and what can still be queued the search ends, on a closed set.
    pub visit_all_returns :
        (n : ℕ) (queue visited : List String)
        → length queue + room listed feeds visited ≤ n
        → IsSearching queue visited
        → (result : List String) × (visit_all n listed feeds queue visited ≡ some result)
          × IsSearching [] result
    unfolding visit_all
    visit_all_returns zero [] visited h v = (visited, refl, v)
    visit_all_returns zero (k ∷ queue) visited h v = absurd (omega (arith, h))
    visit_all_returns (suc n) [] visited h v = (visited, refl, v)
    visit_all_returns (suc n) (k ∷ queue) visited h v = elim (Bool-cases (elem k visited)) [
      | inl old ↦
          let (result, e, w) =
            visit_all_returns n queue visited (omega (arith, h))
              (skip-IsSearching k queue visited v old) in
          (result, rw old e, w)
      | inr fresh ↦
          let next = push_new (k ∷ visited) (listed (fed_by k)) queue in
          let enough : length next + room listed feeds (k ∷ visited) ≤ n = omega (
            arith,
            h,
            length-push_new (k ∷ visited) (listed (fed_by k)) queue,
            room_visit feeds visited k fresh,
          ) in
          let (result, e, w) =
            visit_all_returns n next (k ∷ visited) enough (visit-IsSearching k queue visited v) in
          (result, rw fresh e, w)
    ]
