-- ===== src/Levels/Initial.antt =====
-- What `initialize` of zerg/levels.py builds from a task graph.
use zerg.Common.{
  NoRepeat, ℕ, ◌≡◌, refl, subst, false, Option, none, some, List, [], ◌∷◌, ◌++◌, String, nat_eq,
  string_eq, arith, Option-cases, inl, inr, All, map, elem, length, get_or, length-append,
  nat_beq_iff,
}
use zerg.Common.Int.{pos}
use zerg.Common.Dict.{
  Dict, lookup, insert, lookup-insert, IsDistinct, count_values, count_values-insert_new,
}
use zerg.Constants.{value, complete, failed}
use zerg.Levels.{
  Task, LevelStatus, LevelController, is_terminal, index_tasks, add_task_id, build_levels,
  level_of_number, new_status, initialize,
}
use zerg.Levels.Tally.{counts, at_level, IsCountedIf, IsTallied}

abbrev pub ids : List Task → List String
ids = map (λ t. t.id)

-- The index of levels lists as many tasks of each level as the tasks indexed so far have, and
-- none of these is complete or failed.
record IsIndexed (tasks : Dict String Task) (level_tasks : Dict ℕ (List String)) : Type 0 where
  distinct : IsDistinct level_tasks
  listed : (l : ℕ) → length (get_or (lookup l level_tasks) []) ≡ count_values (at_level l) tasks
  none_complete : (l : ℕ) → count_values (counts l (value complete)) tasks ≡ 0
  none_failed : (l : ℕ) → count_values (counts l (value failed)) tasks ≡ 0

abbrev Fresh : Dict String Task → List Task → Type 0
Fresh tasks = All (λ t. lookup t.id tasks ≡ none)

insert-IsDistinct {κ} :
    {V : Type κ} (k : ℕ) (v : V) (d : Dict ℕ V) → IsDistinct d → IsDistinct (insert k v d)
unfolding insert lookup
insert-IsDistinct k v [] h = (refl, tt)
insert-IsDistinct k v ((j, w) ∷ d) h =
    ground (arith, insert-IsDistinct k v d h.1, lookup-insert k j v d)

insert-Fresh :
    (t : Task) (ts : List Task) (tasks : Dict String Task)
    → elem t.id (ids ts) ≡ false
    → Fresh tasks ts
    → Fresh (insert t.id t tasks) ts
insert-Fresh t [] tasks h f = tt
insert-Fresh t (u ∷ ts) tasks h f =
    (ground (arith, lookup-insert t.id u.id t tasks), insert-Fresh t ts tasks (ground arith) f.1)

add-IsIndexed :
    (t : Task) (tasks : Dict String Task) (level_tasks : Dict ℕ (List String))
    → lookup t.id tasks ≡ none
    → is_terminal t ≡ false
    → IsIndexed tasks level_tasks
    → IsIndexed (insert t.id t tasks) (add_task_id t.level t.id level_tasks)
add-IsIndexed t tasks level_tasks new nt v = record {
  distinct = insert-IsDistinct t.level _ level_tasks v.distinct;
  listed = λ l. ground (
    arith,
    v.listed l,
    lookup-insert t.level l (get_or (lookup t.level level_tasks) [] ++ t.id ∷ []) level_tasks,
    nat_beq_iff t.level l,
    length-append {0} (get_or (lookup t.level level_tasks) []) (t.id ∷ []),
    count_values-insert_new (at_level l) t.id t tasks new,
  );
  none_complete = λ l. ground (
    arith,
    v.none_complete l,
    count_values-insert_new (counts l (value complete)) t.id t tasks new,
  );
  none_failed = λ l.
      ground (
        arith,
        v.none_failed l,
        count_values-insert_new (counts l (value failed)) t.id t tasks new,
      );
}

index_tasks-IsIndexed :
    (ts : List Task) (tasks : Dict String Task) (level_tasks : Dict ℕ (List String))
    → Fresh tasks ts
    → NoRepeat (ids ts)
    → All (λ t. is_terminal t ≡ false) ts
    → IsIndexed tasks level_tasks
    → let r = index_tasks ts tasks level_tasks in IsIndexed r.0 r.1
unfolding index_tasks
index_tasks-IsIndexed [] tasks level_tasks f n o v = v
index_tasks-IsIndexed (t ∷ ts) tasks level_tasks f n o v =
    index_tasks-IsIndexed ts (insert t.id t tasks) (add_task_id t.level t.id level_tasks)
      (insert-Fresh t ts tasks n.0 f.1) n.1 o.1 (add-IsIndexed t tasks level_tasks f.0 o.0 v)

-- A level as `build_levels` makes it from the task IDs listed for it.
abbrev IsNew : List String → Option LevelStatus → Type 0
IsNew names none = ⊥
IsNew names (some s) =
    (s.completed_tasks ≡ pos 0) × (s.failed_tasks ≡ pos 0) × (s.total_tasks ≡ length names)

record IsBuilt (d : Dict ℕ (List String)) (acc r : Dict ℕ LevelStatus) : Type 0 where
  kept : (l : ℕ) → lookup l d ≡ none → lookup l r ≡ lookup l acc
  made : (l : ℕ) (names : List String) → lookup l d ≡ some names → IsNew names (lookup l r)

build_levels-IsBuilt :
    (d : Dict ℕ (List String)) (acc r : Dict ℕ LevelStatus)
    → IsDistinct d
    → build_levels d acc ≡ some r
    → IsBuilt d acc r
unfolding build_levels lookup
build_levels-IsBuilt [] acc r h e = record { kept = λ l n. ground arith; made = λ l names n. cc }
build_levels-IsBuilt ((n, names) ∷ rest) acc r h e = elim (Option-cases (level_of_number n)) [
  | inl bad ↦ absurd (ground arith)
  | inr (level, good) ↦
      let acc' = insert n (new_status level (length names)) acc in
      let ih = build_levels-IsBuilt rest acc' r h.1 (ground arith) in
      record {
        kept = λ l out.
            ground (arith, ih.kept l, lookup-insert n l (new_status level (length names)) acc);
        made = λ l ns found. ground (
          arith,
          ih.kept l,
          ih.made l ns,
          lookup-insert n l (new_status level (length names)) acc,
          nat_beq_iff n l,
        );
      }
]

built-IsCounted :
    (tasks : Dict String Task) (level_tasks : Dict ℕ (List String)) (levels : Dict ℕ LevelStatus)
    → IsIndexed tasks level_tasks
    → IsBuilt level_tasks [] levels
    → (l : ℕ) → IsCountedIf l tasks (lookup l levels)
unfolding lookup
built-IsCounted tasks level_tasks levels v b l = elim (Option-cases (lookup l level_tasks)) [
  | inl out ↦ rw (b.kept l out) tt
  | inr (names, e) ↦
      ground (arith, v.listed l, v.none_complete l, v.none_failed l, b.made l names e)
]

empty-IsIndexed : IsIndexed [] []
unfolding lookup
empty-IsIndexed = record {
  distinct = tt;
  listed = λ l. refl;
  none_complete = λ l. refl;
  none_failed = λ l. refl;
}

none-Fresh : (ts : List Task) → Fresh [] ts
unfolding lookup
none-Fresh [] = tt
none-Fresh (t ∷ ts) = (refl, none-Fresh ts)

-- A controller initialised with a task graph has true counters: no task ID is repeated in the
-- graph and no task in it is complete or failed.
pub initialize-IsTallied :
    (ts : List Task) (c : LevelController)
    → NoRepeat (ids ts)
    → All (λ t. is_terminal t ≡ false) ts
    → initialize ts ≡ some c
    → IsTallied c
unfolding initialize
initialize-IsTallied ts c n o e =
    let r = index_tasks ts [] [] in
    let v = index_tasks-IsIndexed ts [] [] (none-Fresh ts) n o empty-IsIndexed in
    elim (Option-cases (build_levels r.1 [])) [
      | inl bad ↦ absurd (ground arith)
      | inr (levels, built) ↦
          let base : LevelController = record {
            levels = levels;
            tasks = r.0;
            current_level = 0;
            started = false;
          } in
          let same : base ≡ c = ground arith in
          subst IsTallied same (record {
            level =
                built-IsCounted r.0 r.1 levels v
                  (build_levels-IsBuilt r.1 [] levels v.distinct built);
          })
    ]
