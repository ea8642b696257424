-- ===== src/Validation/Ownership.antt =====
-- `validate_file_ownership` of zerg/validation.py. It is stricter than its documentation: the
-- docstring speaks of two tasks, and docs/commands-deep.md of the tasks of one level.
use zerg.Common.{
  is_empty-append, ◌≡◌, ◌∙◌, refl, Bool, true, not, ◌&&◌, none, some, List, [], ◌∷◌, ◌++◌, String,
  string_eq, elem, is_empty, arith, Option-cases, inl, inr,
}
use zerg.Common.Dict.{Dict, lookup, insert, contains, lookup-insert}
use zerg.Validation.{GraphTask}

pub data FileConflict : Type 0 where
  conflict : (file_path owner task_id : String) → FileConflict

-- The inner loop: the conflicts, and the owners after it.
unfoldable pub claim_files :
    String → List String → Dict String String → List FileConflict × Dict String String
claim_files task_id [] owners = ([], owners)
claim_files task_id (f ∷ fs) owners = elim (lookup f owners) [
  | some owner ↦
      let (errors, owners') = claim_files task_id fs owners in
      (conflict f owner task_id ∷ errors, owners')
  | none ↦ claim_files task_id fs (insert f task_id owners)
]

unfoldable pub claim_all : List GraphTask → Dict String String → List FileConflict
claim_all [] owners = []
claim_all (t ∷ ts) owners =
    let (errors, owners') = claim_files t.id (t.create ++ t.modify) owners in
    errors ++ claim_all ts owners'

unfoldable pub validate_file_ownership : List GraphTask → Bool × List FileConflict
validate_file_ownership ts = let errors = claim_all ts [] in (is_empty errors, errors)

-- The files that the tasks create or modify, in order, with repetitions.
abbrev pub claimed : List GraphTask → List String
claimed [] = []
claimed (t ∷ ts) = (t.create ++ t.modify) ++ claimed ts

abbrev pub no_repeat : List String → Bool
no_repeat [] = true
no_repeat (f ∷ fs) = not (elem f fs) && no_repeat fs

-- No file has an owner yet, and none stands twice.
abbrev all_new : Dict String String → List String → Bool
all_new owners [] = true
all_new owners (f ∷ fs) = not (contains f owners) && (not (elem f fs) && all_new owners fs)

all_new-insert :
    (f k : String) (owners : Dict String String) (fs : List String)
    → all_new (insert f k owners) fs ≡ (not (elem f fs) && all_new owners fs)
all_new-insert f k owners [] = refl
all_new-insert f k owners (g ∷ fs) = ground (
  arith,
  all_new-insert f k owners fs,
  lookup-insert f g k owners,
  string_eq.same_iff f g,
  string_eq.same_iff g f,
)

claim_files_new :
    (k : String) (fs rest : List String) (owners : Dict String String)
    → let (errors, owners') = claim_files k fs owners in
      all_new owners (fs ++ rest) ≡ (is_empty errors && all_new owners' rest)
unfolding claim_files
claim_files_new k [] rest owners = refl
claim_files_new k (f ∷ fs) rest owners = elim (Option-cases (lookup f owners)) [
  | inl e ↦
      ground (
        arith,
        claim_files_new k fs rest (insert f k owners),
        all_new-insert f k owners (fs ++ rest),
      )
  | inr (owner, e) ↦ ground arith
]

claim_all_new :
    (ts : List GraphTask) (owners : Dict String String)
    → is_empty (claim_all ts owners) ≡ all_new owners (claimed ts)
unfolding claim_all
claim_all_new [] owners = refl
claim_all_new (t ∷ ts) owners =
    let (errors, owners') = claim_files t.id (t.create ++ t.modify) owners in
    ground (
      arith,
      claim_files_new t.id (t.create ++ t.modify) (claimed ts) owners,
      is_empty-append errors (claim_all ts owners'),
      claim_all_new ts owners',
    )

all_new-none : (fs : List String) → all_new [] fs ≡ no_repeat fs
unfolding lookup
all_new-none [] = refl
all_new-none (f ∷ fs) = ground (arith, all_new-none fs)

-- The ownership check accepts a graph exactly when no file path stands twice in the lists of files
-- that its tasks create and modify: not in one task, nor in two, of the same level or of different
-- ones.
pub validate_file_ownership_lem :
    (ts : List GraphTask) → (validate_file_ownership ts).0 ≡ no_repeat (claimed ts)
unfolding validate_file_ownership
validate_file_ownership_lem ts = claim_all_new ts [] ∙ all_new-none (claimed ts)
