-- ===== src/Merge/Quiet.antt =====
-- Which steps of zerg/merge.py leave the target branch where it is, and what the gates answer.
use zerg.Common.{
  ◌≡◌, Bool, true, false, not, Option, none, some, List, [], ◌∷◌, String, ◌==◌, nat_eq, string_eq,
  arith,
}
use zerg.Git.{Git}
use zerg.Git.Triple.{Keeps, Ensures-bind, Ensures-weaken, Ensures-if, Ensures-pure}
use zerg.Git.Still.{
  GitLaws, Rests, RestsApart, checkout-RestsApart, checkout-Rests, merge-RestsApart,
  branch_exists-Rests, delete_branch-Rests, abort_merge-Rests,
}
use zerg.Merge.Steps.{merge_each, execute_merge, delete_staging, abort}

-- A staging branch, where there is one, is not the target.
abbrev pub differs_from : String → Option String → Bool
differs_from b none = true
differs_from b (some staging) = not (staging == b)

module _ {W : Type 0} (git : Git W) (laws : GitLaws git) (b c0 : String) where
  merge_each-RestsApart :
      (staging : String) (bs : List String)
      → Keeps (RestsApart git laws b c0) (merge_each git staging bs)
  unfolding merge_each
  merge_each-RestsApart staging [] = Ensures-pure []
  merge_each-RestsApart staging (x ∷ bs) =
      Ensures-bind (merge-RestsApart git laws b c0 x _ true)
        λ _. Ensures-bind (merge_each-RestsApart staging bs) λ _. Ensures-pure _

  -- The worker branches are merged into the staging branch, which is not the target.
  pub execute_merge-Rests :
      (bs : List String) (staging : String)
      → (staging == b) ≡ false
      → Keeps (Rests git laws b c0) (execute_merge git bs staging)
  unfolding execute_merge
  execute_merge-Rests bs staging differs =
      Ensures-bind (checkout-RestsApart git laws b c0 staging differs)
        λ _. Ensures-weaken (merge_each-RestsApart staging bs) (λ _ w h. h.0) (λ w h. h.0)

  delete_staging-Rests :
      (staging : String)
      → (staging == b) ≡ false
      → Keeps (Rests git laws b c0) (delete_staging git staging)
  unfolding delete_staging
  delete_staging-Rests staging differs =
      Ensures-bind (branch_exists-Rests git laws b c0 staging) λ exists.
        Ensures-if exists
          (Ensures-bind (checkout-Rests git laws b c0 "main")
            λ _. delete_branch-Rests git laws b c0 staging true differs)
          (Ensures-pure tt)

  pub abort-Rests :
      (staging : Option String)
      → differs_from b staging ≡ true
      → Keeps (Rests git laws b c0) (abort git staging)
  unfolding abort
  abort-Rests none h = abort_merge-Rests git laws b c0
  abort-Rests (some staging) h =
      Ensures-bind (abort_merge-Rests git laws b c0)
        λ _. delete_staging-Rests staging (ground (arith, h))
