-- ===== src/Escalation/Tests.antt =====
-- Runs of zerg/escalation.py.
use zerg.Common.{ℕ, ◌≡◌, refl, true, false, none, [], ◌∷◌, ◌++◌, String, nat_eq, string_eq}
use zerg.Escalation.{
  Escalation, File, write_all, read_all, escalate, get_unresolved, resolve_each, resolve,
  resolve_all,
}

abbrev about : String → ℕ → Escalation
about task_id worker_id = record {
  worker_id = worker_id;
  task_id = task_id;
  timestamp = "";
  category = "ambiguous_spec";
  message = "";
  context = "";
  resolved = false;
}

abbrev two_open : File
two_open = escalate true (about "B" 2) (escalate true (about "A" 1) none)

resolves_one : get_unresolved (resolve true "A" 1 two_open).1 ≡ about "B" 2 ∷ []
unfolding get_unresolved resolve resolve_each write_all read_all escalate
resolves_one = refl

-- A write that fails is answered as if it had been made.
unwritten : (resolve false "A" 1 two_open).0 ≡ true
unfolding resolve resolve_each read_all escalate write_all
unwritten = refl

resolves_both : (resolve_all true two_open).0 ≡ 2
unfolding resolve_all read_all escalate write_all
resolves_both = refl

-- Two workers that read the file at the same time: the write of the first is lost.
lost_update :
    read_all (
      write_all true
        (read_all none ++ about "B" 2 ∷ [])
        (write_all true (read_all none ++ about "A" 1 ∷ []) none))
    ≡ about "B" 2 ∷ []
unfolding write_all read_all
lost_update = refl
