-- ===== src/Actions/Tests.antt =====
-- internal/actions/actions.go and internal/controller/actionledger.go on three actions, the second of which
-- fails twice. The state counts the dispatches.
use stageset_controller.Prelude.{
  ℕ, ◌+◌, ◌≤◌, ◌<◌, String, str_eq, ◌≡◌, refl, sym, subst, inl, inr, Bool, true, false, ◌&&◌, none,
  some, List, [], ◌∷◌, ◌++◌, arith, ltb, if◌then◌else◌, contains, Elem, pos,
}
use stageset_controller.Ladder.{Action}
use stageset_controller.Actions.{
  transient, Dispatcher, attempt, exec, failed, run, ActionLedger, done_set, record_name,
  record_all,
}
use stageset_controller.Actions.Retry.{exec_attempts}
use stageset_controller.Actions.Ledger.{pending, stopped_at, ledger_resumes}

abbrev action : String → Action
action name = record {
  name = name;
  scope = "";
  retries = some (pos 1);
  patch = true;
  http = false;
  wait = false;
  job = false;
  delete = false;
  apply = false;
  completion_anchor = none;
}

abbrev dispatcher : Dispatcher ℕ
dispatcher = record {
  dispatch = λ a n. (if str_eq a.name "b" && ltb n 4 then some transient else none, n + 1);
  is_done = λ n. false;
}

abbrev acts : List Action
acts = action "a" ∷ action "b" ∷ action "c" ∷ []

abbrev empty : ActionLedger
empty = record { revision = "r"; executed = []; version = ""; versioned = []; lifetime_done = [] }

abbrev takes : String → Bool
takes n = true

abbrev scope_of : String → String
scope_of n = if str_eq n "a" then "Version" else ""

program : Unit {0}
unfolding attempt exec run done_set record_name record_all
program = tt

-- "b" is tried twice and fails; the next run dispatches it once more and goes on.
first_run : (run dispatcher takes [] acts 0).error ≡ some (failed "b" transient)
unfolding program
first_run = refl

recorded_first : (run dispatcher takes [] acts 0).recorded ≡ "a" ∷ []
unfolding program
recorded_first = refl

second_run : (run dispatcher takes ("a" ∷ []) acts 3).recorded ≡ "b" ∷ "c" ∷ []
unfolding program
second_run = refl

exec_attempts_example :
    (3 < (exec dispatcher (action "b") 3).1) × ((exec dispatcher (action "b") 3).1 ≤ 3 + 1 + 1)
exec_attempts_example = exec_attempts dispatcher (λ n. n) (λ a w. refl) (action "b") 3

only_a :
    (a : Action)
    → Elem a (action "a" ∷ [])
    → contains a.name ("a" ∷ []) ≡ false
    → (w : ℕ) → w ≡ 7
    → (dispatcher.dispatch a w).1 ≡ 7
only_a a (inl e) c w h =
    let named = subst (λ x. contains x.name ("a" ∷ []) ≡ true) (sym e) refl in
    absurd (ground (arith, named, c))
only_a a (inr e) c w h = absurd e.lower

ledger_resumes_example :
    (rest : List String) × (pending (done_set empty) acts
      ≡ (run dispatcher takes (done_set empty) acts 0).recorded
        ++ stopped_at (run dispatcher takes (done_set empty) acts 0).error rest)
    × (pending
          (done_set
            (record_all scope_of (run dispatcher takes (done_set empty) acts 0).recorded empty))
          acts
        ≡ stopped_at (run dispatcher takes (done_set empty) acts 0).error rest)
ledger_resumes_example =
    ledger_resumes dispatcher takes scope_of empty acts 0 (refl, (refl, (refl, tt)))
