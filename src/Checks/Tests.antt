-- ===== src/Checks/Tests.antt =====
-- internal/controller/restartgate.go and eventgate.go on two checks, over pods that keep their restarts.
use stageset_controller.Prelude.{
  ℕ, String, str_eq, ◌≡◌, refl, Bool, true, false, Option, none, some, [], ◌∷◌, if◌then◌else◌, All,
  pos, ok,
}
use stageset_controller.Promotion.{RestartCheckBaseline, PromotionState, Verdict, in_phase, soaking}
use stageset_controller.Checks.{
  Pod, RestartGate, EventGate, Target, RestartObservation, sum_restarts, sum_events, baseline_map,
  prior_restart_baseline, observe, pod_restart_total, events_of, pod_warning_event_total,
  observe_all, evaluate_restart_checks, first_breach, evaluate_event_checks,
}
use stageset_controller.Checks.Events.{IsWithin, evaluate_event_checks-IsWithin}

-- A selector is the UID of the one pod that it matches.
abbrev pod : String → ℕ → Bool → Pod
pod uid n terminating = record {
  uid = uid;
  terminating = terminating;
  init_restarts = pos 1 ∷ [];
  restarts = pos n ∷ [];
}

abbrev target : ℕ → ℕ → Target String
target web worker = record {
  parses = λ s. true;
  is_empty = λ s. str_eq s "";
  pods = λ s. some (
      if str_eq s "web"
      then pod "a" web false ∷ pod "old" 90 true ∷ []
      else pod "b" worker false ∷ []);
  events = some (
      record { uid = "a"; reason = "BackOff"; count = pos 0 }
      ∷ record { uid = "old"; reason = "BackOff"; count = pos 7 }
      ∷ record { uid = "a"; reason = "Pulled"; count = pos 7 }
      ∷ []);
}

abbrev gate : RestartGate String
gate = record {
  checks =
      record { name = "web"; selector = "web"; max_restarts = pos 2; on_failure = "" }
      ∷ record {
        name = "worker";
        selector = "worker";
        max_restarts = pos 0;
        on_failure = "Rollback";
      }
      ∷ [];
  on_failure = "Hold";
}

program : Unit {0}
unfolding sum_restarts sum_events baseline_map prior_restart_baseline observe pod_restart_total
    events_of pod_warning_event_total observe_all evaluate_restart_checks first_breach
    evaluate_event_checks
program = tt

abbrev entry : String → ℕ → RestartCheckBaseline
entry name n = record { name = name; restarts = pos n }

-- The pass that promotes the stage, at 41 and 6 restarts.
abbrev promoting : RestartObservation
promoting = record {
  verdict = none;
  baseline = entry "web" 41 ∷ entry "worker" 6 ∷ [];
  totals = entry "web" 41 ∷ entry "worker" 6 ∷ [];
}

-- A pass that holds it, at 43 and 6.
abbrev holding : RestartObservation
holding = record {
  verdict = none;
  baseline = entry "web" 41 ∷ entry "worker" 6 ∷ [];
  totals = entry "web" 43 ∷ entry "worker" 6 ∷ [];
}

abbrev breach : Option Verdict
breach = some (record { check = "worker"; observed = pos 3; rollback = true })

abbrev breaching : RestartObservation
breaching = record {
  verdict = breach;
  baseline = entry "web" 41 ∷ entry "worker" 6 ∷ [];
  totals = entry "web" 43 ∷ entry "worker" 9 ∷ [];
}

abbrev promoted_state : PromotionState
promoted_state = record (in_phase soaking none) { restart_baseline = promoting.totals }

abbrev held_state : PromotionState
held_state = record (in_phase soaking none) { restart_baseline = holding.baseline }

-- Pods that were replaced start from zero: five restarts pass for none while the baseline is higher.
replaced_pods_pass :
    evaluate_restart_checks (target 4 5) (some gate) (some promoted_state)
    ≡ ok (
        some (record {
          verdict = none;
          baseline = promoting.totals;
          totals = entry "web" 5 ∷ entry "worker" 6 ∷ [];
        }))
unfolding program
replaced_pods_pass = refl

abbrev events : EventGate String
events = record {
  checks =
      record {
        name = "web";
        selector = "web";
        reasons = "BackOff" ∷ [];
        max_events = pos 1;
        on_failure = "";
      }
      ∷ [];
  on_failure = "Hold";
}

nothing_found : evaluate_event_checks (target 0 0) (some events) ≡ ok none
unfolding program
nothing_found = refl

evaluate_event_checks-IsWithin_example : All (IsWithin (target 0 0)) events.checks
evaluate_event_checks-IsWithin_example =
    (evaluate_event_checks-IsWithin (target 0 0) events).0 nothing_found
