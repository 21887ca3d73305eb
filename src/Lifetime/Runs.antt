-- ===== src/Lifetime/Runs.antt =====
-- internal/controller/lifetimeledger.go, on the baseline of a stage with one Lifetime action.
use stageset_controller.Prelude.{
  String, str_eq, ◌≡◌, refl, true, false, not, none, some, List, [], ◌∷◌, keep_if, ok, err,
}
use stageset_controller.Ladder.{Action}
use stageset_controller.Lifetime.{
  LedgerCompletion, executed, baselined, not_found, drop_completions,
}
use stageset_controller.Lifetime.Records.{
  LedgerRef, StageLedger, LifetimeStage, Conditions, new_ledger, ledger_missing,
  load_lifetime_ledger, spec_has_lifetime_actions, is_completed, effective_scope,
  stage_lifetime_action_names, is_lifetime_action, promote_refs, baseline_condition, transitioned,
  reconcile_baseline_condition, promote_baseline, anchor_unread, witness_of,
  record_lifetime_completion,
}
use stageset_controller.Lifetime.Promoted.{Adds, promote_baseline-Adds}
use stageset_controller.Lifetime.Once.{
  Once, Writes, stays, step, declare, promote, complete, take_back, Writes-Once,
}

abbrev scoped : String → String → Action
scoped name scope = record {
  name = name;
  scope = scope;
  retries = none;
  patch = true;
  http = false;
  wait = false;
  job = false;
  delete = false;
  apply = false;
  completion_anchor = none;
}

abbrev stages : List LifetimeStage
stages =
    record { name = "db"; pre = scoped "install" "Lifetime" ∷ []; post = scoped "notify" "" ∷ [] }
    ∷ []

-- One condition of each type, the newest.
abbrev api : Conditions
api = record {
  find = λ cs t. elim (keep_if (λ c. str_eq c.type t) cs) [ [] ↦ none | ◌∷◌ c _ ↦ some c ];
  set = λ cs c. (c ∷ keep_if (λ d. not (str_eq d.type c.type)) cs, true);
}

-- Two entries name the action, one names an action that is not there.
abbrev refs : List LedgerRef
refs =
    record { stage = "db"; action = "install" }
    ∷ record { stage = "db"; action = "instal" }
    ∷ record { stage = "db"; action = "install" }
    ∷ []

abbrev declared : StageLedger
declared = record new_ledger { baseline = refs }

program : Unit {0}
unfolding load_lifetime_ledger spec_has_lifetime_actions is_completed effective_scope
    stage_lifetime_action_names is_lifetime_action promote_refs baseline_condition transitioned
    reconcile_baseline_condition promote_baseline witness_of record_lifetime_completion
    drop_completions
program = tt

materializes : load_lifetime_ledger ledger_missing true stages ≡ ok (some new_ledger)
unfolding program
materializes = refl

warns_once :
    let first = promote_baseline api "app" 5 stages declared in
    (first.written ≡ true)
    × (first.events
        ≡ "spec.baseline entries that resolve to no scope: Lifetime action in StageSet \"app\": db/instal"
          ∷ [])
    × ((promote_baseline api "app" 6 stages first.ledger).events ≡ [])
unfolding program
warns_once = (refl, refl, refl)

-- An anchor that is not there fails the record.
anchor_must_exist :
    record_lifetime_completion
      (λ a. not_found)
      5
      (some new_ledger)
      "db"
      "install"
      (some (record { api_version = "v1"; kind = "Secret"; name = "root" }))
    ≡ err anchor_unread
unfolding program
anchor_must_exist = refl

promote_baseline-Adds_example : Adds stages 5 refs [] (
    record { stage = "db"; action = "install"; origin = baselined; completed_at = 5; anchor = none }
    ∷ [])
unfolding program
promote_baseline-Adds_example = promote_baseline-Adds stages 5 api "app" declared

abbrev promoted : StageLedger
promoted = (promote_baseline api "app" 5 stages declared).ledger

abbrev dropped : StageLedger
dropped = record promoted {
  completed_actions = drop_completions promoted.completed_actions "db" ("install" ∷ []);
}

abbrev ran : LedgerCompletion
ran = record {
  stage = "db";
  action = "install";
  origin = executed;
  completed_at = 7;
  anchor = none;
}

abbrev after_run : StageLedger
after_run = record dropped { completed_actions = ran ∷ [] }

-- The ledger is baselined, its completion is dropped, and the action runs.
writes : Writes new_ledger after_run
unfolding program
writes =
    step dropped after_run
      (step promoted dropped
        (step declared promoted
          (step new_ledger declared (stays new_ledger) (declare new_ledger refs))
          (promote api "app" 5 stages declared))
        (take_back promoted "db" ("install" ∷ [])))
      (complete (λ a. not_found) 7 dropped after_run "db" "install" none refl)

Writes-Once_example : Once (ran ∷ [])
Writes-Once_example = Writes-Once new_ledger after_run writes tt
