-- ===== src/Preview/Tests.antt =====
-- internal/actionplan/verdict.go on a stage with an action of each scope.
use stageset_controller.Prelude.{
  String, ◌≡◌, refl, true, false, none, List, [], ◌∷◌, map, contains, ok,
}
use stageset_controller.Ladder.{Action}
use stageset_controller.Actions.{done_set}
use stageset_controller.Lifetime.{
  AnchorWitness, AnchorRead, not_found, executed, LedgerCompletion, classify_anchor, add_completion,
  evaluate_lifetime_gate,
}
use stageset_controller.Stages.{
  Stage, StageStatus, PlannedVersion, empty_status, start_ledger, index_of,
}
use stageset_controller.Stages.Pass.{scope_of, scope_in}
use stageset_controller.Preview.{
  RunState, will_run, skip, ActionVerdict, consult, classify, action_verdicts, index_from,
  version_stage_index, find_version_object,
}
use stageset_controller.Preview.Agreement.{inputs_of, AreScoped, skip_iff_done, ledger}

abbrev act : String → String → Action
act name scope = record {
  name = name;
  scope = scope;
  retries = none;
  patch = true;
  http = false;
  wait = false;
  job = false;
  delete = false;
  apply = false;
  completion_anchor = none;
}

abbrev stage : String → Stage
stage seed_scope = record {
  name = "db";
  pre = act "backup" "" ∷ act "migrate" "Version" ∷ [];
  post = act "seed" seed_scope ∷ [];
  on_failure = [];
  error_budget = false;
  on_timeout = "";
  promotion = none;
  restart_gate = none;
  event_gate = none;
}

abbrev status : StageStatus
status = record (empty_status "db") {
  executed_actions = "backup" ∷ [];
  ledger_revision = "r1";
  executed_version_actions = "migrate" ∷ [];
  ledger_version = "2";
}

abbrev plan : PlannedVersion
plan = record { version_set = true; desired = "2"; baseline = false }

abbrev seeded : List LedgerCompletion
seeded =
    record { stage = "db"; action = "seed"; origin = executed; completed_at = 0; anchor = none }
    ∷ []

abbrev read : AnchorWitness → AnchorRead
read a = not_found

program : Unit {0}
unfolding consult classify action_verdicts scope_in classify_anchor add_completion
    evaluate_lifetime_gate start_ledger index_of done_set index_from version_stage_index
    find_version_object
program = tt

abbrev states : List ActionVerdict → List RunState
states = map (λ v. v.state)

-- At the same revision and version nothing runs; at another revision the backup does.
nothing_runs :
    states (action_verdicts read (stage "Lifetime") (inputs_of plan "r1" "2" status seeded))
    ≡ skip ∷ skip ∷ skip ∷ []
unfolding program
nothing_runs = refl

backup_runs :
    states (action_verdicts read (stage "Lifetime") (inputs_of plan "r2" "2" status seeded))
    ≡ will_run ∷ skip ∷ skip ∷ []
unfolding program
backup_runs = refl

scoped : AreScoped (stage "Lifetime") status (evaluate_lifetime_gate read seeded "db")
unfolding program
scoped = record {
  by_revision = (refl, tt);
  by_version = (refl, tt);
  by_lifetime = (refl, tt);
  standing = (refl, tt);
}

migrate_is_skipped :
    classify
      (consult read "db" (inputs_of plan "r1" "2" status seeded))
      (scope_of (stage "Lifetime") "migrate")
      "migrate"
    ≡ skip
unfolding program
migrate_is_skipped = refl

skip_iff_done_example :
    contains "migrate"
      (done_set (ledger read (stage "Lifetime") plan "r1" "2" (status ∷ []) seeded))
    ≡ true
unfolding program
skip_iff_done_example =
    (skip_iff_done read (stage "Lifetime") plan "r1" "2" (status ∷ []) seeded "migrate"
        (refl, (refl, (refl, tt))) refl refl scoped).0
      migrate_is_skipped

-- An action that ran at this revision, and whose scope was changed since, is skipped by the executor,
-- but a preview shows it as one that will run.
rescoped :
    (states (
        action_verdicts read (stage "Revision") (
          inputs_of plan "r1" "2"
            (record status { executed_actions = "migrate" ∷ []; executed_version_actions = [] })
            []))
      ≡ will_run ∷ will_run ∷ will_run ∷ [])
    × (contains "migrate" (
          done_set (
            start_ledger plan (stage "Revision") "r1" (
              record status { executed_actions = "migrate" ∷ []; executed_version_actions = [] }
              ∷ [])))
        ≡ true)
unfolding program
rescoped = (refl, refl)

first_stage : version_stage_index ("a" ∷ "b" ∷ []) "b" ≡ ok 1
unfolding program
first_stage = refl
