-- ===== src/Stages/Tests.antt =====
-- internal/controller/stageset_controller.go on three stages, whose second is slow to become ready. The
-- state counts the writes.
use stageset_controller.Prelude.{
  ℕ, ◌+◌, String, str_eq, ◌≡◌, refl, Bool, true, false, ◌&&◌, none, some, List, [], ◌∷◌, map,
  if◌then◌else◌, is_some, contains, pos, cut,
}
use stageset_controller.Ladder.{Action}
use stageset_controller.Actions.{ActionLedger, attempt, exec, run, done_set, record_name}
use stageset_controller.Promotion.{Pass, StagePromotion, promote_token_for, parse_promote}
use stageset_controller.Promotion.Gate.{gate_promotion}
use stageset_controller.Stages.{
  Stage, StageStatus, PlannedVersion, index_of, merge_stage_statuses, failed_status,
  progressing_status, interrupted_status, start_ledger, prior_of, empty_status, stage_ready,
  rollback_aborted, abort_capable, stamp, last_handled_for, prior_stages, force_request,
  parse_reconcile_stage,
}
use stageset_controller.Stages.Merge.{index_of-merge_stage_statuses}
use stageset_controller.Stages.Outside.{
  Outside, Request, advanced, hold_for_progress, budget_spec_error, budget_enter, reads,
  verified_ok, progressing, not_reverted,
}
use stageset_controller.Stages.Pass.{
  run_stage, record_run, scope_in, fail_after, interrupt, judged_status, settle_revert, settle_gate,
  judge_reads, judge, post_actions, after_verify, apply_stage, after_prepare, pre_actions,
  enter_stage, after_budget, enters_new_revision,
}
use stageset_controller.Stages.Loop.{
  LoopOutcome, run_stages, Finish, Status, settle_loop, write_merged, after_loop, complete_pass,
  fail_before_loop, reconcile_stages, names_of, pruned, Prune,
}
use stageset_controller.Stages.Loop.Order.{Stopped, unreached_stages_keep_records}
use stageset_controller.Stages.Loop.Complete.{Completed, stage_advances_behind_every_step}
use stageset_controller.Stages.Forget.{failed_stage_resumes_ledger}

abbrev action : String → Action
action name = record {
  name = name;
  scope = "";
  retries = none;
  patch = true;
  http = false;
  wait = false;
  job = false;
  delete = false;
  apply = false;
  completion_anchor = none;
}

abbrev stage : String → Stage
stage name = record {
  name = name;
  pre = action "backup" ∷ [];
  post = action "notify" ∷ [];
  on_failure = [];
  error_budget = str_eq name "api";
  on_timeout = "";
  promotion = none;
  restart_gate = none;
  event_gate = none;
}

abbrev stages : List (Stage × String)
stages = (stage "db", "r2") ∷ (stage "web", "r2") ∷ (stage "api", "r2") ∷ []

abbrev record_of : String → StageStatus
record_of name = record (empty_status name) {
  phase = stage_ready;
  applied_revision = "r1";
  last_handled_promotion = "t1";
}

abbrev plan : PlannedVersion
plan = record { version_set = true; desired = "2.0.0"; baseline = false }

abbrev request : Request
request = record {
  promote = "web@t1";
  budget_override = false;
  forced = ("", "");
  plan = plan;
  prior = map record_of ("db" ∷ "web" ∷ "api" ∷ []);
  now = 10;
  retry_interval = pos 5;
}

abbrev led : ActionLedger
led = record {
  revision = "r2";
  executed = "backup" ∷ [];
  version = "2.0.0";
  versioned = "upgrade" ∷ [];
  lifetime_done = [];
}

abbrev counted : Bool → ℕ → Bool × ℕ
counted b n = (b, n + 1)

abbrev outside : String → Outside ℕ
outside slow = record {
  dispatcher = record { dispatch = λ a n. (none, n + 1); is_done = λ n. false };
  gate_budget = λ s old n. if str_eq slow "" then budget_spec_error else budget_enter false;
  connects = λ s n. true;
  lifetime_done = λ s n. [];
  invalidate = λ s n. (true, n);
  completes = λ s n. true;
  migrate = λ s n. (true, n);
  prepare = λ s n. none;
  apply_objects = λ s n. counted true n;
  write_inventory = λ s n. counted true n;
  verify_stage = λ s n. (if str_eq s.name slow then progressing else verified_ok, n);
  read_gate =
      λ s n. reads (record { result = none; breached = false; source_err = false }) false none none;
  revert = λ s n. (not_reverted, n);
}

abbrev finish : Prune → Finish ℕ
finish p = record { migrations = λ n. []; migration_actions = λ n. []; prune = λ names n. p }

abbrev status : Status
status = record {
  stages = request.prior;
  version = "1.0.0";
  executed_migrations = "m@1" ∷ [];
  executed_migration_actions = [];
}

program : Unit {0}
unfolding run attempt exec done_set record_name index_of merge_stage_statuses failed_status
    progressing_status interrupted_status start_ledger rollback_aborted abort_capable stamp
    last_handled_for prior_stages force_request parse_reconcile_stage run_stage record_run scope_in
    fail_after interrupt judged_status settle_revert settle_gate judge_reads judge post_actions
    after_verify apply_stage after_prepare pre_actions enter_stage after_budget run_stages
    settle_loop write_merged after_loop complete_pass fail_before_loop reconcile_stages
    promote_token_for parse_promote cut gate_promotion
program = tt

slow_stage_stops : (run_stages (outside "web") request stages [] 0).end ≡ hold_for_progress
unfolding program
slow_stage_stops = refl

ledger_of_slow_stage :
    map (λ e. e.executed_actions) (run_stages (outside "web") request stages [] 0).entries
    ≡ ("backup" ∷ "notify" ∷ []) ∷ ("backup" ∷ []) ∷ []
unfolding program
ledger_of_slow_stage = refl

index_of-merge_stage_statuses_example :
    index_of "web"
      (merge_stage_statuses ("db" ∷ "web" ∷ []) request.prior (failed_status "db" led ∷ []))
    ≡ some (record_of "web")
unfolding program
index_of-merge_stage_statuses_example =
    index_of-merge_stage_statuses request.prior (failed_status "db" led ∷ []) "web"
      ("db" ∷ "web" ∷ [])

unreached_stages_keep_records_example :
    (x : Stopped
      (outside "web")
      request
      stages
      []
      0
      (run_stages (outside "web") request stages [] 0))
    × ((n : String)
        → contains n (names_of stages) ≡ true
        → contains n (names_of x.before) ≡ false
        → str_eq x.stage.name n ≡ false
        → index_of n
            (settle_loop
              (finish pruned)
              plan
              (names_of stages)
              (run_stages (outside "web") request stages [] 0)
              status).stages
          ≡ index_of n status.stages)
unfolding program
unreached_stages_keep_records_example =
    unreached_stages_keep_records (outside "web") request (finish pruned) plan stages status 0 refl

stage_advances_behind_every_step_example :
    let o = outside "web" in
    (is_some (index_of "db" request.prior)
        && rollback_aborted request.promote (stage "db") (prior_of "db" request.prior) "r2"
      ≡ false)
    × (enters_new_revision o request (stage "db") "r2" ≡ true
        → (f : Bool) × (o.gate_budget (stage "db") (prior_of "db" request.prior) 0
            ≡ budget_enter f))
    × Completed o request (stage "db") "r2" (start_ledger plan (stage "db") "r2" request.prior) 0
unfolding program
stage_advances_behind_every_step_example =
    stage_advances_behind_every_step (outside "web") request (stage "db") "r2" 0 refl

abbrev all_done : LoopOutcome ℕ
all_done = record { end = advanced; entries = record_of "db" ∷ []; state = 7 }

-- The record was left by a request for the other stage, and no scope is reset.
failed_stage_resumes_ledger_example :
    let next =
      start_ledger plan
        (stage "db")
        "r2"
        (prior_stages "web@t1" "t0" "t0" (failed_status "db" led ∷ record_of "web" ∷ [])) in
    (next.executed ≡ "backup" ∷ [])
    × (plan.version_set ≡ true → led.version ≡ plan.desired → next.versioned ≡ "upgrade" ∷ [])
unfolding program
failed_stage_resumes_ledger_example =
    failed_stage_resumes_ledger plan (stage "db") (failed_status "db" led ∷ record_of "web" ∷ [])
      led "web@t1" "t0" "t0" refl refl refl refl

abbrev manual : StagePromotion
manual = record {
  soak = some (pos 100);
  require_manual_promotion = true;
  analysis = none;
  fast_track = none;
}

abbrev pass : Pass
pass = record {
  annotation = "web@t1";
  now = 10;
  verdict = record { result = none; breached = false; source_err = false };
  fast_track_ok = false;
  restart = none;
  event = none;
  retry_interval = pos 5;
}

abbrev mixed : List (Stage × String)
mixed = (stage "db", "r2") ∷ (stage "api", "r2") ∷ (stage "web", "r2") ∷ []
