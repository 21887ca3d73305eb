-- ===== src/Admission/Tests.antt =====
-- internal/controller/webhook.go on a StageSet of two stages, with a window, a ladder and a restart gate.
use stageset_controller.Prelude.{
  ℕ, String, str_eq, ◌≡◌, refl, inl, true, false, none, some, [], ◌∷◌, map, ltb, if◌then◌else◌, All,
  pos, error_of, ok, Distinct, cut,
}
use stageset_controller.Ladder.{
  Action, Migration, verb_count, check_action, check_actions, validate_migration_actions,
  check_from, validate_migration, validate_each, validate_ladder,
}
use stageset_controller.Window.{
  UpdateWindow, decision, decision_loop, decision_at, tally, add_window, eval_window, eval_absolute,
  eval_recurring, cover, latest_start, validate,
}
use stageset_controller.Window.Sample.{cron}
use stageset_controller.Migrations.{resolve_anchors}
use stageset_controller.Admission.{SourceReference, PromotionSpec, SpecStage, StageSet, Libraries}
use stageset_controller.Admission.Stages.{
  is_direct_source_kind, is_producer_ref, validate_action_scope, validate_phases,
  validate_on_rollback, validate_names, validate_stage, validate_stages,
}
use stageset_controller.Admission.Promotion.{
  validate_endpoint, validate_metric_source, parse_threshold_value, validate_resume,
  validate_budget, validate_error_budget, validate_restart_checks, validate_restart_gate,
  validate_event_checks, validate_event_gate, validate_threshold_bounds, validate_analysis_checks,
  validate_analysis, validate_fast_track, validate_stage_promotion, validate_promotion,
}
use stageset_controller.Admission.Spec.{
  is_cross_namespace_ref, version_sources, validate_version, validate_decryption,
  validate_kube_config, anchor_keys, validate_anchors, validate_migrations, compile_ready_expr,
  validate_ready_checks, validate_on_timeout, validate_dependency, validate_spec,
}
use stageset_controller.Admission.Unique.{validate_stages-IsStage}
use stageset_controller.Admission.Anchors.{anchored_stages}
use stageset_controller.Admission.Accepted.{
  HasDistinctChecks, validate_spec_guards, validate_spec-resolve_anchors,
}

abbrev library : Libraries String ℕ ℕ
library = record {
  parses = λ s. true;
  is_empty = λ s. str_eq s "";
  parse_group_version = λ s. true;
  compile = λ s. true;
  semver = record {
    new_version = λ v. if str_eq v "2.0.0" then some 2 else none;
    new_constraint = λ c. none;
    is_bare = λ c. false;
    less_than = ltb;
    major = λ v. v;
  };
  floats = record { parse_float = λ s. none; less = ltb; format_float = λ f. "" };
  cron = cron;
}

abbrev action : String → Action
action name = record {
  name = name;
  scope = "";
  retries = none;
  patch = true;
  http = false;
  wait = false;
  job = false;
  delete = false;
  apply = false;
  completion_anchor = none;
}

abbrev repository : SourceReference
repository = record { api_version = ""; kind = "OCIRepository"; name = "app"; namespace = "" }

abbrev gated : PromotionSpec String
gated = record {
  soak = none;
  fast_track = none;
  restart_gate = some (record {
    checks =
        record { name = "web"; selector = "web"; max_restarts = pos 2; on_failure = "" }
        ∷ record { name = "worker"; selector = "worker"; max_restarts = pos 0; on_failure = "Hold" }
        ∷ [];
    on_failure = "Rollback";
  });
  event_gate = none;
  analysis = none;
}

abbrev stage : String → String → SpecStage String
stage name anchor = record {
  name = name;
  source_ref = repository;
  migration_anchor = anchor;
  actions = some (record {
    pre = action "backup" ∷ [];
    post = action "smoke" ∷ [];
    on_failure = action "page" ∷ [];
  });
  promotion = some gated;
  ready_checks = none;
  on_timeout = "Hold";
  error_budget = none;
}

abbrev to_two : Migration
to_two = record {
  name = "schema";
  to = "2.0.0";
  from = "";
  stage = "database";
  actions = action "migrate" ∷ [];
  down = [];
}

abbrev freeze : UpdateWindow
freeze = record {
  type = "Deny";
  schedule = "0 * * * *";
  duration = some (pos 10);
  time_zone = "UTC";
  from = none;
  to = none;
}

abbrev season : UpdateWindow
season = record {
  type = "Allow";
  schedule = "";
  duration = none;
  time_zone = "";
  from = some 200;
  to = some 900;
}

abbrev application : StageSet String
application = record {
  namespace = "team";
  stages = stage "data" "database" ∷ stage "web" "" ∷ [];
  on_rollback = action "notify" ∷ [];
  version = some (record { value = "2.0.0"; from_object = false; from_artifact = false });
  migrations = to_two ∷ [];
  migrations_source_ref = none;
  decryption = none;
  kube_config = none;
  error_budget = none;
  on_timeout = "";
  depends_on = [];
  update_windows = freeze ∷ season ∷ [];
}

program : Unit {0}
unfolding verb_count check_action check_actions validate_migration_actions check_from
    validate_migration validate_each validate_ladder decision decision_loop decision_at tally
    add_window eval_window eval_absolute eval_recurring cover latest_start validate
    is_direct_source_kind is_producer_ref validate_action_scope validate_phases validate_on_rollback
    validate_names validate_stage validate_stages validate_endpoint validate_metric_source
    parse_threshold_value validate_resume validate_budget validate_error_budget
    validate_restart_checks validate_restart_gate validate_event_checks validate_event_gate
    validate_threshold_bounds validate_analysis_checks validate_analysis validate_fast_track
    validate_stage_promotion validate_promotion is_cross_namespace_ref version_sources
    validate_version validate_decryption validate_kube_config anchor_keys validate_anchors
    validate_migrations compile_ready_expr validate_ready_checks validate_on_timeout
    validate_dependency validate_spec cut
program = tt

accepted : validate_spec library 5 application ≡ ok tt
unfolding program
accepted = refl

stages_accepted : validate_stages application ≡ ok tt
unfolding program
stages_accepted = refl

validate_stages-IsStage_example :
    Distinct (map (λ (s : SpecStage String). s.name) application.stages)
validate_stages-IsStage_example = ((validate_stages-IsStage application).0 stages_accepted).0

-- The window denies at 305, and the stages have two restart checks each.
validate_spec_guards_example :
    (error_of (decision cron (freeze ∷ season ∷ []) 305) ≡ none)
    × All (λ s. HasDistinctChecks s.promotion) application.stages
validate_spec_guards_example =
    let accepts = validate_spec_guards library 5 application accepted in (accepts.0 305, accepts.1)

validate_spec-resolve_anchors_example :
    error_of (resolve_anchors (anchored_stages application.stages) (to_two ∷ []) []) ≡ none
validate_spec-resolve_anchors_example =
    validate_spec-resolve_anchors library 5 application (stage "data" "database")
      (stage "web" "" ∷ []) (to_two ∷ []) accepted refl refl ((λ e. cc), ((λ e. cc), tt))
      (inl refl, tt)
