-- ===== src/Admission.antt =====
-- internal/controller/webhook.go: the validation of a StageSet at admission, over the types of
-- api/v1/stageset_types.go that it reads. A reference to a Secret or a ConfigMap is its name; a
-- duration is an integer number of nanoseconds.
pub mod Stages
pub mod Unique
pub mod Promotion
pub mod Spec
pub mod Anchors
pub mod Accepted
mod Tests
use stageset_controller.Prelude.{
  max, String, str_eq, Bool, ◌||◌, Option, none, some, List, ℤ, Result, ok,
}
use stageset_controller.Ladder.{Action, Migration, LadderError, Semver}
use stageset_controller.Metric.{MetricSource, Threshold, Floats}
use stageset_controller.Budget.{ErrorBudget}
use stageset_controller.Checks.{RestartGate, EventGate}
use stageset_controller.Window.{UpdateWindow, WindowError, Cron}

pub record SourceReference : Type 0 where
  pub api_version : String
  pub kind : String
  pub name : String
  pub namespace : String

pub record StageActions : Type 0 where
  pub pre : List Action
  pub post : List Action
  pub on_failure : List Action

pub record AnalysisCheck : Type 0 where
  pub name : String
  pub source : MetricSource
  pub threshold : Threshold

pub record Analysis : Type 0 where
  pub checks : List AnalysisCheck
  pub on_failure : String
  pub on_source_error : String

pub record FastTrack : Type 0 where
  pub source : MetricSource
  pub max : String

pub record PromotionSpec (S : Type 0) : Type 0 where
  pub soak : Option ℤ
  pub fast_track : Option FastTrack
  pub restart_gate : Option (RestartGate S)
  pub event_gate : Option (EventGate S)
  pub analysis : Option Analysis

-- An entry of readyChecks.checks and one of readyChecks.exprs.
pub record ReadyReference : Type 0 where
  pub kind : String
  pub name : String

pub record CustomHealthCheck : Type 0 where
  pub api_version : String
  pub current : String
  pub in_progress : String
  pub failed : String

pub record ReadyChecks : Type 0 where
  pub checks : List ReadyReference
  pub exprs : List CustomHealthCheck

pub record SpecStage (S : Type 0) : Type 0 where
  pub name : String
  pub source_ref : SourceReference
  pub migration_anchor : String
  pub actions : Option StageActions
  pub promotion : Option (PromotionSpec S)
  pub ready_checks : Option ReadyChecks
  pub on_timeout : String
  pub error_budget : Option ErrorBudget

pub record VersionSource : Type 0 where
  pub value : String
  pub from_object : Bool  -- whether it is set
  pub from_artifact : Bool

pub record KubeConfig : Type 0 where
  pub secret_ref : Option String
  pub config_map_ref : Option String

pub record Decryption : Type 0 where
  pub provider : String
  pub secret_ref : Option String

pub record Dependency : Type 0 where
  pub name : String
  pub min_version : String

-- The spec of a StageSet in the namespace `namespace`.
pub record StageSet (S : Type 0) : Type 0 where
  pub namespace : String
  pub stages : List (SpecStage S)
  pub on_rollback : List Action
  pub version : Option VersionSource
  pub migrations : List Migration
  pub migrations_source_ref : Option SourceReference
  pub decryption : Option Decryption
  pub kube_config : Option KubeConfig
  pub error_budget : Option ErrorBudget
  pub on_timeout : String
  pub depends_on : List Dependency
  pub update_windows : List UpdateWindow

-- What the validation calls: metav1.LabelSelectorAsSelector and Empty, schema.ParseGroupVersion and the
-- CEL compiler, whether they accept a text, and the libraries of the ladder, the metrics and the windows.
pub record Libraries (S V F : Type 0) : Type 0 where
  pub parses : S → Bool
  pub is_empty : S → Bool
  pub parse_group_version : String → Bool
  pub compile : String → Bool
  pub semver : Semver V
  pub floats : Floats F
  pub cron : Cron

pub data AdmissionError : Type 0 where
  stage_name_not_unique producer_without_api_version : String → AdmissionError
  verbs_not_one unnamed_action repeated_action unknown_scope scope_not_allowed :
      String → AdmissionError
  scope_without_version anchor_not_allowed anchor_incomplete : String → AdmissionError
  ladder_and_source migrations_without_version cross_namespace_source : AdmissionError
  anchor_collides unknown_anchor : String → AdmissionError
  bad_ladder : LadderError → AdmissionError
  version_not_one bad_provider unnamed_reference kube_config_not_one : AdmissionError
  metric_source_not_one metric_source_incomplete not_a_number resume_below_freeze : AdmissionError
  unknown_choice : String → AdmissionError
  fast_track_without_soak no_checks unnamed_check no_reasons no_threshold : AdmissionError
  duplicate_check invalid_selector empty_selector : String → AdmissionError
  incomplete_reference bad_expression unnamed_dependency bad_min_version : AdmissionError
  bad_window : WindowError → AdmissionError

-- `""`, or one of two values.
abbrev pub is_choice : String → String → String → Bool
is_choice a b v = str_eq v "" || (str_eq v a || str_eq v b)

abbrev pub Check : Type 0
Check = Result AdmissionError (Unit {0})

-- The check of a field that may be unset.
abbrev pub if_set {ℓ} : {A : Type ℓ} → Option A → (A → Check) → Check
if_set none f = ok tt
if_set (some a) f = f a
