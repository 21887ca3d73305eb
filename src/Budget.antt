-- ===== src/Budget.antt =====
-- internal/controller/errorbudget.go: the error budget of a rollout and of a stage.
pub mod Hysteresis
pub mod Holding
mod Tests
use stageset_controller.Prelude.{
  ℕ, String, str_eq, Bool, true, false, not, ◌&&◌, ◌||◌, Option, none, some, List, [], ◌∷◌,
  if◌then◌else◌, is_some, get_or_else, lookup, ℤ, ltb_ℤ, pos, Result, ok, err,
}
use stageset_controller.Metric.{MetricSource, Floats}

pub record ErrorBudget : Type 0 where
  pub source : MetricSource
  pub freeze_threshold : String
  pub resume_threshold : String
  pub on_source_error : String
  pub interval : Option ℤ
  pub dry_run : Bool

pub record BudgetFreeze : Type 0 where
  pub remaining : String
  pub freeze_threshold : String
  pub resume_threshold : String
  pub since : Option ℕ
  pub dry_run : Bool

pub data BudgetError : Type 0 where
  bad_freeze bad_resume resume_below_freeze : BudgetError

-- budgetVerdict: its two errors, or the value and the freeze, which is set exactly where it is frozen.
pub data BudgetVerdict (F : Type 0) : Type 0 where
  spec_error : BudgetError → BudgetVerdict F
  source_error : BudgetVerdict F
  measured : F → Option BudgetFreeze → BudgetVerdict F

-- budgetInterval
abbrev pub budget_interval : ℤ → ErrorBudget → ℤ
budget_interval retry_interval eb = elim eb.interval [
  | none ↦ retry_interval
  | some i ↦ if ltb_ℤ (pos 0) i then i else retry_interval
]

-- effectiveResume
abbrev pub effective_resume : ErrorBudget → String
effective_resume eb =
    if not (str_eq eb.resume_threshold "") then eb.resume_threshold else eb.freeze_threshold

-- The start of a freeze that lasts, or now.
abbrev pub freeze_since : ℕ → Option BudgetFreeze → ℕ
freeze_since now none = now
freeze_since now (some f) = get_or_else now f.since

-- freshBudgetOverride, for the annotation and status.lastHandledBudgetOverride.
abbrev pub fresh_budget_override : String → String → Bool
fresh_budget_override annotation handled =
    not (str_eq annotation "") && not (str_eq annotation handled)

pub data BudgetReason : Type 0 where
  source_unavailable exhausted : BudgetReason

pub record StageBudgetGate : Type 0 where
  pub hold : Bool
  pub freeze : Option BudgetFreeze
  pub reason : Option BudgetReason
  pub requeue : ℤ
  pub spec_err : Option BudgetError
  pub source_err : Bool

abbrev pub open_gate : StageBudgetGate
open_gate = record {
  hold = false;
  freeze = none;
  reason = none;
  requeue = pos 0;
  spec_err = none;
  source_err = false;
}

-- What the gate of a rollout leaves: whether the pass ends here, status.budgetFreeze, and why it holds.
pub data HoldReason : Type 0 where
  invalid_spec : BudgetError → HoldReason
  budget : BudgetReason → HoldReason

pub record RolloutBudgetGate : Type 0 where
  pub deferred : Bool
  pub freeze : Option BudgetFreeze
  pub reason : Option HoldReason
  pub requeue : Option ℤ

-- 1 * time.Minute
abbrev pub permanent_retry_interval : ℤ
permanent_retry_interval = pos 60000000000

-- clearBudgetFreeze, and the pass goes on.
abbrev pub passed_gate : RolloutBudgetGate
passed_gate = record { deferred = false; freeze = none; reason = none; requeue = none }

-- `ss.Status.LastAppliedRevisions[key] != revision` for some artifact.
unfoldable pub has_new_revision : List (String × String) → List (String × String) → Bool
has_new_revision applied [] = false
has_new_revision applied ((key, revision) ∷ rest) =
    not (str_eq (get_or_else "" (lookup key applied)) revision) || has_new_revision applied rest

module _ {F : Type 0} (fl : Floats F) where
  unfoldable pub budget_thresholds : ErrorBudget → Result BudgetError (F × F)
  budget_thresholds eb = elim (fl.parse_float eb.freeze_threshold) [
    | none ↦ err bad_freeze
    | some freeze ↦
        if str_eq eb.resume_threshold ""
        then ok (freeze, freeze)
        else elim (fl.parse_float eb.resume_threshold) [
          | none ↦ err bad_resume
          | some resume ↦
              if fl.less resume freeze then err resume_below_freeze else ok (freeze, resume)
        ]
  ]

  -- The hysteresis of evaluateBudget.
  unfoldable pub is_frozen : F → F → Option BudgetFreeze → F → Bool
  is_frozen freeze_at resume_at prev value =
      if is_some prev then fl.less value resume_at else fl.less value freeze_at

  module _ (query : MetricSource → Option F) where
    unfoldable pub evaluate_budget : ErrorBudget → Option BudgetFreeze → ℕ → BudgetVerdict F
    unfolding budget_thresholds is_frozen
    evaluate_budget eb prev now = elim (budget_thresholds eb) [
      | err e ↦ spec_error e
      | ok at ↦ elim (query eb.source) [
        | none ↦ source_error
        | some value ↦ measured value (
            if is_frozen at.0 at.1 prev value
            then some (record {
              remaining = fl.format_float value;
              freeze_threshold = eb.freeze_threshold;
              resume_threshold = effective_resume eb;
              since = some (freeze_since now prev);
              dry_run = eb.dry_run;
            })
            else none)
      ]
    ]

    unfoldable pub gate_stage_budget : ErrorBudget → Option BudgetFreeze → ℕ → ℤ → StageBudgetGate
    gate_stage_budget eb prior now retry_interval =
        let interval = budget_interval retry_interval eb in
        elim (evaluate_budget eb prior now) [
          | spec_error e ↦ record open_gate { spec_err = some e }
          | source_error ↦
              if str_eq eb.on_source_error "Hold"
              then record open_gate {
                hold = true;
                reason = some source_unavailable;
                requeue = interval;
              }
              else record open_gate { source_err = true }
          | measured value none ↦ open_gate
          | measured value (some f) ↦
              if eb.dry_run then record open_gate { freeze = some f } else record open_gate {
                hold = true;
                freeze = some f;
                reason = some exhausted;
                requeue = interval;
              }
        ]

    -- gateErrorBudget. `resolved` are the artifacts' keys and revisions.
    unfoldable pub gate_error_budget :
        Option ErrorBudget
        → Bool
        → List (String × String)
        → List (String × String)
        → Option BudgetFreeze
        → ℕ
        → ℤ
        → RolloutBudgetGate
    unfolding has_new_revision
    gate_error_budget none override applied resolved prior now retry_interval = passed_gate
    gate_error_budget (some eb) override applied resolved prior now retry_interval =
        let interval = budget_interval retry_interval eb in
        if override || not (has_new_revision applied resolved)
        then passed_gate
        else elim (evaluate_budget eb prior now) [
          | spec_error e ↦ record {
            deferred = true;
            freeze = prior;
            reason = some (invalid_spec e);
            requeue = some permanent_retry_interval;
          }
          | source_error ↦
              if str_eq eb.on_source_error "Hold"
              then record {
                deferred = true;
                freeze = prior;
                reason = some (budget source_unavailable);
                requeue = some interval;
              }
              else passed_gate
          | measured value none ↦ passed_gate
          | measured value (some f) ↦
              if eb.dry_run then record passed_gate { freeze = some f } else record {
                deferred = true;
                freeze = some f;
                reason = some (budget exhausted);
                requeue = some interval;
              }
        ]
