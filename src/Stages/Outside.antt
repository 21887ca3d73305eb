-- ===== src/Stages/Outside.antt =====
-- internal/controller/stageset_controller.go, the body of the stage loop: what its steps answer, the
-- operations of other components that it calls, and how it ends.
use stageset_controller.Prelude.{ℕ, String, Bool, Option, List, ℤ}
use stageset_controller.Actions.{Dispatcher}
use stageset_controller.Promotion.{AnalysisVerdict, Verdict}
use stageset_controller.Checks.{RestartObservation}
use stageset_controller.Stages.{Stage, StageStatus, PlannedVersion}

-- The steps whose failure fails the stage, by failStage's op.
pub data Op : Type 0 where
  connect_to_target invalidate_lifetime migration pre_action : Op
  fetch_artifact decrypt resolve_post_build build image_verification conflict_policy : Op
  apply record_inventory verify post_action : Op

-- How the loop's body ends for a stage.
pub data StageEnd : Type 0 where
  advanced hold_for_promotion hold_for_budget hold_for_progress : StageEnd
  gate_denied gate_unevaluable abort_for_deletion invalid_spec : StageEnd
  stage_failure : Op → StageEnd

-- gateStageBudget's result: a specErr, a hold, or entry with or without a dryRun's would-freeze.
pub data BudgetGate : Type 0 where
  budget_spec_error : BudgetGate
  budget_hold budget_enter : Bool → BudgetGate

pub data VerifyResult : Type 0 where
  verified_ok deleted progressing verify_failed : VerifyResult

-- What the promotion gate reads: the analysis, and the restart and event checks, or why they cannot be read.
pub data GateReads : Type 0 where
  reads : AnalysisVerdict → Bool → Option RestartObservation → Option Verdict → GateReads
  reads_denied reads_unevaluable : GateReads

-- rollbackStageToSnapshot: the revision restored, that there is none, or a transient failure.
pub data Revert : Type 0 where
  reverted : String → Revert
  not_reverted revert_failed : Revert

-- The operations of the other components that the body calls, on the state outside.
pub record Outside (W : Type 0) : Type 0 where
  pub dispatcher : Dispatcher W
  pub gate_budget : Stage → StageStatus → W → BudgetGate
  pub connects : Stage → W → Bool
  pub lifetime_done : Stage → W → List String
  pub invalidate : Stage → W → Bool × W  -- whether dropped completions were stored
  pub completes : Stage → String → Bool  -- whether a Lifetime completion is stored
  pub migrate : Stage → W → Bool × W  -- whether the stage's migrations completed
  pub prepare : Stage → W → Option Op  -- from the fetch to the conflict policy
  pub apply_objects : Stage → W → Bool × W
  pub write_inventory : Stage → W → Bool × W
  pub verify_stage : Stage → W → VerifyResult × W
  pub read_gate : Stage → W → GateReads
  pub revert : Stage → W → Revert × W

-- What a reconcile hands to every stage of the loop.
pub record Request : Type 0 where
  pub promote : String
  pub budget_override : Bool
  pub forced : String × String
  pub plan : PlannedVersion
  pub prior : List StageStatus
  pub now : ℕ
  pub retry_interval : ℤ

-- The end, the entry appended to the statuses, and the state.
pub record StageOutcome (W : Type 0) : Type 0 where
  pub end : StageEnd
  pub entry : Option StageStatus
  pub state : W
