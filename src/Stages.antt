-- ===== src/Stages.antt =====
-- internal/controller/stageset_controller.go, actionledger.go and analysis.go: the records that a pass
-- keeps of the stages in status.stages, and the ledger that a stage starts and ends a pass with.
pub mod Outside
pub mod Pass
mod Merge
mod Loop
mod Forget
mod Tests
use stageset_controller.Prelude.{
  String, str_eq, Bool, true, false, not, ◌&&◌, ◌||◌, Option, none, some, List, [], ◌∷◌, ◌++◌, map,
  if◌then◌else◌, is_some, get_or_else, any, keep_if, cut,
}
use stageset_controller.Ladder.{Action}
use stageset_controller.Actions.{ActionLedger}
use stageset_controller.Promotion
use stageset_controller.Promotion.{
  PromotionState, StagePromotion, promote_token_for, same_phase, blocked,
}
use stageset_controller.Promotion.Gate.{rolls_back, dry_run}

pub data StagePhase : Type 0 where
  no_phase stage_verifying stage_ready stage_failed : StagePhase

-- api/v1 StageStatus. Its message and its entry count are not read by the loop.
pub record StageStatus : Type 0 where
  pub name : String
  pub phase : StagePhase
  pub applied_revision : String
  pub executed_actions : List String
  pub ledger_revision : String
  pub executed_version_actions : List String
  pub ledger_version : String
  pub last_handled_reconcile_at : String
  pub promotion_state : Option PromotionState
  pub last_handled_promotion : String
  pub budget_freeze : Bool  -- whether the pointer is set

-- What abortCapable reads of a restart or event gate.
pub record CheckGate : Type 0 where
  pub on_failure : String
  pub check_on_failure : List String

-- What the loop reads of a stage.
pub record Stage : Type 0 where
  pub name : String
  pub pre : List Action
  pub post : List Action
  pub on_failure : List Action
  pub error_budget : Bool
  pub on_timeout : String
  pub promotion : Option StagePromotion
  pub restart_gate : Option CheckGate
  pub event_gate : Option CheckGate

abbrev pub gate_rolls_back : Option CheckGate → Bool
gate_rolls_back none = false
gate_rolls_back (some g) =
    str_eq g.on_failure "Rollback" || any (λ f. str_eq f "Rollback") g.check_on_failure

unfoldable pub abort_capable : Stage → Bool
abort_capable s = elim s.promotion [
  | none ↦ false
  | some p ↦
      rolls_back p.analysis && not (dry_run p.analysis)
      || gate_rolls_back s.restart_gate
      || gate_rolls_back s.event_gate
]

-- rollbackAborted, for the promote annotation.
unfoldable pub rollback_aborted : String → Stage → StageStatus → String → Bool
unfolding abort_capable promote_token_for
rollback_aborted annotation s prior revision =
    let tok = promote_token_for annotation s.name in
    if not (abort_capable s) then false else elim prior.promotion_state [
      | none ↦ false
      | some st ↦
          if not (same_phase st.phase blocked) || not (str_eq st.aborted_revision revision)
          then false
          else if not (str_eq tok "") && not (str_eq tok prior.last_handled_promotion)
          then false
          else true
    ]

-- m[name] after indexStageStatuses: the last entry of the name.
unfoldable pub index_of : String → List StageStatus → Option StageStatus
index_of n [] = none
index_of n (s ∷ ss) = elim (index_of n ss) [
  | some t ↦ some t
  | none ↦ if str_eq s.name n then some s else none
]

-- mergeStageStatuses, for the names of the spec's stages.
unfoldable pub merge_stage_statuses :
    List String → List StageStatus → List StageStatus → List StageStatus
unfolding index_of
merge_stage_statuses [] prior processed = []
merge_stage_statuses (n ∷ names) prior processed =
    let rest = merge_stage_statuses names prior processed in
    elim (index_of n processed) [
      | some entry ↦ entry ∷ rest
      | none ↦ elim (index_of n prior) [ some entry ↦ entry ∷ rest | none ↦ rest ]
    ]

unfoldable pub stamp : ActionLedger → StageStatus → StageStatus
stamp led s = record s {
  executed_actions = led.executed;
  ledger_revision = led.revision;
  executed_version_actions = led.versioned;
  ledger_version = led.version;
}

-- The zero StageStatus, of a name.
abbrev pub empty_status : String → StageStatus
empty_status name = record {
  name = name;
  phase = no_phase;
  applied_revision = "";
  executed_actions = [];
  ledger_revision = "";
  executed_version_actions = [];
  ledger_version = "";
  last_handled_reconcile_at = "";
  promotion_state = none;
  last_handled_promotion = "";
  budget_freeze = false;
}

-- priorStages[name], whose zero value stands for a missing entry.
abbrev pub prior_of : String → List StageStatus → StageStatus
prior_of name prior = get_or_else (empty_status "") (index_of name prior)

abbrev pub version_scoped : List Action → List String
version_scoped acts = map (λ a. a.name) (keep_if (λ a. str_eq a.scope "Version") acts)

-- What the loop reads of the migration plan.
pub record PlannedVersion : Type 0 where
  pub version_set : Bool
  pub desired : String
  pub baseline : Bool

-- parseReconcileStage, of the reconcile-stage annotation.
unfoldable pub parse_reconcile_stage : String → String × String
parse_reconcile_stage v = if str_eq v "" then ("", "") else elim (cut b'@' v) [
  | none ↦ ("", "")
  | some (name, tok) ↦ if str_eq name "" || str_eq tok "" then ("", "") else (name, tok)
]

-- forceStage and forceToken: the request, where it names a recorded stage that has not handled it.
unfoldable pub force_request : String → List StageStatus → String × String
unfolding parse_reconcile_stage index_of
force_request annotation prior =
    let (stage, token) = parse_reconcile_stage annotation in
    if str_eq stage "" then ("", "") else elim (index_of stage prior) [
      | none ↦ ("", "")
      | some old ↦ if str_eq old.last_handled_reconcile_at token then ("", "") else (stage, token)
    ]

abbrev pub clear_forced : String → StageStatus → StageStatus
clear_forced stage s =
    if not (str_eq stage "") && str_eq s.name stage
    then record s { executed_actions = []; ledger_revision = "" }
    else s

abbrev clear_versions : StageStatus → StageStatus
clear_versions s = record s { executed_version_actions = []; ledger_version = "" }

-- `token != "" && token != ss.Status.LastHandledResetScope`
abbrev pub resets_scope : String → String → Bool
resets_scope token handled = not (str_eq token "") && not (str_eq token handled)

-- priorStages at the start of the loop, after the force-reconcile and the version-ledger reset.
unfoldable pub prior_stages : String → String → String → List StageStatus → List StageStatus
unfolding force_request
prior_stages force reset handled_reset prior =
    let forced = map (clear_forced (force_request force prior).0) prior in
    if resets_scope reset handled_reset then map clear_versions forced else forced

-- lastHandledFor
unfoldable pub last_handled_for : String × String → List StageStatus → String → String
last_handled_for (stage, token) prior name =
    if str_eq name stage then token else (prior_of name prior).last_handled_reconcile_at

-- The ledger that a stage starts a pass with.
unfoldable pub start_ledger : PlannedVersion → Stage → String → List StageStatus → ActionLedger
unfolding index_of
start_ledger plan s revision prior =
    let old = prior_of s.name prior in
    record {
      revision = revision;
      executed =
          if is_some (index_of s.name prior) && str_eq old.ledger_revision revision
          then old.executed_actions
          else [];
      version = if plan.version_set then plan.desired else "";
      versioned =
          (if is_some (index_of s.name prior)
              && plan.version_set
              && str_eq old.ledger_version plan.desired
            then old.executed_version_actions
            else [])
          ++ (if plan.baseline then version_scoped (s.pre ++ s.post) else []);
      lifetime_done = [];
    }

-- The entry that failStage writes.
unfoldable pub failed_status : String → ActionLedger → StageStatus
unfolding stamp
failed_status name led =
    stamp led (record (empty_status name) { phase = stage_failed; applied_revision = led.revision })

-- The entry that holdForProgress appends.
unfoldable pub progressing_status : String → String → ActionLedger → StageStatus
unfolding stamp
progressing_status name revision led =
    stamp led (record (empty_status name) { phase = stage_verifying; applied_revision = revision })

-- The entry that recordGateInterrupted appends.
unfoldable pub interrupted_status :
    String → String → String → Bool → StageStatus → ActionLedger → StageStatus
unfolding stamp
interrupted_status name revision handled_reconcile freeze prior led =
    stamp led (record (empty_status name) {
      phase = stage_ready;
      applied_revision = revision;
      last_handled_reconcile_at = handled_reconcile;
      promotion_state = prior.promotion_state;
      last_handled_promotion = prior.last_handled_promotion;
      budget_freeze = freeze;
    })
