-- ===== src/Stages/Loop.antt =====
-- internal/controller/stageset_controller.go: the loop over the stages, its exits, and what each writes
-- to the status. A stage is paired with the revision that its source resolved to.
pub mod Order
pub mod Advance
pub mod Complete
use stageset_controller.Prelude.{
  ℕ, String, Bool, true, false, Option, none, some, List, [], ◌∷◌, ◌++◌, map, if◌then◌else◌, ℤ,
}
use stageset_controller.Stages.{
  Stage, StageStatus, PlannedVersion, merge_stage_statuses, prior_stages, force_request,
  failed_status,
}
use stageset_controller.Actions.{ActionLedger}
use stageset_controller.Stages.Outside.{
  StageEnd, advanced, hold_for_promotion, hold_for_budget, hold_for_progress, gate_denied,
  gate_unevaluable, abort_for_deletion, invalid_spec, stage_failure, Outside, Request,
}
use stageset_controller.Stages.Pass.{run_stage}

-- The stage that ended the loop and how, or that the last one advanced; the entries appended; the state.
pub record LoopOutcome (W : Type 0) : Type 0 where
  pub end : StageEnd
  pub entries : List StageStatus
  pub state : W

abbrev pub is_advanced : StageEnd → Bool
is_advanced advanced = true
is_advanced _ = false

abbrev pub appended : Option StageStatus → List StageStatus → List StageStatus
appended none entries = entries
appended (some e) entries = entries ++ (e ∷ [])

unfoldable pub run_stages :
    {W : Type 0}
    → Outside W
    → Request
    → List (Stage × String)
    → List StageStatus
    → W
    → LoopOutcome W
unfolding run_stage
run_stages o r [] entries w = record { end = advanced; entries = entries; state = w }
run_stages o r ((s, revision) ∷ rest) entries w =
    let here = run_stage o r s revision w in
    let later = run_stages o r rest (appended here.entry entries) here.state in
    if is_advanced here.end
    then later
    else record { end = here.end; entries = appended here.entry entries; state = here.state }

-- What follows a loop without an error: the check for objects claimed twice, and the prune.
pub data Prune : Type 0 where
  pruned claimed_twice prune_error : Prune

-- actionLedger{}
abbrev pub empty_ledger : ActionLedger
empty_ledger = record {
  revision = "";
  executed = [];
  version = "";
  versioned = [];
  lifetime_done = [];
}

-- What the loop keeps in the StageSet's status.
pub record Status : Type 0 where
  pub stages : List StageStatus
  pub version : String
  pub executed_migrations : List String
  pub executed_migration_actions : List String

-- The migration ledgers that runStageMigrations leaves on the status, and the steps after the loop, for
-- the names of the stages that the loop recorded.
pub record Finish (W : Type 0) : Type 0 where
  pub migrations : W → List String
  pub migration_actions : W → List String
  pub prune : List String → W → Prune

abbrev pub names_of : List (Stage × String) → List String
names_of stages = map (λ p. p.0.name) stages

module _ {W : Type 0} (f : Finish W) where
  -- A status write keeps the ledgers that the pass changed.
  abbrev pub with_ledgers : W → Status → Status
  with_ledgers w st = record st {
    executed_migrations = f.migrations w;
    executed_migration_actions = f.migration_actions w;
  }

  -- A pass that ended early: its entries are merged over the persisted ones.
  unfoldable pub write_merged : List String → LoopOutcome W → Status → Status
  unfolding merge_stage_statuses
  write_merged names l st = record (with_ledgers l.state st) {
    stages = merge_stage_statuses names st.stages l.entries;
  }

  -- The success path: the version advances and the migration ledgers are cleared.
  unfoldable pub complete_pass : PlannedVersion → LoopOutcome W → Status → Status
  complete_pass plan l st =
      let written : Status = record (with_ledgers l.state st) { stages = l.entries } in
      if plan.version_set
      then record written {
        version = plan.desired;
        executed_migrations = [];
        executed_migration_actions = [];
      }
      else written

  -- After a loop that returned no error.
  unfoldable pub after_loop : PlannedVersion → LoopOutcome W → Status → Status
  unfolding complete_pass
  after_loop plan l st = elim (f.prune (map (λ e. e.name) l.entries) l.state) [
    | claimed_twice ↦ with_ledgers l.state st
    | prune_error ↦ st
    | pruned ↦ complete_pass plan l st
  ]

  -- The handlers of the loop's error. A malformed budget has set the Ready condition and written the
  -- status, but its return carries no error.
  unfoldable pub settle_loop : PlannedVersion → List String → LoopOutcome W → Status → Status
  unfolding write_merged after_loop
  settle_loop plan names l st = elim l.end [
    | abort_for_deletion ↦ st
    | hold_for_promotion ↦ write_merged names l st
    | hold_for_budget ↦ write_merged names l st
    | hold_for_progress ↦ write_merged names l st
    | gate_denied ↦ write_merged names l st
    | gate_unevaluable ↦ write_merged names l st
    | stage_failure op ↦ write_merged names l st
    | invalid_spec ↦ after_loop plan l (with_ledgers l.state st)
    | advanced ↦ after_loop plan l st
  ]

-- The exits before the loop, where the target cannot be reached or decryption cannot be configured:
-- failStage for the first stage, with no entry of the pass and an empty ledger.
unfoldable pub fail_before_loop : List (Stage × String) → Status → Status
unfolding merge_stage_statuses failed_status
fail_before_loop [] st = st
fail_before_loop ((s, revision) ∷ rest) st = record st {
  stages =
      merge_stage_statuses (names_of ((s, revision) ∷ rest)) st.stages
        (failed_status s.name empty_ledger ∷ []);
}

-- The annotations and the token that the ledgers are reset by.
pub record Annotations : Type 0 where
  pub promote : String
  pub reconcile_stage : String
  pub reset_scope : String
  pub handled_reset : String
  pub budget_override : Bool

-- The pass, from the index of the persisted stages to the write of the status.
unfoldable pub reconcile_stages :
    {W : Type 0}
    → Outside W
    → Finish W
    → Annotations
    → PlannedVersion
    → ℕ
    → ℤ
    → List (Stage × String)
    → Status
    → W
    → Status × W
unfolding run_stages settle_loop prior_stages force_request
reconcile_stages o f a plan now retry stages st w =
    let r : Request = record {
      promote = a.promote;
      budget_override = a.budget_override;
      forced = force_request a.reconcile_stage st.stages;
      plan = plan;
      prior = prior_stages a.reconcile_stage a.reset_scope a.handled_reset st.stages;
      now = now;
      retry_interval = retry;
    } in
    let l = run_stages o r stages [] w in (settle_loop f plan (names_of stages) l st, l.state)
