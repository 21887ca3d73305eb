-- ===== src/Stages/Pass.antt =====
-- internal/controller/stageset_controller.go, the body of the stage loop: what one pass does with one
-- stage, in the order of its steps, and how it ends. What a step does outside is the state `W`.
use stageset_controller.Prelude.{
  String, str_eq, Bool, true, false, not, ◌&&◌, Option, none, some, List, [], ◌∷◌, ◌++◌,
  if◌then◌else◌, is_some,
}
use stageset_controller.Ladder.{Action}
use stageset_controller.Actions.{ActionLedger, RunOutcome, run, done_set, record_name}
use stageset_controller.Promotion
use stageset_controller.Promotion.{PromotionState, Outcome, AnalysisVerdict, Verdict}
use stageset_controller.Promotion.Gate.{gate_promotion}
use stageset_controller.Checks.{RestartObservation, adopt, verdict_of}
use stageset_controller.Stages.{
  Stage, StageStatus, rollback_aborted, start_ledger, prior_of, index_of, failed_status,
  progressing_status, interrupted_status, stamp, empty_status, stage_ready, last_handled_for,
}
use stageset_controller.Stages.Outside.{
  Op, StageEnd, BudgetGate, VerifyResult, GateReads, Revert, Outside, Request, StageOutcome,
  connect_to_target, invalidate_lifetime, migration, pre_action, apply, record_inventory, verify,
  post_action, advanced, hold_for_promotion, hold_for_budget, hold_for_progress, gate_denied,
  gate_unevaluable, abort_for_deletion, invalid_spec, stage_failure, budget_spec_error, budget_hold,
  budget_enter, verified_ok, deleted, progressing, verify_failed, reads, reads_denied,
  reads_unevaluable, reverted, not_reverted, revert_failed,
}

-- The ledger after a run: a Lifetime completion is kept in the StageLedger, the others in the status.
unfoldable pub record_run : (String → String) → List String → ActionLedger → ActionLedger
unfolding record_name
record_run scope_of [] l = l
record_run scope_of (n ∷ ns) l =
    record_run scope_of ns (if str_eq (scope_of n) "Lifetime" then l else record_name scope_of n l)

-- ActionScopes: the effective scope of a pre or post action's name, "" for another name.
unfoldable pub scope_in : List Action → String → String
scope_in [] n = ""
scope_in (a ∷ acts) n =
    let later = scope_in acts n in
    if not (str_eq later "")
    then later
    else if str_eq a.name n
    then (if str_eq a.scope "" then "Revision" else a.scope)
    else ""

abbrev pub scope_of : Stage → String → String
scope_of s = scope_in (s.pre ++ s.post)

-- What the gate reads of the stage's record.
abbrev pub gate_view : StageStatus → Promotion.StageStatus
gate_view s = record {
  applied_revision = s.applied_revision;
  promotion_state = s.promotion_state;
  last_handled_promotion = s.last_handled_promotion;
}

module _ {W : Type 0} (o : Outside W) (r : Request) (s : Stage) (revision : String) where
  abbrev prior : StageStatus
  prior = prior_of s.name r.prior

  abbrev takes : String → Bool
  takes n = if str_eq (scope_of s n) "Lifetime" then o.completes s n else true

  abbrev finished : StageEnd → Option StageStatus → W → StageOutcome W
  finished e entry w = record { end = e; entry = entry; state = w }

  abbrev pub fail_stage : Op → ActionLedger → W → StageOutcome W
  fail_stage op led w = finished (stage_failure op) (some (failed_status s.name led)) w

  -- executor.Run for the stage, and the ledger after it.
  abbrev pub run_actions : List Action → ActionLedger → W → RunOutcome o.dispatcher
  run_actions acts led w = run o.dispatcher takes (done_set led) acts w

  abbrev pub led_after : List Action → ActionLedger → W → ActionLedger
  led_after acts led w = record_run (scope_of s) (run_actions acts led w).recorded led

  -- runOnFailure, then failStage.
  unfoldable pub fail_after : Op → ActionLedger → W → StageOutcome W
  unfolding record_run run failed_status
  fail_after op led w =
      fail_stage op (led_after s.on_failure led w) (run_actions s.on_failure led w).state

  -- recordGateInterrupted, then the exit.
  unfoldable pub interrupt : StageEnd → Bool → ActionLedger → W → StageOutcome W
  unfolding interrupted_status last_handled_for
  interrupt e freeze led w =
      finished e
        (some (
          interrupted_status s.name revision (last_handled_for r.forced r.prior s.name) freeze prior
            led))
        w

  -- The entry of a stage that the gate judged.
  unfoldable pub judged_status :
      Outcome → String → Option PromotionState → Bool → ActionLedger → StageStatus
  unfolding stamp last_handled_for
  judged_status g applied state freeze led = stamp led (record (empty_status s.name) {
    phase = stage_ready;
    applied_revision = applied;
    last_handled_reconcile_at = last_handled_for r.forced r.prior s.name;
    promotion_state = state;
    last_handled_promotion = g.handled;
    budget_freeze = freeze;
  })

  abbrev pub aborted : String → Option PromotionState → Option PromotionState
  aborted rev none = none
  aborted rev (some st) = some (record st { aborted_revision = rev })

  abbrev gate_end : Outcome → StageEnd
  gate_end g = if g.advances then advanced else hold_for_promotion

  -- The entry after a rollback that the gate asked for.
  unfoldable pub settle_revert : Outcome → Bool → ActionLedger → Revert → W → StageOutcome W
  unfolding judged_status interrupt
  settle_revert g freeze led revert_failed w = interrupt gate_unevaluable freeze led w
  settle_revert g freeze led not_reverted w =
      finished (gate_end g) (some (judged_status g revision g.state freeze led)) w
  settle_revert g freeze led (reverted rev) w =
      finished (gate_end g) (some (judged_status g rev (aborted revision g.state) freeze led)) w

  unfoldable pub settle_gate : Outcome → Bool → ActionLedger → W → StageOutcome W
  unfolding judged_status settle_revert
  settle_gate g freeze led w =
      let (back, w') = o.revert s w in
      if g.rollback
      then settle_revert g freeze led back w'
      else finished (gate_end g) (some (judged_status g revision g.state freeze led)) w

  -- gatePromotion, on what it read, and the baseline that the state carries on.
  abbrev pub gate_outcome :
      AnalysisVerdict → Bool → Option RestartObservation → Option Verdict → Outcome
  gate_outcome verdict fast restarts event = adopt restarts (
      gate_promotion s.name s.promotion revision (gate_view prior) (record {
        annotation = r.promote;
        now = r.now;
        verdict = verdict;
        fast_track_ok = fast;
        restart = verdict_of restarts;
        event = event;
        retry_interval = r.retry_interval;
      }))

  unfoldable pub judge_reads : Bool → ActionLedger → W → GateReads → StageOutcome W
  unfolding settle_gate interrupt
  judge_reads freeze led w reads_denied = interrupt gate_denied freeze led w
  judge_reads freeze led w reads_unevaluable = interrupt gate_unevaluable freeze led w
  judge_reads freeze led w (reads verdict fast restarts event) =
      settle_gate (gate_outcome verdict fast restarts event) freeze led w

  -- The promotion gate, after the post-actions.
  unfoldable pub judge : Bool → ActionLedger → W → StageOutcome W
  unfolding judge_reads
  judge freeze led w = judge_reads freeze led w (o.read_gate s w)

  unfoldable pub post_actions : Bool → ActionLedger → W → StageOutcome W
  unfolding judge fail_after record_run run
  post_actions freeze led w =
      let ran = run_actions s.post led w in
      let led' = led_after s.post led w in
      if is_some ran.error
      then fail_after post_action led' ran.state
      else judge freeze led' ran.state

  unfoldable pub after_verify : Bool → ActionLedger → VerifyResult → W → StageOutcome W
  unfolding post_actions fail_after progressing_status
  after_verify freeze led deleted w = finished abort_for_deletion none w
  after_verify freeze led verify_failed w = fail_after verify led w
  after_verify freeze led verified_ok w = post_actions freeze led w
  after_verify freeze led progressing w =
      if str_eq s.on_timeout "Rollback"
      then fail_after verify led w
      else finished hold_for_progress (some (progressing_status s.name revision led)) w

  -- The objects are applied and recorded as the stage's inventory.
  unfoldable pub apply_stage : Bool → ActionLedger → W → StageOutcome W
  unfolding after_verify fail_after
  apply_stage freeze led w =
      let (ok1, w1) = o.apply_objects s w in
      let (ok2, w2) = o.write_inventory s w1 in
      let (v, w3) = o.verify_stage s w2 in
      if not ok1
      then fail_after apply led w1
      else if not ok2
      then fail_after record_inventory led w2
      else after_verify freeze led v w3

  unfoldable pub after_prepare : Bool → ActionLedger → W → Option Op → StageOutcome W
  unfolding apply_stage failed_status
  after_prepare freeze led w none = apply_stage freeze led w
  after_prepare freeze led w (some op) = fail_stage op led w

  unfoldable pub pre_actions : Bool → ActionLedger → W → StageOutcome W
  unfolding after_prepare record_run run
  pre_actions freeze led w =
      let ran = run_actions s.pre led w in
      let led' = led_after s.pre led w in
      if is_some ran.error
      then fail_stage pre_action led' ran.state
      else after_prepare freeze led' ran.state (o.prepare s ran.state)

  -- The connection, the Lifetime ledger and the migrations.
  unfoldable pub enter_stage : Bool → ActionLedger → W → StageOutcome W
  unfolding pre_actions failed_status
  enter_stage freeze led w =
      let led' : ActionLedger = record led { lifetime_done = o.lifetime_done s w } in
      let (stored, w1) = o.invalidate s w in
      let (migrated, w2) = o.migrate s w1 in
      if not (o.connects s w)
      then fail_stage connect_to_target led w
      else if not stored
      then fail_stage invalidate_lifetime led' w1
      else if not migrated
      then fail_stage migration led' w2
      else pre_actions freeze led' w2

  unfoldable pub after_budget : ActionLedger → W → BudgetGate → StageOutcome W
  unfolding enter_stage
  after_budget led w budget_spec_error = finished invalid_spec none w
  after_budget led w (budget_hold freeze) =
      finished hold_for_budget (some (record prior { name = s.name; budget_freeze = freeze })) w
  after_budget led w (budget_enter freeze) = enter_stage freeze led w

  -- Whether the stage's error budget is consulted: for a revision that the stage has not applied.
  abbrev pub enters_new_revision : Bool
  enters_new_revision =
      s.error_budget && not r.budget_override && not (str_eq prior.applied_revision revision)

  unfoldable pub run_stage : W → StageOutcome W
  unfolding enter_stage after_budget rollback_aborted start_ledger index_of
  run_stage w =
      let led = start_ledger r.plan s revision r.prior in
      if is_some (index_of s.name r.prior) && rollback_aborted r.promote s prior revision
      then finished hold_for_promotion (some prior) w
      else if enters_new_revision
      then after_budget led w (o.gate_budget s prior w)
      else enter_stage false led w
