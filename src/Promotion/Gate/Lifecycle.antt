-- ===== src/Promotion/Gate/Lifecycle.antt =====
-- internal/controller/promotion.go and the part of the stage loop that records its outcome:
-- what one pass leaves for the next.
use stageset_controller.Prelude.{
  String, str_eq, str_eq_refl, ◌≡◌, refl, ◌∙◌, Bool, true, false, not, ◌&&◌, Option, none, some,
  arith, if◌then◌else◌, pos, to_second, stored_time,
}
use stageset_controller.Promotion.{
  AnalysisResult, PromotionState, StagePromotion, StageStatus, Pass, Outcome, carried,
}
use stageset_controller.Checks.{RestartObservation, adopted}
use stageset_controller.Promotion.Gate.{
  gate_manual, gate_analysis, gate_soak, gate_failure, gate_checks, gate_stage, gate_promotion,
  is_promoted, is_fresh, token,
}

abbrev pub stored_result : Option AnalysisResult → Option AnalysisResult
stored_result none = none
stored_result (some r) = some (record r { time = to_second r.time })

-- A state as the API server keeps it, with its instants in whole seconds.
unfoldable pub stored_state : Option PromotionState → Option PromotionState
stored_state none = none
stored_state (some s) = some (record s {
  since = stored_time s.since;
  soak_until = stored_time s.soak_until;
  last_analysis = stored_result s.last_analysis;
})

-- The state that the stage loop records: the gate's, with the restart baseline stamped on it.
abbrev pub recorded_state : Option RestartObservation → Outcome → Option PromotionState
recorded_state restarts o = stored_state (adopted restarts o.advances o.state)

abbrev pub abort_at : String → Option PromotionState → Option PromotionState
abort_at revision none = none
abort_at revision (some s) = some (record s { aborted_revision = revision })

-- internal/controller/stageset_controller.go: the promotion fields of the StageStatus that the stage
-- loop records, as the next pass reads them. `restarts` is what the restart checks have read, and
-- `reverted` the revision that a rollback put back, where it landed.
unfoldable pub settle : String → Option RestartObservation → Outcome → Option String → StageStatus
settle revision restarts o none = record {
  applied_revision = revision;
  promotion_state = recorded_state restarts o;
  last_handled_promotion = o.handled;
}
settle revision restarts o (some reverted) = record {
  applied_revision = if o.rollback then reverted else revision;
  promotion_state =
      if o.rollback
      then abort_at revision (recorded_state restarts o)
      else recorded_state restarts o;
  last_handled_promotion = o.handled;
}

module _ (stage : String) (p : StagePromotion) (revision : String) (prior : StageStatus)
    (x : Pass) where
  advances-is_promoted :
      (gate_promotion stage (some p) revision prior x).advances ≡ true
      → is_promoted (gate_promotion stage (some p) revision prior x).state ≡ true
  unfolding gate_promotion gate_stage gate_checks gate_failure gate_soak gate_analysis
  advances-is_promoted h = ground arith

  recorded_state-is_promoted :
      (restarts : Option RestartObservation) (advances : Bool) (state : Option PromotionState)
      → is_promoted state ≡ true
      → is_promoted (stored_state (adopted restarts advances state)) ≡ true
  unfolding stored_state
  recorded_state-is_promoted none advances none h = h
  recorded_state-is_promoted none advances (some s) h = h
  recorded_state-is_promoted (some r) advances none h = h
  recorded_state-is_promoted (some r) advances (some s) h = h

  -- Where the gate lets a stage advance, the gate of the next pass that reads the record of that pass, over
  -- the same revision, lets it advance again, whatever the checks, the analysis and the clock then say, and
  -- hands the recorded state on.
  pub advances_again :
      (restarts : Option RestartObservation)
      → (gate_promotion stage (some p) revision prior x).advances ≡ true
      → (y : Pass)
      → let left = settle revision restarts (gate_promotion stage (some p) revision prior x) none in
        gate_promotion stage (some p) revision left y ≡ record {
          advances = true;
          state = left.promotion_state;
          requeue = pos 0;
          handled = left.last_handled_promotion;
          rollback = false;
        }
  unfolding settle
  advances_again restarts h y =
      let o = gate_promotion stage (some p) revision prior x in
      again (settle revision restarts o none) refl
        (recorded_state-is_promoted restarts o.advances o.state (advances-is_promoted h))
    where
      again :
          (left : StageStatus)
          → left.applied_revision ≡ revision
          → is_promoted left.promotion_state ≡ true
          → gate_promotion stage (some p) revision left y ≡ record {
            advances = true;
            state = left.promotion_state;
            requeue = pos 0;
            handled = left.last_handled_promotion;
            rollback = false;
          }
      again left r e = unfold gate_promotion gate_stage in rw (r, str_eq_refl revision) (rw e)

  -- The token that a pass records as handled.
  pub handled_lem : (gate_promotion stage (some p) revision prior x).handled ≡ (
      if not (is_promoted (carried prior.promotion_state (str_eq prior.applied_revision revision)))
        && is_fresh stage p prior x
      then token stage p prior x
      else prior.last_handled_promotion)
  unfolding gate_promotion gate_stage gate_checks gate_failure gate_soak gate_analysis gate_manual
  handled_lem = ground arith

settle-handled :
    (revision : String) (restarts : Option RestartObservation) (o : Outcome)
    (reverted : Option String)
    → (settle revision restarts o reverted).last_handled_promotion ≡ o.handled
unfolding settle
settle-handled revision restarts o none = refl
settle-handled revision restarts o (some r) = refl

-- The record of a gate that promoted by a fresh token holds that token as handled, whether or not a
-- rollback lands, and then it is fresh no more: while that record is kept, the annotation does not
-- promote the stage again, whatever the revision.
pub token_once :
    (stage : String) (p : StagePromotion) (revision : String) (prior : StageStatus) (x : Pass)
    (restarts : Option RestartObservation) (reverted : Option String) (y : Pass)
    → is_fresh stage p prior x ≡ true
    → is_promoted (carried prior.promotion_state (str_eq prior.applied_revision revision)) ≡ false
    → y.annotation ≡ x.annotation
    → let s = settle revision restarts (gate_promotion stage (some p) revision prior x) reverted in
      (s.last_handled_promotion ≡ token stage p prior x) × (is_fresh stage p s y ≡ false)
token_once stage p revision prior x restarts reverted y f n e =
    let s = settle revision restarts (gate_promotion stage (some p) revision prior x) reverted in
    let handled =
      settle-handled revision restarts (gate_promotion stage (some p) revision prior x) reverted
      ∙ handled_lem stage p revision prior x in
    let spent : s.last_handled_promotion ≡ token stage p prior x = ground (arith, handled, f, n) in
    (spent, rw (spent, e) (ground (arith, str_eq_refl (token stage p prior x))))
