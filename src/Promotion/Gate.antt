-- ===== src/Promotion/Gate.antt =====
-- internal/controller/promotion.go, gatePromotion, in the order of its checks.
pub mod Conditions
pub mod Lifecycle
pub mod Soak
mod Tests
use stageset_controller.Prelude.{
  ℕ, ◌+◌, ◌-◌, String, str_eq, Bool, true, false, not, ◌&&◌, ◌||◌, Option, none, some, ltb,
  if◌then◌else◌, get_or_else, length, ℤ, ltb_ℤ, add_duration, incr_int32, pos,
}
use stageset_controller.Promotion.{
  soaking, analyzing, blocked, awaiting_manual, promoted, AnalysisResult, PromotionState, in_phase,
  PromotionAnalysis, StagePromotion, AnalysisVerdict, StageStatus, Pass, Outcome, same_phase,
  promote_token_for, past_soak, carried, carry_soak_until, phase_since, fast_track_after,
  analysis_interval, requeue_for_window,
}

-- The variables that the analysis bookkeeping sets.
pub record Analysed : Type 0 where
  pub result : Option AnalysisResult
  pub failures : ℤ
  pub passing : Bool
  pub failed : Bool

abbrev pub failing : PromotionAnalysis → AnalysisVerdict → Bool
failing an v = v.breached || (v.source_err && not (str_eq an.on_source_error "Allow"))

abbrev pub previous_failures : Option PromotionState → ℤ
previous_failures none = pos 0
previous_failures (some p) = p.analysis_failures

-- The caller evaluates the analysis exactly where the stage has one, so there a verdict is nil
-- exactly where `analysis` is none.
pub analyse : Option PromotionAnalysis → AnalysisVerdict → Option PromotionState → Analysed
analyse none v prior = record { result = none; failures = pos 0; passing = true; failed = false }
analyse (some an) v prior =
    let failures : ℤ = if failing an v then incr_int32 (previous_failures prior) else pos 0 in
    let limit : ℤ = get_or_else (pos 0) an.failure_limit in
    record {
      result = v.result;
      failures = failures;
      passing = not (failing an v);
      failed = ltb_ℤ limit failures && not an.dry_run;
    }

abbrev pub with_analysis : Analysed → PromotionState → PromotionState
with_analysis a s = record s { analysis_failures = a.failures; last_analysis = a.result }

abbrev pub dry_run : Option PromotionAnalysis → Bool
dry_run none = false
dry_run (some an) = an.dry_run

abbrev pub rolls_back : Option PromotionAnalysis → Bool
rolls_back none = false
rolls_back (some an) = str_eq an.on_failure "Rollback"

-- `p.Soak != nil && p.Soak.Duration > 0`, with the duration; 0 otherwise.
abbrev pub soak_length : StagePromotion → ℕ
soak_length p = elim p.soak [ some (pos d) ↦ d | _ ↦ 0 ]

abbrev pub is_past_soak : Option PromotionState → Bool
is_past_soak none = false
is_past_soak (some s) = past_soak s.phase

pub soak_since : Option PromotionState → ℕ → ℕ → ℕ
soak_since none length now = now
soak_since (some s) length now = elim s.soak_until [
  | some u ↦ u - length
  | none ↦ if same_phase s.phase soaking then get_or_else now s.since else now
]

pub fast_tracked : StagePromotion → Pass → ℕ → Bool
unfolding fast_track_after
fast_tracked p x since = elim p.fast_track [
  | none ↦ false
  | some after ↦ x.fast_track_ok && not (ltb x.now (add_duration since (fast_track_after after)))
]

abbrev pub is_promoted : Option PromotionState → Bool
is_promoted none = false
is_promoted (some s) = same_phase s.phase promoted

module _ (stage : String) (p : StagePromotion) (prior : StageStatus) (x : Pass) where
  abbrev pub hold : PromotionState → ℤ → Bool → Outcome
  hold s requeue rollback = record {
    advances = false;
    state = some s;
    requeue = requeue;
    handled = prior.last_handled_promotion;
    rollback = rollback;
  }

  abbrev pub promote : PromotionState → String → Outcome
  promote s handled = record {
    advances = true;
    state = some s;
    requeue = pos 0;
    handled = handled;
    rollback = false;
  }

  -- The manual gate, and the promotion.
  pub gate_manual : Option PromotionState → Analysed → Outcome
  gate_manual current a =
      let since : ℕ = elim current [
        | none ↦ x.now
        | some s ↦ if same_phase s.phase awaiting_manual then get_or_else x.now s.since else x.now
      ] in
      if p.require_manual_promotion
      then hold (with_analysis a (in_phase awaiting_manual (some since))) x.retry_interval false
      else promote (with_analysis a (in_phase promoted (some x.now))) prior.last_handled_promotion

  -- After the soak: a present analysis must pass.
  pub gate_analysis : Bool → Analysed → Outcome
  unfolding gate_manual
  gate_analysis same a =
      if not a.passing && not (dry_run p.analysis)
      then hold
          (with_analysis a
            (in_phase analyzing (phase_since prior.promotion_state same analyzing x.now)))
          (analysis_interval x.retry_interval p.analysis) false
      else gate_manual (carried prior.promotion_state same) a

  -- The soak window.
  pub gate_soak : Bool → Analysed → Outcome
  gate_soak same a =
      let current = carried prior.promotion_state same in
      let since = soak_since current (soak_length p) x.now in
      let until = since + soak_length p in
      if ltb 0 (soak_length p) && not (is_past_soak current)
      then (if ltb x.now until && not (fast_tracked p x since)
          then hold
              (with_analysis a (record (in_phase soaking (some since)) { soak_until = some until }))
              (requeue_for_window until x.now x.retry_interval) false
          else gate_analysis same a)
      else gate_analysis same a

  -- An analysis that failed for good, then the soak.
  pub gate_failure : Bool → Analysed → Outcome
  gate_failure same a =
      if a.failed
      then hold
          (with_analysis a (
            carry_soak_until
              (in_phase blocked (phase_since prior.promotion_state same blocked x.now))
              prior.promotion_state same))
          (analysis_interval x.retry_interval p.analysis) (rolls_back p.analysis)
      else gate_soak same a

  -- The restart gate, the event gate, then the rest.
  pub gate_checks : Bool → Outcome
  gate_checks same =
      let stopped = in_phase blocked (phase_since prior.promotion_state same blocked x.now) in
      elim x.restart [
        | some r ↦
            hold
              (carry_soak_until
                (record stopped { restart_check = r.check; observed_restarts = r.observed })
                prior.promotion_state same)
              x.retry_interval r.rollback
        | none ↦ elim x.event [
          | some e ↦
              hold
                (carry_soak_until
                  (record stopped { event_check = e.check; observed_events = e.observed })
                  prior.promotion_state same)
                x.retry_interval e.rollback
          | none ↦
              gate_failure same (analyse p.analysis x.verdict (carried prior.promotion_state same))
        ]
      ]

  abbrev pub token : String
  token = promote_token_for x.annotation stage

  -- A token addressed to the stage that it has not handled.
  abbrev pub is_fresh : Bool
  is_fresh = not (str_eq token "") && not (str_eq token prior.last_handled_promotion)

  pub gate_stage : String → Outcome
  gate_stage revision =
      let same = str_eq prior.applied_revision revision in
      if is_promoted (carried prior.promotion_state same)
      then record {
        advances = true;
        state = prior.promotion_state;
        requeue = pos 0;
        handled = prior.last_handled_promotion;
        rollback = false;
      }
      else if is_fresh
      then promote (in_phase promoted (some x.now)) token
      else gate_checks same

unfoldable pub gate_promotion :
    String → Option StagePromotion → String → StageStatus → Pass → Outcome
gate_promotion stage none revision prior x = record {
  advances = true;
  state = none;
  requeue = pos 0;
  handled = prior.last_handled_promotion;
  rollback = false;
}
gate_promotion stage (some p) revision prior x = gate_stage stage p prior x revision
