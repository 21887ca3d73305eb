-- ===== src/Promotion/Gate/Conditions.antt =====
-- internal/controller/promotion.go, gatePromotion: exactly when a stage advances.
use stageset_controller.Prelude.{
  ◌+◌, ◌≤◌, String, str_eq, ◌≡◌, ◌↔◌, ◌⊎◌, Bool, true, false, Option, none, some, arith,
}
use stageset_controller.Promotion.{PromotionState, StagePromotion, StageStatus, Pass, carried}
use stageset_controller.Promotion.Gate.{
  Analysed, analyse, dry_run, soak_length, is_past_soak, soak_since, fast_tracked, gate_analysis,
  gate_soak, gate_failure, gate_checks, gate_stage, gate_promotion, is_promoted, is_fresh,
}

-- The soak is over: there is none, a later phase was reached, its time is up, or it was cut short.
abbrev pub SoakDone : StagePromotion → Option PromotionState → Pass → Type 0
SoakDone p current x =
    let since = soak_since current (soak_length p) x.now in
    (soak_length p ≡ 0)
    ⊎ (is_past_soak current ≡ true)
    ⊎ (since + soak_length p ≤ x.now)
    ⊎ (fast_tracked p x since ≡ true)

-- Nothing holds the stage any more.
pub record Cleared (p : StagePromotion) (current : Option PromotionState) (x : Pass) : Type 0 where
  pub no_restarts : x.restart ≡ none
  pub no_events : x.event ≡ none
  pub not_failed : (analyse p.analysis x.verdict current).failed ≡ false
  pub soaked : SoakDone p current x
  pub analysed :
      ((analyse p.analysis x.verdict current).passing ≡ true) ⊎ (dry_run p.analysis ≡ true)
  pub automatic : p.require_manual_promotion ≡ false

-- The ways for a stage with a gate to advance.
abbrev pub MayAdvance : String → StagePromotion → String → StageStatus → Pass → Type 0
MayAdvance stage p revision prior x =
    let current = carried prior.promotion_state (str_eq prior.applied_revision revision) in
    (is_promoted current ≡ true) ⊎ (is_fresh stage p prior x ≡ true) ⊎ Cleared p current x

module _ (stage : String) (p : StagePromotion) (prior : StageStatus) (x : Pass) where
  gate_soak_iff :
      (same : Bool) (a : Analysed)
      → ((gate_soak stage p prior x same a).advances ≡ true) ↔ (
          SoakDone p (carried prior.promotion_state same) x
          × ((a.passing ≡ true) ⊎ (dry_run p.analysis ≡ true))
          × (p.require_manual_promotion ≡ false))
  unfolding gate_soak gate_analysis
  gate_soak_iff same a = (λ h. (ground arith, ground arith, ground arith), λ h. ground arith)

  gate_checks_iff :
      (same : Bool)
      → ((gate_checks stage p prior x same).advances ≡ true)
        ↔ Cleared p (carried prior.promotion_state same) x
  unfolding gate_checks gate_failure
  gate_checks_iff same =
      let (to, from) =
        gate_soak_iff same (analyse p.analysis x.verdict (carried prior.promotion_state same)) in
      (λ h. ground (arith, to), λ h. ground (arith, from (h.soaked, h.analysed, h.automatic)))

  gate_stage_iff :
      (revision : String)
      → ((gate_stage stage p prior x revision).advances ≡ true)
        ↔ MayAdvance stage p revision prior x
  unfolding gate_stage
  gate_stage_iff revision =
      let (to, from) = gate_checks_iff (str_eq prior.applied_revision revision) in
      (λ h. ground (arith, to), λ h. ground (arith, from))

-- A stage with a gate advances exactly when it was already promoted at this revision, when an operator
-- promotes it by a fresh token, or when nothing holds it: no restart or event check is over its
-- limit, the analysis has not failed for good, the soak is over, the analysis passes or is a dry
-- run, and no manual promotion is required.
pub gate_promotion_iff :
    (stage : String) (p : StagePromotion) (revision : String) (prior : StageStatus) (x : Pass)
    → ((gate_promotion stage (some p) revision prior x).advances ≡ true)
      ↔ MayAdvance stage p revision prior x
unfolding gate_promotion
gate_promotion_iff stage p revision prior x = gate_stage_iff stage p prior x revision
