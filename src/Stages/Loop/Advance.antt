-- ===== src/Stages/Loop/Advance.antt =====
-- internal/controller/stageset_controller.go, the body of the stage loop: what the entry of a stage is,
-- and what a stage that advances has been through in the pass.
use stageset_controller.Prelude.{
  String, str_eq, str_eq_iff, ◌≡◌, refl, inl, inr, Bool, true, false, not, ◌&&◌, Option, none, some,
  arith, if◌then◌else◌, Bool-cases, Option-cases, is_some,
}
use stageset_controller.Actions.{ActionLedger}
use stageset_controller.Promotion.{Outcome}
use stageset_controller.Stages.{
  Stage, StageStatus, index_of, rollback_aborted, failed_status, progressing_status,
  interrupted_status, stamp, start_ledger, prior_of,
}
use stageset_controller.Stages.Merge.{index_of-name}
use stageset_controller.Stages.Outside.{
  StageEnd, Outside, Request, StageOutcome, Revert, reverted, not_reverted, revert_failed,
  GateReads, reads, reads_denied, reads_unevaluable, VerifyResult, verified_ok, deleted,
  progressing, verify_failed, BudgetGate, budget_spec_error, budget_hold, budget_enter, Op,
  hold_for_progress, verify, apply, record_inventory, pre_action, connect_to_target,
  invalidate_lifetime, migration,
}
use stageset_controller.Stages.Pass.{
  fail_stage, fail_after, interrupt, judged_status, settle_gate, judge, post_actions, apply_stage,
  pre_actions, enter_stage, run_stage, settle_revert, judge_reads, after_verify, after_prepare,
  after_budget, enters_new_revision, gate_outcome, run_actions, led_after,
}

-- A predicate that both branches of a test have.
holds-if {ℓ κ} :
    {A : Type ℓ} (P : A → Type κ) (b : Bool) (x y : A) → P x → P y → P (if b then x else y)
holds-if P true x y p q = p
holds-if P false x y p q = q

module _ {W : Type 0} (o : Outside W) (r : Request) (s : Stage) (revision : String) where
  -- The entry, if there is one, is the stage's.
  abbrev pub IsNamed : Option StageStatus → Type 0
  IsNamed none = Unit
  IsNamed (some e) = e.name ≡ s.name

  pub record Named (out : StageOutcome W) : Type 0 where
    pub is_named : IsNamed out.entry

  at_once :
      (e : StageEnd) (s1 : StageStatus) (w : W)
      → s1.name ≡ s.name
      → Named (record { end = e; entry = some s1; state = w })
  at_once e s1 w h = record { is_named = h }

  fail_after-Named :
      (op : Op) (led : ActionLedger) (w : W) → Named (fail_after o r s revision op led w)
  unfolding fail_after failed_status stamp
  fail_after-Named op led w = record { is_named = refl }

  fail_stage-Named :
      (op : Op) (led : ActionLedger) (w : W) → Named (fail_stage o r s revision op led w)
  unfolding failed_status stamp
  fail_stage-Named op led w = record { is_named = refl }

  settle_revert-Named :
      (g : Outcome) (freeze : Bool) (led : ActionLedger) (v : Revert) (w : W)
      → Named (settle_revert o r s revision g freeze led v w)
  unfolding settle_revert interrupt judged_status stamp interrupted_status
  settle_revert-Named g freeze led revert_failed w = record { is_named = refl }
  settle_revert-Named g freeze led not_reverted w = record { is_named = refl }
  settle_revert-Named g freeze led (reverted rev) w = record { is_named = refl }

  settle_gate-Named :
      (g : Outcome) (freeze : Bool) (led : ActionLedger) (w : W)
      → Named (settle_gate o r s revision g freeze led w)
  unfolding settle_gate judged_status stamp
  settle_gate-Named g freeze led w =
      holds-if Named g.rollback _ _
        (settle_revert-Named g freeze led (o.revert s w).0 (o.revert s w).1)
        (record { is_named = refl })

  judge_reads-Named :
      (freeze : Bool) (led : ActionLedger) (w : W) (v : GateReads)
      → Named (judge_reads o r s revision freeze led w v)
  unfolding judge_reads interrupt interrupted_status stamp
  judge_reads-Named freeze led w reads_denied = record { is_named = refl }
  judge_reads-Named freeze led w reads_unevaluable = record { is_named = refl }
  judge_reads-Named freeze led w (reads v f c e) =
      settle_gate-Named (gate_outcome o r s revision v f c e) freeze led w

  post_actions-Named :
      (freeze : Bool) (led : ActionLedger) (w : W)
      → Named (post_actions o r s revision freeze led w)
  unfolding post_actions judge
  post_actions-Named freeze led w =
      holds-if Named _ _ _ (fail_after-Named _ _ _)
        (judge_reads-Named freeze (led_after o r s revision s.post led w) _ _)

  after_verify-Named :
      (freeze : Bool) (led : ActionLedger) (v : VerifyResult) (w : W)
      → Named (after_verify o r s revision freeze led v w)
  unfolding after_verify progressing_status stamp
  after_verify-Named freeze led verified_ok w = post_actions-Named freeze led w
  after_verify-Named freeze led deleted w = record { is_named = tt }
  after_verify-Named freeze led verify_failed w = fail_after-Named _ led w
  after_verify-Named freeze led progressing w =
      holds-if Named (str_eq s.on_timeout "Rollback") _ _ (fail_after-Named verify led w)
        (at_once hold_for_progress (progressing_status s.name revision led) w refl)

  apply_stage-Named :
      (freeze : Bool) (led : ActionLedger) (w : W) → Named (apply_stage o r s revision freeze led w)
  unfolding apply_stage
  apply_stage-Named freeze led w =
      let (ok1, w1) = o.apply_objects s w in
      let (ok2, w2) = o.write_inventory s w1 in
      let (v, w3) = o.verify_stage s w2 in
      holds-if Named (not ok1) _ _ (fail_after-Named apply led w1) (
        holds-if Named (not ok2) _ _ (fail_after-Named record_inventory led w2)
          (after_verify-Named freeze led v w3))

  after_prepare-Named :
      (freeze : Bool) (led : ActionLedger) (w : W) (p : Option Op)
      → Named (after_prepare o r s revision freeze led w p)
  unfolding after_prepare failed_status stamp
  after_prepare-Named freeze led w none = apply_stage-Named freeze led w
  after_prepare-Named freeze led w (some op) = record { is_named = refl }

  pre_actions-Named :
      (freeze : Bool) (led : ActionLedger) (w : W) → Named (pre_actions o r s revision freeze led w)
  unfolding pre_actions failed_status stamp
  pre_actions-Named freeze led w =
      let ran = run_actions o r s revision s.pre led w in
      holds-if Named (is_some ran.error) _ _
        (fail_stage-Named pre_action (led_after o r s revision s.pre led w) ran.state)
        (after_prepare-Named freeze (led_after o r s revision s.pre led w) ran.state
          (o.prepare s ran.state))

  enter_stage-Named :
      (freeze : Bool) (led : ActionLedger) (w : W) → Named (enter_stage o r s revision freeze led w)
  unfolding enter_stage failed_status stamp
  enter_stage-Named freeze led w =
      let led' : ActionLedger = record led { lifetime_done = o.lifetime_done s w } in
      let (stored, w1) = o.invalidate s w in
      let (migrated, w2) = o.migrate s w1 in
      holds-if Named (not (o.connects s w)) _ _ (fail_stage-Named connect_to_target led w) (
        holds-if Named (not stored) _ _ (fail_stage-Named invalidate_lifetime led' w1) (
          holds-if Named (not migrated) _ _ (fail_stage-Named migration led' w2)
            (pre_actions-Named freeze led' w2)))

  after_budget-Named :
      (led : ActionLedger) (w : W) (b : BudgetGate) → Named (after_budget o r s revision led w b)
  unfolding after_budget
  after_budget-Named led w budget_spec_error = record { is_named = tt }
  after_budget-Named led w (budget_hold freeze) = record { is_named = refl }
  after_budget-Named led w (budget_enter freeze) = enter_stage-Named freeze led w

  prior-name : is_some (index_of s.name r.prior) ≡ true → (prior_of s.name r.prior).name ≡ s.name
  prior-name h = elim (Option-cases (index_of s.name r.prior)) [
    | inl e ↦ ground (arith, e, h)
    | inr (p, e) ↦ rw (e) ((str_eq_iff p.name s.name).0 (index_of-name s.name r.prior p e))
  ]

  pub run_stage-Named : (w : W) → Named (run_stage o r s revision w)
  unfolding run_stage
  run_stage-Named w =
      elim (Bool-cases (
        is_some (index_of s.name r.prior)
        && rollback_aborted r.promote s (prior_of s.name r.prior) revision)) [
          | inl e ↦ rw (e) (record { is_named = prior-name (ground (arith, e)) })
          | inr e ↦ rw (e) (
              holds-if Named (enters_new_revision o r s revision) _ _
                (after_budget-Named (start_ledger r.plan s revision r.prior) w
                  (o.gate_budget s (prior_of s.name r.prior) w))
                (enter_stage-Named false (start_ledger r.plan s revision r.prior) w))
        ]
