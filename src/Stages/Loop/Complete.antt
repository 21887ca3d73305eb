-- ===== src/Stages/Loop/Complete.antt =====
-- internal/controller/stageset_controller.go, the body of the stage loop: a stage advances only behind
-- all of its steps, in their order.
use stageset_controller.Prelude.{
  String, ◌≡◌, refl, inl, inr, Bool, true, false, ◌&&◌, none, arith, Bool-cases, Option-cases,
  is_some,
}
use stageset_controller.Actions.{ActionLedger}
use stageset_controller.Promotion.{Outcome}
use stageset_controller.Stages.{Stage, index_of, rollback_aborted, start_ledger, prior_of}
use stageset_controller.Stages.Outside.{
  advanced, Outside, Request, GateReads, reads, reads_denied, reads_unevaluable, VerifyResult,
  verified_ok, BudgetGate, budget_spec_error, budget_hold, budget_enter,
}
use stageset_controller.Stages.Pass.{
  fail_after, interrupt, settle_gate, judge, post_actions, apply_stage, pre_actions, enter_stage,
  run_stage, settle_revert, judge_reads, after_verify, after_prepare, after_budget,
  enters_new_revision, gate_outcome, run_actions, led_after,
}

module _ {W : Type 0} (o : Outside W) (r : Request) (s : Stage) (revision : String) where
  settle_gate-advanced :
      (g : Outcome) (freeze : Bool) (led : ActionLedger) (w : W)
      → (settle_gate o r s revision g freeze led w).end ≡ advanced
      → g.advances ≡ true
  unfolding settle_gate settle_revert interrupt
  settle_gate-advanced g freeze led w h = ground (arith, h)

  -- The gate's checks could be read, and the gate advances on them.
  abbrev pub GateAdvances : GateReads → Type 0
  GateAdvances reads_denied = ⊥
  GateAdvances reads_unevaluable = ⊥
  GateAdvances (reads v f c e) = (gate_outcome o r s revision v f c e).advances ≡ true

  judge_reads-advanced :
      (freeze : Bool) (led : ActionLedger) (w : W) (v : GateReads)
      → (judge_reads o r s revision freeze led w v).end ≡ advanced
      → GateAdvances v
  unfolding judge_reads interrupt
  judge_reads-advanced freeze led w reads_denied h = ground (arith, h)
  judge_reads-advanced freeze led w reads_unevaluable h = ground (arith, h)
  judge_reads-advanced freeze led w (reads v f c e) h =
      settle_gate-advanced (gate_outcome o r s revision v f c e) freeze led w h

  post_actions-advanced :
      (freeze : Bool) (led : ActionLedger) (w : W)
      → (post_actions o r s revision freeze led w).end ≡ advanced
      → ((run_actions o r s revision s.post led w).error ≡ none)
        × GateAdvances (o.read_gate s (run_actions o r s revision s.post led w).state)
  unfolding post_actions judge fail_after
  post_actions-advanced freeze led w h =
      elim (Option-cases (run_actions o r s revision s.post led w).error) [
        | inl e ↦ (
          e,
          judge_reads-advanced freeze (led_after o r s revision s.post led w)
              (run_actions o r s revision s.post led w).state
              (o.read_gate s (run_actions o r s revision s.post led w).state)
              (ground (arith, e, h)),
        )
        | inr (x, e) ↦ ground (arith, e, h)
      ]

  after_verify-advanced :
      (freeze : Bool) (led : ActionLedger) (v : VerifyResult) (w : W)
      → (after_verify o r s revision freeze led v w).end ≡ advanced
      → (v ≡ verified_ok) × ((post_actions o r s revision freeze led w).end ≡ advanced)
  unfolding after_verify fail_after
  after_verify-advanced freeze led v w h = ground (arith, h)

  -- From the apply on: the objects and the inventory are written, the stage is ready, its post-actions
  -- ran, and the gate advances.
  abbrev pub Applied : ActionLedger → W → Type 0
  Applied led w =
      let (ok1, w1) = o.apply_objects s w in
      let (ok2, w2) = o.write_inventory s w1 in
      let (v, w3) = o.verify_stage s w2 in
      let ran = run_actions o r s revision s.post led w3 in
      (ok1 ≡ true)
      × (ok2 ≡ true)
      × (v ≡ verified_ok)
      × (ran.error ≡ none)
      × GateAdvances (o.read_gate s ran.state)

  apply_stage-advanced :
      (freeze : Bool) (led : ActionLedger) (w : W)
      → (apply_stage o r s revision freeze led w).end ≡ advanced
      → Applied led w
  unfolding apply_stage fail_after
  apply_stage-advanced freeze led w h =
      let (ok1, w1) = o.apply_objects s w in
      let (ok2, w2) = o.write_inventory s w1 in
      let (v, w3) = o.verify_stage s w2 in
      let b : (ok1 ≡ true)
          × (ok2 ≡ true)
          × ((after_verify o r s revision freeze led v w3).end ≡ advanced) =
        ground (arith, h) in
      let c = after_verify-advanced freeze led v w3 b.2 in
      let d = post_actions-advanced freeze led w3 c.1 in (b.0, b.1, c.0, d.0, d.1)

  -- From the connection on: the Lifetime ledger and the migrations, the pre-actions, and the build.
  abbrev pub Completed : ActionLedger → W → Type 0
  Completed led w =
      let led' : ActionLedger = record led { lifetime_done = o.lifetime_done s w } in
      let (stored, w1) = o.invalidate s w in
      let (migrated, w2) = o.migrate s w1 in
      let ran = run_actions o r s revision s.pre led' w2 in
      (o.connects s w ≡ true)
      × (stored ≡ true)
      × (migrated ≡ true)
      × (ran.error ≡ none)
      × (o.prepare s ran.state ≡ none)
      × Applied (led_after o r s revision s.pre led' w2) ran.state

  pre_actions-advanced :
      (freeze : Bool) (led : ActionLedger) (w : W)
      → (pre_actions o r s revision freeze led w).end ≡ advanced
      → let ran = run_actions o r s revision s.pre led w in
        (ran.error ≡ none)
        × (o.prepare s ran.state ≡ none)
        × Applied (led_after o r s revision s.pre led w) ran.state
  unfolding pre_actions after_prepare
  pre_actions-advanced freeze led w h =
      let ran = run_actions o r s revision s.pre led w in
      elim (Option-cases ran.error) [
        | inr (x, e) ↦ ground (arith, e, h)
        | inl e ↦ elim (Option-cases (o.prepare s ran.state)) [
          | inr (op, p) ↦ ground (arith, e, p, h)
          | inl p ↦ (
            e,
            p,
            apply_stage-advanced freeze (led_after o r s revision s.pre led w) ran.state
                (ground (arith, e, p, h)),
          )
        ]
      ]

  enter_stage-advanced :
      (freeze : Bool) (led : ActionLedger) (w : W)
      → (enter_stage o r s revision freeze led w).end ≡ advanced
      → Completed led w
  unfolding enter_stage
  enter_stage-advanced freeze led w h =
      let led' : ActionLedger = record led { lifetime_done = o.lifetime_done s w } in
      let (stored, w1) = o.invalidate s w in
      let (migrated, w2) = o.migrate s w1 in
      let b : (o.connects s w ≡ true)
          × (stored ≡ true)
          × (migrated ≡ true)
          × ((pre_actions o r s revision freeze led' w2).end ≡ advanced) =
        ground (arith, h) in
      let c = pre_actions-advanced freeze led' w2 b.3 in (b.0, b.1, b.2, c.0, c.1, c.2)

  after_budget-advanced :
      (led : ActionLedger) (w : W) (b : BudgetGate)
      → (after_budget o r s revision led w b).end ≡ advanced
      → ((f : Bool) × (b ≡ budget_enter f)) × Completed led w
  unfolding after_budget
  after_budget-advanced led w budget_spec_error h = ground (arith, h)
  after_budget-advanced led w (budget_hold f) h = ground (arith, h)
  after_budget-advanced led w (budget_enter f) h = ((f, refl), enter_stage-advanced f led w h)

  -- A stage advances only where no aborted revision parks it, where its error budget, if it is consulted,
  -- lets the revision in, and where every step of the pass succeeded on the state that the one before left.
  pub stage_advances_behind_every_step :
      (w : W)
      → (run_stage o r s revision w).end ≡ advanced
      → let old = prior_of s.name r.prior in
        (is_some (index_of s.name r.prior) && rollback_aborted r.promote s old revision ≡ false)
        × (enters_new_revision o r s revision ≡ true
            → (f : Bool) × (o.gate_budget s old w ≡ budget_enter f))
        × Completed (start_ledger r.plan s revision r.prior) w
  unfolding run_stage
  stage_advances_behind_every_step w h =
      let old = prior_of s.name r.prior in
      let led = start_ledger r.plan s revision r.prior in
      elim (Bool-cases
        (is_some (index_of s.name r.prior) && rollback_aborted r.promote s old revision)) [
          | inl e ↦ ground (arith, e, h)
          | inr e ↦ elim (Bool-cases (enters_new_revision o r s revision)) [
            | inl n ↦
                let a =
                  after_budget-advanced led w (o.gate_budget s old w) (ground (arith, e, n, h)) in
                (e, λ _. a.0, a.1)
            | inr n ↦ (
              e,
              λ k. ground (arith, n, k),
              enter_stage-advanced false led w (ground (arith, e, n, h)),
            )
          ]
        ]
