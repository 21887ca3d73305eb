-- ===== src/Stages/Forget.antt =====
-- internal/controller/stageset_controller.go: what the record of a stage that ends a pass early holds,
-- and what the next pass makes of it.
use stageset_controller.Prelude.{
  String, str_eq, str_eq_iff, str_eq_refl, ◌≡◌, refl, ◌∙◌, ◌≢◌, ◌⊎◌, inl, inr, Bool, true, false,
  not, ◌&&◌, ◌||◌, none, some, List, [], ◌∷◌, ◌++◌, map, arith, Bool-cases, is_some,
}
use mathlib.Core.List.{append-nil}
use stageset_controller.Actions.{ActionLedger, done_set}
use stageset_controller.Promotion.{Pass, StagePromotion}
use stageset_controller.Promotion.Gate.{gate_promotion, is_fresh, token}
use stageset_controller.Promotion.Gate.Conditions.{gate_promotion_iff}
use stageset_controller.Promotion.Gate.Lifecycle.{handled_lem}
use stageset_controller.Stages.{
  Stage, StageStatus, PlannedVersion, index_of, failed_status, progressing_status, start_ledger,
  force_request, prior_stages, resets_scope, clear_forced, stamp, rollback_aborted, prior_of,
}
use stageset_controller.Stages.Merge.{index_of-merge_stage_statuses}
use stageset_controller.Stages.Outside.{
  Outside, Request, advanced, invalid_spec, budget_spec_error, StageEnd,
}
use stageset_controller.Stages.Pass.{
  run_stage, after_budget, enter_stage, gate_view, enters_new_revision,
}
use stageset_controller.Stages.Loop.{
  LoopOutcome, run_stages, Finish, Status, settle_loop, after_loop, complete_pass, fail_before_loop,
  names_of, pruned, prune_error, empty_ledger, Prune,
}
use stageset_controller.Stages.Loop.Order.{Advances, at_end, then_stage}

abbrev pub is_pruned : Prune → Bool
is_pruned pruned = true
is_pruned _ = false

module _ {W : Type 0} (f : Finish W) where
  -- The prune that follows a loop without an error.
  abbrev pub prune_of : LoopOutcome W → Prune
  prune_of l = f.prune (map (λ e. e.name) l.entries) l.state

  -- The ends that return no error: every stage has advanced, or the error budget of one is malformed.
  abbrev pub is_advanced : StageEnd → Bool
  is_advanced advanced = true
  is_advanced _ = false

  abbrev pub is_malformed : StageEnd → Bool
  is_malformed invalid_spec = true
  is_malformed _ = false

  abbrev pub succeeds : LoopOutcome W → Bool
  succeeds l = (is_advanced l.end || is_malformed l.end) && is_pruned (prune_of l)

  -- A prune that fails leaves the status as it was before the pass.
  pub failed_prune_forgets :
      (plan : PlannedVersion) (names : List String) (l : LoopOutcome W) (st : Status)
      → l.end ≡ advanced
      → prune_of l ≡ prune_error
      → settle_loop f plan names l st ≡ st
  unfolding settle_loop after_loop
  failed_prune_forgets plan names l st e p = ground (arith, e, p)

-- Whether the reset of a forced stage takes the entry of a name.
abbrev pub is_forced : String → String → Bool
is_forced stage name = not (str_eq stage "") && str_eq name stage

clear_forced-other :
    (stage : String) (s : StageStatus) → is_forced stage s.name ≡ false → clear_forced stage s ≡ s
clear_forced-other stage s k = rw k refl

clear_forced-name : (stage : String) (s : StageStatus) → (clear_forced stage s).name ≡ s.name
clear_forced-name stage s = ground arith

index_of-clear_forced :
    (stage name : String) (stages : List StageStatus)
    → is_forced stage name ≡ false
    → index_of name (map (clear_forced stage) stages) ≡ index_of name stages
unfolding index_of
index_of-clear_forced stage name [] k = refl
index_of-clear_forced stage name (s ∷ ss) k =
    let rest = index_of-clear_forced stage name ss k in
    let x = clear_forced stage s in
    elim (Bool-cases (str_eq s.name name)) [
      | inr n ↦ step s x (map (clear_forced stage) ss) rest (clear_forced-name stage s) (inr n)
      | inl y ↦
          let same : s.name ≡ name = (str_eq_iff s.name name).0 y in
          step s x (map (clear_forced stage) ss) rest (clear_forced-name stage s)
            (inl (clear_forced-other stage s (rw (same) k)))
    ]
  where
    step :
        (s x : StageStatus) (ys : List StageStatus)
        → index_of name ys ≡ index_of name ss
        → x.name ≡ s.name
        → (x ≡ s) ⊎ (str_eq s.name name ≡ false)
        → index_of name (x ∷ ys) ≡ index_of name (s ∷ ss)
    step s x ys rest e (inl same) = ground (arith, same, rest)
    step s x ys rest e (inr n) =
        let m : str_eq x.name name ≡ false = rw (e) n in ground (arith, m, n, rest)

index_of-prior_stages :
    (force reset handled : String) (stages : List StageStatus) (name : String)
    → is_forced (force_request force stages).0 name ≡ false
    → resets_scope reset handled ≡ false
    → index_of name (prior_stages force reset handled stages) ≡ index_of name stages
unfolding prior_stages
index_of-prior_stages force reset handled stages name k r =
    rw (r) (index_of-clear_forced (force_request force stages).0 name stages k)

-- The ledger that a failed stage's record carries is the one that the next pass starts from, where no new
-- reconcile-stage request names the stage and no new token resets the scopes.
module _ (plan : PlannedVersion) (s : Stage) (stages : List StageStatus) (led : ActionLedger) where
  pub failed_stage_resumes_ledger :
      (force reset handled : String)
      → index_of s.name stages ≡ some (failed_status s.name led)
      → is_forced (force_request force stages).0 s.name ≡ false
      → resets_scope reset handled ≡ false
      → plan.baseline ≡ false
      → let next = start_ledger plan s led.revision (prior_stages force reset handled stages) in
        (next.executed ≡ led.executed)
        × (plan.version_set ≡ true → led.version ≡ plan.desired → next.versioned ≡ led.versioned)
  unfolding start_ledger failed_status stamp
  failed_stage_resumes_ledger force reset handled i k r b =
      let e = index_of-prior_stages force reset handled stages s.name k r ∙ i in
      (
        rw (e, str_eq_refl led.revision),
        λ v k. rw (e, v, (str_eq_iff led.version plan.desired).1 k, b) (append-nil led.versioned),
      )

-- The entry that an exit before the loop writes for the first stage is looked up by its name.
index_of-fail_before_loop :
    (s : Stage) (revision : String) (rest : List (Stage × String)) (st : Status)
    → index_of s.name (fail_before_loop ((s, revision) ∷ rest) st).stages
      ≡ some (failed_status s.name empty_ledger)
unfolding fail_before_loop failed_status stamp index_of
index_of-fail_before_loop s revision rest st =
    let m =
      index_of-merge_stage_statuses st.stages (failed_status s.name empty_ledger ∷ []) s.name
        (s.name ∷ names_of rest) in
    m ∙ ground (arith, str_eq_refl s.name)

-- An exit before the loop leaves the first stage a record without a ledger, so that its next pass runs
-- every action again.
pub early_failure_forgets_ledger :
    (plan : PlannedVersion) (s : Stage) (revision : String) (rest : List (Stage × String))
    (st : Status)
    → revision ≢ ""
    → plan.baseline ≡ false
    → plan.desired ≢ ""
    → done_set (start_ledger plan s revision (fail_before_loop ((s, revision) ∷ rest) st).stages)
      ≡ []
unfolding start_ledger failed_status stamp done_set
early_failure_forgets_ledger plan s revision rest st n b d =
    let i = index_of-fail_before_loop s revision rest st in
    rw (i, b) (ground (arith, str_eq_iff "" revision, str_eq_iff "" plan.desired, n, d))

-- The record of a stage that a pass left while it was becoming ready handles no promote token: the next
-- pass that reaches the gate promotes by it, for any revision.
pub held_stage_promotes_again :
    (s : Stage) (p : StagePromotion) (left revision : String) (led : ActionLedger) (x : Pass)
    → token s.name p (gate_view (progressing_status s.name left led)) x ≢ ""
    → let view = gate_view (progressing_status s.name left led) in
      ((gate_promotion s.name (some p) revision view x).advances ≡ true)
      × ((gate_promotion s.name (some p) revision view x).handled ≡ token s.name p view x)
unfolding progressing_status stamp
held_stage_promotes_again s p left revision led x h =
    let view = gate_view (progressing_status s.name left led) in
    let t = token s.name p view x in
    let fresh : is_fresh s.name p view x ≡ true = ground (arith, str_eq_iff t "", h) in
    (
      (gate_promotion_iff s.name p revision view x).1 (inr (inl fresh)),
      handled_lem s.name p revision view x ∙ ground (arith, fresh),
    )

module _ {W : Type 0} (o : Outside W) (r : Request) (s : Stage) (revision : String) where
  -- Behind stages that advance, the loop goes on with the rest.
  run_stages-append :
      {before : List (Stage × String)} {es es' : List StageStatus} {w w' : W}
      (tail : List (Stage × String))
      → Advances o r before es w es' w'
      → run_stages o r (before ++ tail) es w ≡ run_stages o r tail es' w'
  unfolding run_stages
  run_stages-append tail at_end = refl
  run_stages-append tail (then_stage {s} {revision} {rest} {es} {es'} {w} {w'} a more) =
      rw (a) (run_stages-append tail more)

  -- The end of a stage whose error budget cannot be read.
  run_stage-malformed :
      (w : W)
      → is_some (index_of s.name r.prior)
          && rollback_aborted r.promote s (prior_of s.name r.prior) revision
        ≡ false
      → enters_new_revision o r s revision ≡ true
      → o.gate_budget s (prior_of s.name r.prior) w ≡ budget_spec_error
      → run_stage o r s revision w ≡ record { end = invalid_spec; entry = none; state = w }
  unfolding run_stage after_budget
  run_stage-malformed w i n g = rw (i, n, g)

  -- A stage that is not parked and consults an error budget with malformed thresholds ends the loop without
  -- an error: where a version is planned and the prune goes through, the pass writes that version, and the
  -- records of the stages before it only.
  pub malformed_budget_completes_pass :
      (f : Finish W) (before rest : List (Stage × String)) (names : List String) (st : Status)
      (es : List StageStatus) (w w' : W)
      → Advances o r before [] w es w'
      → is_some (index_of s.name r.prior)
          && rollback_aborted r.promote s (prior_of s.name r.prior) revision
        ≡ false
      → enters_new_revision o r s revision ≡ true
      → o.gate_budget s (prior_of s.name r.prior) w' ≡ budget_spec_error
      → r.plan.version_set ≡ true
      → f.prune (map (λ e. e.name) es) w' ≡ pruned
      → let st' =
          settle_loop f r.plan names (run_stages o r (before ++ ((s, revision) ∷ rest)) [] w) st in
        (st'.version ≡ r.plan.desired) × (st'.stages ≡ es)
  unfolding run_stages settle_loop after_loop complete_pass
  malformed_budget_completes_pass f before rest names st es w w' a i n g v p =
      rw (run_stages-append ((s, revision) ∷ rest) a)
        (rw (run_stage-malformed w' i n g) (ground (arith, v, p)))

  -- A stage that failed at a revision enters it at the next pass, whether or not it was applied, without
  -- its error budget being read.
  pub failed_revision_skips_budget :
      (led : ActionLedger) (w : W)
      → index_of s.name r.prior ≡ some (failed_status s.name led)
      → led.revision ≡ revision
      → run_stage o r s revision w
        ≡ enter_stage o r s revision false (start_ledger r.plan s revision r.prior) w
  unfolding run_stage failed_status stamp rollback_aborted
  failed_revision_skips_budget led w i e = rw (i, e, str_eq_refl revision) (ground arith)
