-- ===== src/Migrations.antt =====
-- internal/controller/migrations.go and migration_approval.go: the plan of a version transition, the stages
-- that its migrations are anchored to, and whether it waits for an approval.
mod Anchors
mod Unwind
mod Source
mod Run
mod Tests
use stageset_controller.Prelude.{
  ℕ, String, str_eq, Bool, true, false, not, ◌&&◌, ◌||◌, none, some, List, [], ◌∷◌, ◌++◌, ltb, ◌==◌,
  if◌then◌else◌, get_or_else, length, any, lookup, Result, ◌>>=◌, ◌>>◌, ok, err,
}
use stageset_controller.Ladder.{Migration, Semver}
use stageset_controller.Ladder.Select.{SelectError, select, select_down}

-- What anchoring reads of a stage.
pub record AnchoredStage : Type 0 where
  pub name : String
  pub migration_anchor : String

pub data ApprovalMode : Type 0 where
  never always on_migrations : ApprovalMode

-- What planning reads of spec.version.
pub record VersionPolicy : Type 0 where
  pub allow_downgrade : Bool
  pub require_migration_coverage : Bool
  pub approval_mode : ApprovalMode

-- The reasons with which a plan is refused until the spec or its sources change.
pub data PlanReason : Type 0 where
  invalid_version downgrade_not_allowed downgrade_requires_migration migration_coverage_missing :
      PlanReason
  migration_stage_not_found invalid_spec migration_artifact_invalid rbac_denied resolve_failed :
      PlanReason
  migration_source_not_verified migration_source_not_pinned : PlanReason

-- A refusal, or a fault that the next pass may not meet.
pub data PlanError : Type 0 where
  refused : PlanReason → PlanError
  transient : PlanError

pub record MigrationPlan : Type 0 where
  pub version_set : Bool
  pub desired : String
  pub baseline : Bool
  pub downgrade : Bool
  pub pending : List Migration
  pub by_stage : List (String × List Migration)

-- The plan of a StageSet without spec.version.
abbrev pub no_version : MigrationPlan
no_version = record {
  version_set = false;
  desired = "";
  baseline = false;
  downgrade = false;
  pending = [];
  by_stage = [];
}

-- The stage of the first entry that a test accepts, or "".
unfoldable pub first_name : (AnchoredStage → Bool) → List AnchoredStage → String
first_name p [] = ""
first_name p (s ∷ ss) = let rest = first_name p ss in if p s then s.name else rest

-- The two loops of anchorStage: the first stage of that anchor, else the first of that name.
unfoldable pub anchor_stage : List AnchoredStage → String → String
unfolding first_name
anchor_stage [] anchor = ""
anchor_stage (s ∷ ss) anchor =
    if str_eq anchor ""
    then s.name
    else if any (λ x. str_eq x.migration_anchor anchor) (s ∷ ss)
    then first_name (λ x. str_eq x.migration_anchor anchor) (s ∷ ss)
    else first_name (λ x. str_eq x.name anchor) (s ∷ ss)

-- plan.byStage[stage] = append(plan.byStage[stage], m)
unfoldable pub append_at :
    String → Migration → List (String × List Migration) → List (String × List Migration)
append_at stage m [] = (stage, m ∷ []) ∷ []
append_at stage m ((s, ms) ∷ rest) =
    if str_eq s stage then (s, ms ++ (m ∷ [])) ∷ rest else (s, ms) ∷ append_at stage m rest

abbrev pub for_stage : List (String × List Migration) → String → List Migration
for_stage by_stage stage = get_or_else [] (lookup stage by_stage)

-- The loop of resolveAnchors, with the map so far.
unfoldable pub resolve_anchors :
    List AnchoredStage
    → List Migration
    → List (String × List Migration)
    → Result PlanError (List (String × List Migration))
unfolding anchor_stage append_at
resolve_anchors stages [] by_stage = ok by_stage
resolve_anchors stages (m ∷ ms) by_stage =
    let rest = resolve_anchors stages ms (append_at (anchor_stage stages m.stage) m by_stage) in
    if str_eq (anchor_stage stages m.stage) ""
    then err (refused migration_stage_not_found)
    else rest

abbrev pub is_empty {ℓ} : {A : Type ℓ} → List A → Bool
is_empty [] = true
is_empty (x ∷ xs) = false

-- versionApprovalNeeded
unfoldable pub version_approval_needed : ApprovalMode → MigrationPlan → String → Bool
version_approval_needed mode plan current =
    if not plan.version_set || plan.baseline then false else elim mode [
      | always ↦ not (str_eq plan.desired current)
      | on_migrations ↦ not (is_empty plan.pending)
      | never ↦ false
    ]

-- Whether the pass ends at the approval gate, for the approved-version annotation.
abbrev pub awaits_approval : ApprovalMode → MigrationPlan → String → String → Bool
awaits_approval mode plan current approved =
    version_approval_needed mode plan current && not (str_eq approved plan.desired)

module _ {V : Type 0} (sv : Semver V) where
  -- rollbackDirective, for the rollback-to annotation and status.version.
  unfoldable pub rollback_directive : String → String → String
  rollback_directive rb current =
      if str_eq rb "" || str_eq current "" then "" else elim (sv.new_version rb) [
        | none ↦ ""
        | some rb_v ↦ elim (sv.new_version current) [
          | none ↦ ""
          | some cur_v ↦ if sv.less_than rb_v cur_v then rb else ""
        ]
      ]

  unfoldable pub coverage_gap : Bool → V → V → ℕ → Bool
  coverage_gap require current desired pending =
      require && pending == 0 && ltb (sv.major current) (sv.major desired)

  module _ (policy : VersionPolicy) (stages : List AnchoredStage)
      (ladder : Result PlanError (List Migration)) where
    abbrev anchored : String → Bool → List Migration → Result PlanError MigrationPlan
    anchored desired downgrade pending = do
      by_stage ← resolve_anchors stages pending []
      ok (record {
        version_set = true;
        desired = desired;
        baseline = false;
        downgrade = downgrade;
        pending = pending;
        by_stage = by_stage;
      })

    abbrev pub or_invalid_version {ℓ} : {A : Type ℓ} → Result SelectError A → Result PlanError A
    or_invalid_version (ok a) = ok a
    or_invalid_version (err e) = err (refused invalid_version)

    unfoldable pub plan_downgrade : V → V → String → Result PlanError MigrationPlan
    unfolding resolve_anchors
    plan_downgrade current_v desired_v desired =
        if not policy.allow_downgrade then err (refused downgrade_not_allowed) else (do
          list ← ladder
          down ← or_invalid_version (select_down sv current_v desired_v list)
          (if any (λ m. is_empty m.down) down
              then err (refused downgrade_requires_migration)
              else anchored desired true down))

    unfoldable pub plan_upgrade : V → V → String → Result PlanError MigrationPlan
    unfolding resolve_anchors coverage_gap
    plan_upgrade current_v desired_v desired = do
      list ← ladder
      pending ← or_invalid_version (select sv current_v desired_v list)
      (if coverage_gap policy.require_migration_coverage current_v desired_v (length pending)
          then err (refused migration_coverage_missing)
          else anchored desired false pending)

    -- planVersionMigrations, where spec.version is set. `resolved` is the version that the source offers.
    unfoldable pub plan_version_migrations :
        Result PlanError String → String → String → Result PlanError MigrationPlan
    unfolding plan_downgrade plan_upgrade rollback_directive
    plan_version_migrations resolved current rb = do
      offered ← resolved
      let desired : String =
          if not (str_eq (rollback_directive rb current) "")
          then rollback_directive rb current
          else offered
      elim (sv.new_version desired) [
        | none ↦ err (refused invalid_version)
        | some desired_v ↦
            if str_eq current ""
            then ok (record {
              version_set = true;
              desired = desired;
              baseline = true;
              downgrade = false;
              pending = [];
              by_stage = [];
            })
            else elim (sv.new_version current) [
              | none ↦ err (refused invalid_version)
              | some current_v ↦
                  if sv.less_than desired_v current_v
                  then plan_downgrade current_v desired_v desired
                  else if not (sv.less_than current_v desired_v)
                  then ok (record {
                    version_set = true;
                    desired = desired;
                    baseline = false;
                    downgrade = false;
                    pending = [];
                    by_stage = [];
                  })
                  else plan_upgrade current_v desired_v desired
            ]
      ]
