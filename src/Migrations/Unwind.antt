-- ===== src/Migrations/Unwind.antt =====
-- internal/controller/migrations.go, planVersionMigrations and planDowngrade: when a plan lowers the
-- version, and what it then runs.
use stageset_controller.Prelude.{
  String, ◌≡◌, true, false, not, ◌&&◌, some, List, map, any, keep_if, Result, ok, sort_by,
}
use stageset_controller.Ladder.{Migration, Semver}
use stageset_controller.Ladder.Select.Exact.{targets, by_target}
use stageset_controller.Migrations.{
  AnchoredStage, VersionPolicy, MigrationPlan, PlanError, is_empty,
}

module _ {V : Type 0} (sv : Semver V) (policy : VersionPolicy) (stages : List AnchoredStage)
    (ladder : Result PlanError (List Migration)) where
  -- The migrations whose target is above the version `to` and not above `from`, highest target first.
  abbrev pub crossed : V → V → List Migration → List Migration
  crossed from to list =
      map (λ s. s.o)
        (sort_by (λ a b. by_target sv b a)
          (keep_if (λ s. sv.less_than to s.to && not (sv.less_than from s.to)) (targets sv list)))

  -- What a plan that lowers the version from the recorded one has been through.
  pub record Unwinds (current : String) (plan : MigrationPlan) : Type 0 where
    pub from : V
    pub to : V
    pub from_parsed : sv.new_version current ≡ some from
    pub to_parsed : sv.new_version plan.desired ≡ some to
    pub lowers : sv.less_than to from ≡ true
    pub allowed : policy.allow_downgrade ≡ true
    pub reversible : any (λ m. is_empty m.down) plan.pending ≡ false
    pub list : List Migration
    pub loaded : ladder ≡ ok list
    pub complete : plan.pending ≡ crossed from to list
