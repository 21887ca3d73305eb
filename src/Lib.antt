-- ===== src/Lib.antt =====
-- stageset-controller is a Kubernetes controller that rolls a release out stage by stage. A StageSet lists
-- stages; a pass of the reconciler resolves their sources, holds new revisions outside the update windows,
-- plans the migrations of a version transition, runs each stage's actions, applies its objects, and lets
-- the next stage start once the stage's promotion gate is met. A FleetRollout paces one version over many
-- StageSets, wave by wave, by the annotations that release their held transitions.
--
-- Window           internal/window/window.go: update windows, the aggregate decision and the next change.
-- Promotion        internal/controller/promotion.go: the gate of a stage, with the types of
--                  api/v1/stageset_types.go that it reads and what the stage loop records of it.
-- Ladder           internal/migrations/migrations.go: ValidateLadder, and in Ladder.Select the functions
--                  Explain, Select and SelectDown.
-- Actions          internal/actions/actions.go (Run and exec) and internal/controller/actionledger.go.
-- Metric           the thresholds of internal/metricsource/metricsource.go.
-- Fleet            internal/controller/fleetrollout_controller.go: the types and a wave's status; in
--                  Fleet.Rollout the pass over the waves, in Fleet.Reconcile the members and the guards.
-- Budget           internal/controller/errorbudget.go: the budget's verdict and its two gates.
-- Migrations       internal/controller/migrations.go and migration_approval.go: the plan of a version
--                  transition (planVersionMigrations), in Migrations.Source resolveMigrationLadder, and in
--                  Migrations.Run the run of a stage's migrations and its ledgers.
-- Lifetime         internal/actionplan/actionplan.go, EvaluateLifetimeGate, and dropCompletions of
--                  internal/controller/anchor.go: the gate of the Lifetime actions; in Lifetime.Records
--                  internal/controller/lifetimeledger.go: the StageLedger, its baseline and its completions.
-- Inventory        internal/inventory: ComputePlan (plan.go), PlanShards (shard.go), and in Inventory.Id
--                  ParseID (ref.go).
-- Deferral         internal/controller/windows.go: the gate of a pass at the update windows, over Window.
-- Checks           internal/controller/restartgate.go and eventgate.go: the restart and event checks of the
--                  promotion gate, and the restart baseline that the stage loop hands from pass to pass.
-- Admission        internal/controller/webhook.go: the types of a spec; in Admission.Stages ValidateStages,
--                  in Admission.Promotion the gates, budgets and metric sources, in Admission.Spec the rest
--                  and ValidateSpec.
-- Tokens           internal/controller/token.go: the token cache, with its critical sections as steps that
--                  interleave.
-- Preview          internal/actionplan/verdict.go and version.go: what a preview says of a stage's actions.
-- Rollback         internal/controller/rollback.go, and rollbackStageToSnapshot of analysis.go: the objects
--                  of a recorded revision, and the rollback of one stage and of all.
-- Stages           internal/controller/stageset_controller.go: the records of status.stages; in Stages.Pass
--                  the body of the stage loop, over Actions.run and the promotion gate, and in Stages.Loop
--                  the loop, its exits and what each writes to the status.
-- Prelude          numbers, lists, results and sorting that the parts share.
--
-- A function keeps its Go name, in snake_case. A method that patches an object returns what it writes: a
-- pass of a fleet rollout gives the new status and the list of patches, the promotion gate gives the new
-- state of the stage, and a run of actions gives the names that it records. Messages, events and metrics
-- are left out, but for those of the baseline (Lifetime.Records); an error is a constructor that names
-- the cause.
--
-- An instant is a natural number of nanoseconds, with 0 for the zero time of Go, and a duration is an
-- integer. The API server keeps an instant in whole seconds: the records of a promotion gate and the
-- deadlines of a fleet's waves are cut to the second between passes (to_second of Prelude.Time), the other
-- stored instants keep their nanoseconds. An int32 counter wraps. The walk of a recurring window to its
-- last start has the source's bound of 10000 starts, and the walk of Decision to the next change its bound of 2n + 2 boundaries for n windows; no other fuel
-- is used but the number of entries for the loop of PlanShards, each turn of which takes one or more.
--
-- Parameters stand for code outside the repository: the cron library and the time zones (Window.Cron;
-- Window.Boundary.HaveCalendars is what the library documents of schedules other than @every), the
-- semver library (Ladder.Semver), floating point numbers (Metric.Floats), label selectors and the reads of
-- the API server (Fleet.Reconcile.Cluster, Checks.Target), the CEL compiler (Admission.Libraries), and the
-- dispatch of a single action (Actions.Dispatcher), and the list of conditions of k8s.io/apimachinery
-- (Lifetime.Records.Conditions). A rollback takes the steps that it shares with the forward apply as
-- operations (Rollback.Machinery): fetch, build, apply, and verifyStageImages, which gives the objects with
-- their images pinned. The promotion gate takes the verdict of the analysis as it was computed.
--
-- The other steps of a stage of the loop are the operations of Stages.Outside, on a state that each step
-- hands to the next: the connection, fetch and build, apply, inventory, readiness, the reads of the gates
-- and a rollback (whose parts Checks and Rollback model apart), and also the budget's verdict, the Lifetime
-- gate and the run of the migrations, which Budget, Lifetime and Migrations.Run model apart. A write of the status is taken to succeed, and
-- rollbackOnFailure, which changes only conditions of the status, stands in Rollback, apart from the loop.
--
-- Not modelled: the storage of inventories, the version that a source offers, the store of rollbacks, and
-- the parts that mainly call Kubernetes and Flux (fetching, building, applying, decryption, image verification, the image policy webhook, the command line tools).
pub mod Prelude
pub mod Window
pub mod Promotion
pub mod Ladder
pub mod Metric
pub mod Fleet
pub mod Actions
pub mod Budget
pub mod Migrations
pub mod Deferral
pub mod Tokens
pub mod Checks
pub mod Admission
pub mod Stages
pub mod Rollback
pub mod Inventory
pub mod Lifetime
pub mod Preview
