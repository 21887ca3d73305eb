-- ===== src/Migrations/Run.antt =====
-- internal/controller/migrations.go, runStageMigrations and runStageDowngrades: the migrations of a stage
-- are run against the ledgers of status.executedMigrations and executedMigrationActions.
mod Resume
mod Tests
use stageset_controller.Prelude.{
  ◌/◌, String, str_eq, Bool, true, false, not, ◌&&◌, Option, none, some, List, [], ◌∷◌, ◌++◌, map,
  if◌then◌else◌, is_some, keep_if, contains, cut, cut_prefix,
}
use Prim.Native.String.{◌++◌ as str_append}
use stageset_controller.Ladder.{Action, Migration}
use stageset_controller.Actions.{Dispatcher, RunError, RunOutcome, run}
use stageset_controller.Migrations.{MigrationPlan, for_stage}

pub record MigrationLedger : Type 0 where
  pub executed : List String
  pub actions : List String

-- migEntryName
unfoldable pub mig_entry_name : String → String
mig_entry_name key = elim (cut b'@' key) [ some (before, after) ↦ before | none ↦ key ]

-- The key of an entry: of an action's, the part before its first "/".
unfoldable pub entry_key : Bool → String → String
entry_key false e = e
entry_key true e = elim (cut b'/' e) [ some (before, after) ↦ before | none ↦ e ]

-- dropSupersededLedger
unfoldable pub drop_superseded : List String → String → String → Bool → List String
unfolding mig_entry_name entry_key
drop_superseded entries name keep action =
    keep_if
      (λ e. not (
        str_eq (mig_entry_name (entry_key action e)) name
        && not (str_eq (entry_key action e) keep)))
      entries

unfoldable pub prune_superseded : String → String → MigrationLedger → MigrationLedger
unfolding drop_superseded
prune_superseded name keep l = record {
  executed = drop_superseded l.executed name keep false;
  actions = drop_superseded l.actions name keep true;
}

-- actionsDoneFor: the action names of the entries behind the key.
unfoldable pub actions_done_for : List String → String → List String
actions_done_for [] key = []
actions_done_for (e ∷ ledger) key =
    let rest = actions_done_for ledger key in
    elim (cut_prefix (str_append key "/") e) [ some after ↦ after ∷ rest | none ↦ rest ]

-- The entry of a completed action.
abbrev pub action_entry : String → String → String
action_entry key name = str_append (str_append key "/") name

-- What a stage's migrations leave: the error, the ledger and the state.
pub record Migrated (W : Type 0) : Type 0 where
  pub error : Option RunError
  pub ledger : MigrationLedger
  pub state : W

abbrev pub with_recorded : String → List String → MigrationLedger → MigrationLedger
with_recorded key names l = record l { actions = l.actions ++ map (action_entry key) names }

abbrev completed : String → MigrationLedger → MigrationLedger
completed key l = record l { executed = l.executed ++ (key ∷ []) }

-- migrationKey, for the digest of its content.
abbrev pub migration_key : (Migration → String) → Migration → String
migration_key digest m = str_append m.name (str_append "@" (digest m))

module _ {W : Type 0} (d : Dispatcher W) where
  -- executor.Run over the ledger of a key. Appending to the ledger never fails.
  abbrev pub run_recorded : String → List Action → MigrationLedger → W → RunOutcome d
  run_recorded key acts l w = run d (λ n. true) (actions_done_for l.actions key) acts w

module _ {W : Type 0} (d : Dispatcher W) (digest : Migration → String) where
  -- The loop of runStageMigrations, with the keys that are done.
  unfoldable pub run_migrations : List String → List Migration → MigrationLedger → W → Migrated W
  unfolding run actions_done_for prune_superseded
  run_migrations done [] l w = record { error = none; ledger = l; state = w }
  run_migrations done (m ∷ ms) l w =
      let key = migration_key digest m in
      let ran = run_recorded d key m.actions l w in
      let l' = with_recorded key ran.recorded l in
      let skipped = run_migrations done ms l w in
      let rest =
        run_migrations (key ∷ done) ms (prune_superseded m.name key (completed key l')) ran.state in
      if contains key done
      then skipped
      else if is_some ran.error
      then record { error = ran.error; ledger = l'; state = ran.state }
      else rest

  -- The loop of runStageDowngrades.
  unfoldable pub run_downgrades : List String → List Migration → MigrationLedger → W → Migrated W
  unfolding run actions_done_for
  run_downgrades done [] l w = record { error = none; ledger = l; state = w }
  run_downgrades done (m ∷ ms) l w =
      let key = migration_key digest m in
      let down_key = str_append key "/down" in
      let ran = run_recorded d down_key m.down l w in
      let l' = with_recorded down_key ran.recorded l in
      let skipped = run_downgrades done ms l w in
      let rest = run_downgrades (key ∷ done) ms (completed key l') ran.state in
      if contains key done
      then skipped
      else if is_some ran.error
      then record { error = ran.error; ledger = l'; state = ran.state }
      else rest

  unfoldable pub run_stage_migrations : String → MigrationPlan → MigrationLedger → W → Migrated W
  unfolding run_migrations run_downgrades
  run_stage_migrations stage plan l w =
      if plan.baseline
      then record { error = none; ledger = l; state = w }
      else if plan.downgrade
      then run_downgrades l.executed (for_stage plan.by_stage stage) l w
      else run_migrations l.executed (for_stage plan.by_stage stage) l w
