-- ===== src/Migrations/Run/Tests.antt =====
-- internal/controller/migrations.go on a migration whose second action fails. The state counts the
-- dispatches.
use stageset_controller.Prelude.{
  ℕ, ◌+◌, String, str_eq, ◌≡◌, refl, true, false, ◌&&◌, none, some, List, [], ◌∷◌, ◌++◌, ltb,
  if◌then◌else◌, cut, cut_prefix,
}
use stageset_controller.Ladder.{Action, Migration}
use stageset_controller.Actions.{transient, Dispatcher, attempt, exec, run}
use stageset_controller.Actions.Ledger.{pending, stopped_at}
use stageset_controller.Migrations.Run.{
  MigrationLedger, actions_done_for, migration_key, run_recorded, run_migrations, run_downgrades,
  run_stage_migrations, mig_entry_name, entry_key, drop_superseded, prune_superseded,
}
use stageset_controller.Migrations.Run.Resume.{failed_migration_resumes}

abbrev act : String → Action
act name = record {
  name = name;
  scope = "";
  retries = none;
  patch = true;
  http = false;
  wait = false;
  job = false;
  delete = false;
  apply = false;
  completion_anchor = none;
}

abbrev migration : String → Migration
migration name = record {
  name = name;
  to = "2";
  from = "";
  stage = "";
  actions = act "copy" ∷ act "drop" ∷ [];
  down = [];
}

abbrev dispatcher : Dispatcher ℕ
dispatcher = record {
  dispatch = λ a n. (if str_eq a.name "drop" && ltb n 2 then some transient else none, n + 1);
  is_done = λ n. false;
}

abbrev digest : Migration → String
digest m = "d1"

abbrev empty : MigrationLedger
empty = record { executed = []; actions = [] }

program : Unit {0}
unfolding run attempt exec cut cut_prefix mig_entry_name entry_key drop_superseded prune_superseded
    actions_done_for run_migrations run_downgrades run_stage_migrations
program = tt

abbrev convert : List Migration
convert = migration "convert" ∷ []

first_pass_fails :
    (run_migrations dispatcher digest [] convert empty 0).ledger
    ≡ record { executed = []; actions = "convert@d1/copy" ∷ [] }
unfolding program
first_pass_fails = refl

second_pass_completes :
    let l = (run_migrations dispatcher digest [] convert empty 0).ledger in
    (run_migrations dispatcher digest l.executed convert l 2).ledger
    ≡ record { executed = "convert@d1" ∷ []; actions = "convert@d1/copy" ∷ "convert@d1/drop" ∷ [] }
unfolding program
second_pass_completes = refl

-- Completing a migration drops the entries of one whose name continues its own behind an "@".
other_name_dropped :
    (run_migrations dispatcher digest
      ("a@b@d1" ∷ [])
      (migration "a" ∷ [])
      (record { executed = "a@b@d1" ∷ []; actions = "a@b@d1/copy" ∷ [] })
      2).ledger
    ≡ record { executed = "a@d1" ∷ []; actions = "a@d1/copy" ∷ "a@d1/drop" ∷ [] }
unfolding program
other_name_dropped = refl

failed_migration_resumes_example :
    let m = migration "convert" in
    let key = migration_key digest m in
    let r = run_recorded dispatcher key m.actions empty 0 in
    let after = run_migrations dispatcher digest [] convert empty 0 in
    (after.ledger.executed ≡ [])
    × (after.state ≡ r.state)
    × ((rest : List String) × (pending (actions_done_for [] key) m.actions
          ≡ r.recorded ++ stopped_at after.error rest)
        × (pending (actions_done_for after.ledger.actions key) m.actions
            ≡ stopped_at after.error rest))
unfolding program
failed_migration_resumes_example =
    failed_migration_resumes dispatcher digest [] (migration "convert") [] empty 0 refl refl
      (refl, (refl, tt))
