-- ===== src/Migrations/Run/Resume.antt =====
-- internal/controller/migrations.go, runStageMigrations: where a failed migration resumes, and what a
-- completed one does at the next pass.
use stageset_controller.Prelude.{
  String, ◌≡◌, refl, ap, ◌∙◌, inl, inr, true, false, List, [], ◌∷◌, ◌++◌, map, Option-cases,
  is_some, contains, cut_prefix, cut_prefix-append,
}
use Prim.Native.String.{◌++◌ as str_append}
use stageset_controller.Ladder.{Action, Migration}
use stageset_controller.Actions.{Dispatcher}
use stageset_controller.Actions.Ledger.{pending, stopped_at, HasUniqueNames, run-Resumes}
use stageset_controller.Migrations.Run.{
  MigrationLedger, actions_done_for, action_entry, migration_key, run_recorded, with_recorded,
  run_migrations,
}

actions_done_for-append :
    (xs ys : List String) (key : String)
    → actions_done_for (xs ++ ys) key ≡ actions_done_for xs key ++ actions_done_for ys key
unfolding actions_done_for
actions_done_for-append [] ys key = refl
actions_done_for-append (x ∷ xs) ys key = elim (Option-cases (cut_prefix (str_append key "/") x)) [
  | inl e ↦ rw (actions_done_for, e) (actions_done_for-append xs ys key)
  | inr (a, e) ↦ rw (actions_done_for, e) (ap (λ l. a ∷ l) (actions_done_for-append xs ys key))
]

-- The entries that are recorded for names are read back as these names.
actions_done_for-entries :
    (key : String) (names : List String)
    → actions_done_for (map (action_entry key) names) key ≡ names
unfolding actions_done_for
actions_done_for-entries key [] = refl
actions_done_for-entries key (n ∷ names) =
    rw (actions_done_for, cut_prefix-append (str_append key "/") n)
      (ap (λ l. n ∷ l) (actions_done_for-entries key names))

module _ {W : Type 0} (d : Dispatcher W) where
  -- After a run over the ledger of a key, the ledger with its entries holds what the run found and recorded.
  actions_done_for-recorded :
      (key : String) (acts : List Action) (l : MigrationLedger) (w : W)
      → actions_done_for (with_recorded key (run_recorded d key acts l w).recorded l).actions key
        ≡ actions_done_for l.actions key ++ (run_recorded d key acts l w).recorded
  actions_done_for-recorded key acts l w =
      let names = (run_recorded d key acts l w).recorded in
      actions_done_for-append l.actions (map (action_entry key) names) key
      ∙ ap (λ xs. actions_done_for l.actions key ++ xs) (actions_done_for-entries key names)

  run_recorded-Resumes :
      (key : String) (acts : List Action) (l : MigrationLedger) (w : W)
      → HasUniqueNames acts
      → let r = run_recorded d key acts l w in
        (rest : List String) × (pending (actions_done_for l.actions key) acts
          ≡ r.recorded ++ stopped_at r.error rest)
        × (pending (actions_done_for (with_recorded key r.recorded l).actions key) acts
            ≡ stopped_at r.error rest)
  run_recorded-Resumes key acts l w u =
      let (rest, p, q) = run-Resumes d (λ n. true) (actions_done_for l.actions key) acts w u in
      (rest, p, rw (actions_done_for-recorded key acts l w) q)

-- Where a migration that is not completed fails, and no two of its actions have one name, the pass ends
-- with it uncompleted, and its actions that the next pass finds pending are the one that failed and those
-- after it: the actions before it were done or are recorded, and run no more.
pub failed_migration_resumes :
    {W : Type 0} (d : Dispatcher W) (digest : Migration → String) (done : List String)
    (m : Migration) (ms : List Migration) (l : MigrationLedger) (w : W)
    → let key = migration_key digest m in
      let r = run_recorded d key m.actions l w in
      let after = run_migrations d digest done (m ∷ ms) l w in
      contains key done ≡ false
      → is_some r.error ≡ true
      → HasUniqueNames m.actions
      → (after.ledger.executed ≡ l.executed)
        × (after.state ≡ r.state)
        × ((rest : List String) × (pending (actions_done_for l.actions key) m.actions
              ≡ r.recorded ++ stopped_at after.error rest)
            × (pending (actions_done_for after.ledger.actions key) m.actions
                ≡ stopped_at after.error rest))
unfolding run_migrations
failed_migration_resumes d digest done m ms l w c e u =
    rw (c, e) (refl, refl, run_recorded-Resumes d (migration_key digest m) m.actions l w u)
