-- ===== src/Lifetime/Tests.antt =====
-- internal/actionplan/actionplan.go, EvaluateLifetimeGate, on four completions of two stages.
use stageset_controller.Prelude.{
  String, str_eq, ◌≡◌, refl, none, some, List, [], ◌∷◌, if◌then◌else◌,
}
use stageset_controller.Lifetime.{
  AnchorWitness, executed, LedgerCompletion, AnchorRead, found, read_failed, classify_anchor,
  add_completion, evaluate_lifetime_gate, drop_completions,
}
use stageset_controller.Lifetime.Gate.{drop_completions-settles}

abbrev anchored : String → String → LedgerCompletion
anchored action name = record {
  stage = "db";
  action = action;
  origin = executed;
  completed_at = 0;
  anchor = some (record { api_version = "v1"; kind = "Secret"; name = name; uid = "u1" });
}

abbrev bare : String → String → LedgerCompletion
bare stage action = record {
  stage = stage;
  action = action;
  origin = executed;
  completed_at = 0;
  anchor = none;
}

abbrev completions : List LedgerCompletion
completions =
    bare "db" "announce"
    ∷ anchored "bootstrap" "root"
    ∷ anchored "seed" "seeded"
    ∷ anchored "restore" "backup"
    ∷ bare "web" "seed"
    ∷ []

-- One witness is another object of the same name, one cannot be read.
abbrev read : AnchorWitness → AnchorRead
read a =
    if str_eq a.name "root"
    then found "u1"
    else if str_eq a.name "seeded"
    then found "u2"
    else read_failed

program : Unit {0}
unfolding classify_anchor add_completion evaluate_lifetime_gate drop_completions
program = tt

unreadable_is_kept : evaluate_lifetime_gate read completions "db" ≡ record {
  done = "announce" ∷ "bootstrap" ∷ "restore" ∷ [];
  invalidated = "seed" ∷ [];
  unreadable = "restore" ∷ [];
}
unfolding program
unreadable_is_kept = refl

drop_completions-settles_example :
    let after =
      evaluate_lifetime_gate read (drop_completions completions "db" ("seed" ∷ [])) "db" in
    (after.invalidated ≡ []) × (after.done ≡ "announce" ∷ "bootstrap" ∷ "restore" ∷ [])
unfolding program
drop_completions-settles_example = drop_completions-settles read "db" completions
