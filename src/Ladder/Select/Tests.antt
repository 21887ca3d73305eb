-- ===== src/Ladder/Select/Tests.antt =====
-- internal/migrations/migrations.go on a ladder whose versions are small numbers.
use stageset_controller.Prelude.{
  ℕ, String, ◌≡◌, refl, false, none, some, List, [], ◌∷◌, map, arith, ltb, leb, keep_if, lookup, ok,
  sort_by,
}
use stageset_controller.Ladder.{
  Migration, Semver, IsOrder, LadderError, validate_ladder, validate_migration, validate_each,
  validate_migration_actions, check_action, check_from,
}
use stageset_controller.Ladder.Select.{select, select_down, explain, score_all}
use stageset_controller.Ladder.Select.Exact.{targets, wanted, by_target, select_exact}

abbrev numbers : List (String × ℕ)
numbers = ("1", 1) ∷ ("2", 2) ∷ ("3", 3) ∷ ("4", 4) ∷ []

abbrev semver : Semver ℕ
semver = record {
  new_version = λ v. lookup v numbers;
  new_constraint = λ c. elim (lookup c numbers) [ none ↦ none | some n ↦ some (λ v. leb n v) ];
  is_bare = λ c. false;
  less_than = ltb;
  major = λ v. v;
}

IsOrder-semver : IsOrder semver.less_than
IsOrder-semver = record {
  irrefl = λ x. ground arith;
  trans = λ x y z h k. ground arith;
  middle = λ x y z h. ground arith;
}

abbrev migration : String → String → String → Migration
migration name to from = record {
  name = name;
  to = to;
  from = from;
  stage = "web";
  actions = [];
  down = [];
}

abbrev ladder : List Migration
ladder =
    migration "third" "3" ""
    ∷ migration "second" "2" ""
    ∷ migration "late" "4" ""
    ∷ migration "again" "3" ""
    ∷ []

abbrev guarded : List Migration
guarded = migration "third" "3" "2" ∷ migration "second" "2" "1" ∷ []

program : Unit {0}
unfolding select select_down explain score_all validate_ladder validate_migration validate_each
    validate_migration_actions check_action check_from sort_by
program = tt

valid : validate_ladder semver ladder ≡ none
unfolding program
valid = refl

valid_guarded : validate_ladder semver guarded ≡ none
unfolding program
valid_guarded = refl

twice :
    validate_ladder semver (migration "a" "1" "" ∷ migration "a" "2" "" ∷ [])
    ≡ some (LadderError.duplicate_migration "a")
unfolding program
twice = refl

select_example : select semver 1 3 guarded ≡ ok (migration "second" "2" "1" ∷ [])
unfolding program
select_example = refl

select_exact_example :
    select semver 1 3 guarded
    ≡ ok (
        map
          (λ s. s.o)
          (sort_by (by_target semver) (keep_if (wanted semver 1 3) (targets semver guarded))))
select_exact_example = select_exact semver 1 3 guarded IsOrder-semver valid_guarded
