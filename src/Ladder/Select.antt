-- ===== src/Ladder/Select.antt =====
-- internal/migrations/migrations.go, Explain, Select and SelectDown.
pub mod Exact
pub mod Steps
mod Tests
use stageset_controller.Prelude.{
  String, str_eq, Bool, not, ◌&&◌, Option, none, some, List, [], ◌∷◌, map, if◌then◌else◌, is_some,
  keep_if, Result, ◌>>=◌, ◌>>◌, ok, err, sort_by,
}
use stageset_controller.Ladder.{Migration, Semver}

pub data Excluded : Type 0 where
  not_crossed from_mismatch : Excluded

pub record Outcome : Type 0 where
  pub migration : Migration
  pub fires : Bool
  pub reason : Option Excluded

pub data SelectError : Type 0 where
  bad_to bad_from : String → SelectError

pub record Scored {ℓ} (O : Type ℓ) (V : Type 0) : Type ℓ where
  pub o : O
  pub to : V

module _ {V : Type 0} (sv : Semver V) (current desired : V) where
  -- toV.GreaterThan(currentV) && !toV.GreaterThan(desiredV)
  abbrev pub crosses : V → Bool
  crosses to = sv.less_than current to && not (sv.less_than desired to)

  abbrev outcome : Migration → V → Option Excluded → Scored Outcome V
  outcome m to reason = record {
    o = record { migration = m; fires = not (is_some reason); reason = reason };
    to = to;
  }

  unfoldable pub score : Migration → Result SelectError (Scored Outcome V)
  score m = elim (sv.new_version m.to) [
    | none ↦ err (bad_to m.name)
    | some to ↦
        if not (crosses to)
        then ok (outcome m to (some not_crossed))
        else if str_eq m.from ""
        then ok (outcome m to none)
        else elim (sv.new_constraint m.from) [
          | none ↦ err (bad_from m.name)
          | some check ↦ ok (outcome m to (if check current then none else some from_mismatch))
        ]
  ]

  unfoldable pub score_all : List Migration → Result SelectError (List (Scored Outcome V))
  unfolding score
  score_all [] = ok []
  score_all (m ∷ ms) = do first ← score m; rest ← score_all ms; ok (first ∷ rest)

  unfoldable pub explain : List Migration → Result SelectError (List Outcome)
  unfolding score_all
  explain ladder = do
    list ← score_all ladder
    ok (map (λ s. s.o) (sort_by (λ a b. sv.less_than a.to b.to) list))

  unfoldable pub select : List Migration → Result SelectError (List Migration)
  unfolding explain
  select ladder = do
    outcomes ← explain ladder
    ok (map (λ o. o.migration) (keep_if (λ o. o.fires) outcomes))

  -- SelectDown's loop: the migrations in the crossed-down range (desired, current].
  unfoldable pub score_down : List Migration → Result SelectError (List (Scored Migration V))
  score_down [] = ok []
  score_down (m ∷ ms) = elim (sv.new_version m.to) [
    | none ↦ err (bad_to m.name)
    | some to ↦
        (score_down ms >>= λ rest. ok (
          if sv.less_than desired to && not (sv.less_than current to)
          then record { o = m; to = to } ∷ rest
          else rest))
  ]

  unfoldable pub select_down : List Migration → Result SelectError (List Migration)
  unfolding score_down
  select_down ladder = do
    list ← score_down ladder
    ok (map (λ s. s.o) (sort_by (λ a b. sv.less_than b.to a.to) list))
