-- ===== src/Ladder.antt =====
-- internal/migrations/migrations.go: the migration ladder, its validation and the migrations that a
-- version transition selects. The semver library is the record `Semver`, over versions of a type `V`.
pub mod Select
use stageset_controller.Prelude.{
  ℕ, ◌+◌, String, str_eq, ◌≡◌, ◌⊎◌, Bool, true, false, not, ◌||◌, Option, none, some, List, [], ◌∷◌,
  ltb, ◌==◌, if◌then◌else◌, is_some, length, contains, ℤ, ltb_ℤ, pos,
}

pub record CompletionAnchor : Type 0 where
  pub api_version : String
  pub kind : String
  pub name : String

-- What the ladder reads of api/v1 Action. A verb's field is whether it is set; what the verb does is
-- the executor's.
pub record Action : Type 0 where
  pub name : String
  pub scope : String
  pub retries : Option ℤ
  pub patch : Bool
  pub http : Bool
  pub wait : Bool
  pub job : Bool
  pub delete : Bool
  pub apply : Bool
  pub completion_anchor : Option CompletionAnchor

pub record Migration : Type 0 where
  pub name : String
  pub to : String
  pub from : String
  pub stage : String
  pub actions : List Action
  pub down : List Action

abbrev one_if : Bool → ℕ
one_if true = 1
one_if false = 0

unfoldable pub verb_count : Action → ℕ
verb_count a =
    one_if a.patch + one_if a.http + one_if a.wait + one_if a.job + one_if a.delete + one_if a.apply

pub record Semver (V : Type 0) : Type 0 where
  pub new_version : String → Option V
  pub new_constraint : String → Option (V → Bool)
  -- Whether StrictNewVersion accepts the text, without its leading "v", once spaces are trimmed.
  pub is_bare : String → Bool
  pub less_than : V → V → Bool
  pub major : V → ℕ

-- What the library documents of Compare: it orders the versions, build metadata aside.
pub record IsOrder {V : Type 0} (less : V → V → Bool) : Type 0 where
  pub irrefl : (x : V) → less x x ≡ false
  pub trans : (x y z : V) → less x y ≡ true → less y z ≡ true → less x z ≡ true
  pub middle : (x y z : V) → less x z ≡ true → (less x y ≡ true) ⊎ (less y z ≡ true)

pub data LadderError : Type 0 where
  too_many_migrations : LadderError
  duplicate_migration : String → LadderError
  empty_name empty_to : LadderError
  invalid_to invalid_from bare_from : String → LadderError
  too_many_actions : LadderError
  verbs_not_one : String → ℕ → LadderError
  empty_action_name : LadderError
  duplicate_action has_scope has_anchor bad_retries : String → LadderError

abbrev pub max_migrations_per_ladder : ℕ
max_migrations_per_ladder = 200

abbrev pub max_actions_per_migration : ℕ
max_actions_per_migration = 100

abbrev pub max_action_retries : ℕ
max_action_retries = 10

abbrev retries_out_of_range : Option ℤ → Bool
retries_out_of_range none = false
retries_out_of_range (some r) = ltb_ℤ r (pos 0) || ltb_ℤ (pos max_action_retries) r

-- The body of validateMigrationActions' loop, with the names `seen` so far.
unfoldable pub check_action : List String → Action → Option LadderError
unfolding verb_count
check_action seen a =
    if not (verb_count a == 1)
    then some (verbs_not_one a.name (verb_count a))
    else if str_eq a.name ""
    then some empty_action_name
    else if contains a.name seen
    then some (duplicate_action a.name)
    else if not (str_eq a.scope "")
    then some (has_scope a.name)
    else if is_some a.completion_anchor
    then some (has_anchor a.name)
    else if retries_out_of_range a.retries
    then some (bad_retries a.name)
    else none

unfoldable pub check_actions : List String → List Action → Option LadderError
check_actions seen [] = none
check_actions seen (a ∷ acts) =
    let rest = check_actions (a.name ∷ seen) acts in
    elim (check_action seen a) [ some e ↦ some e | none ↦ rest ]

unfoldable pub validate_migration_actions : List Action → Option LadderError
unfolding check_actions
validate_migration_actions acts =
    if ltb max_actions_per_migration (length acts)
    then some too_many_actions
    else check_actions [] acts

-- `if err := ...; err != nil { return err }`, then the rest.
infixr 20 ◌or_else◌
abbrev pub ◌or_else◌ : Option LadderError → Option LadderError → Option LadderError
some e or_else rest = some e
none or_else rest = rest

module _ {V : Type 0} (sv : Semver V) where
  unfoldable pub check_from : String → Option LadderError
  check_from from =
      if str_eq from ""
      then none
      else if not (is_some (sv.new_constraint from))
      then some (invalid_from from)
      else if sv.is_bare from
      then some (bare_from from)
      else none

  unfoldable pub validate_migration : Migration → Option LadderError
  unfolding check_from validate_migration_actions
  validate_migration m =
      if str_eq m.name ""
      then some empty_name
      else if str_eq m.to ""
      then some empty_to
      else if not (is_some (sv.new_version m.to))
      then some (invalid_to m.to)
      else (check_from m.from
          or_else (validate_migration_actions m.actions or_else validate_migration_actions m.down))

  unfoldable pub validate_each : List String → List Migration → Option LadderError
  validate_each names [] = none
  validate_each names (m ∷ ms) =
      let rest = validate_each (m.name ∷ names) ms in
      validate_migration m
      or_else (if contains m.name names then some (duplicate_migration m.name) else rest)

  unfoldable pub validate_ladder : List Migration → Option LadderError
  unfolding validate_each
  validate_ladder ladder =
      if ltb max_migrations_per_ladder (length ladder)
      then some too_many_migrations
      else validate_each [] ladder
