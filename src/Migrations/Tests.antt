-- ===== src/Migrations/Tests.antt =====
-- internal/controller/migrations.go on a ladder whose versions are small numbers.
use stageset_controller.Prelude.{
  ℕ, String, ◌≡◌, refl, true, false, Option, none, some, List, [], ◌∷◌, ltb, lookup, Result, ok,
  insert_by, sort_by,
}
use stageset_controller.Ladder.{
  Action, Migration, Semver, validate_ladder, validate_migration, validate_each,
  validate_migration_actions, check_actions, check_action, check_from, verb_count,
}
use stageset_controller.Ladder.Select.{select, select_down, explain, score_all, score, score_down}
use stageset_controller.Migrations.{
  AnchoredStage, VersionPolicy, always, MigrationPlan, first_name, anchor_stage, append_at,
  resolve_anchors, rollback_directive, coverage_gap, plan_downgrade, plan_upgrade,
  plan_version_migrations, awaits_approval, version_approval_needed,
}
use stageset_controller.Migrations.Source.{
  ResolvedArtifact, FetchFault, SourceFlags, resolve_migration_ladder, sourced_ladder,
  resolve_fault, ladder_has_http, accept_ladder, check_migration_source_verified,
  check_migration_source_pinned, IsAccepted, resolve_migration_ladder-IsAccepted,
}

abbrev numbers : List (String × ℕ)
numbers = ("1", 1) ∷ ("2", 2) ∷ ("3", 3) ∷ []

abbrev semver : Semver ℕ
semver = record {
  new_version = λ v. lookup v numbers;
  new_constraint = λ c. none;
  is_bare = λ c. false;
  less_than = ltb;
  major = λ v. v;
}

abbrev act : String → Action
act name = record {
  name = name;
  scope = "";
  retries = none;
  patch = true;
  http = false;
  wait = false;
  job = false;
  delete = false;
  apply = false;
  completion_anchor = none;
}

abbrev migration : String → String → String → Migration
migration name to stage = record {
  name = name;
  to = to;
  from = "";
  stage = stage;
  actions = act "convert" ∷ [];
  down = act "revert" ∷ [];
}

abbrev ladder : List Migration
ladder = migration "second" "2" "data" ∷ migration "third" "3" "" ∷ []

abbrev stages : List AnchoredStage
stages =
    record { name = "web"; migration_anchor = "" }
    ∷ record { name = "db"; migration_anchor = "data" }
    ∷ []

abbrev policy : VersionPolicy
policy = record {
  allow_downgrade = true;
  require_migration_coverage = false;
  approval_mode = always;
}

abbrev downgrade : MigrationPlan
downgrade = record {
  version_set = true;
  desired = "1";
  baseline = false;
  downgrade = true;
  pending = migration "third" "3" "" ∷ migration "second" "2" "data" ∷ [];
  by_stage =
      ("web", migration "third" "3" "" ∷ []) ∷ ("db", migration "second" "2" "data" ∷ []) ∷ [];
}

abbrev flags : SourceFlags
flags = record { require_verified = true; require_pinned = true; allowed_action_hosts = [] }

abbrev signed : ResolvedArtifact
signed = record { verified = some true; pinned = some true }

abbrev parsed : String → Option (List Migration)
parsed file = some ladder

abbrev fetched : ResolvedArtifact → Result FetchFault String
fetched ra = ok "file"

program : Unit {0}
unfolding select select_down explain score_all score score_down validate_ladder validate_migration
    validate_each check_actions validate_migration_actions check_action check_from verb_count
    sort_by insert_by first_name anchor_stage append_at resolve_anchors rollback_directive
    coverage_gap plan_downgrade plan_upgrade plan_version_migrations version_approval_needed
    resolve_migration_ladder sourced_ladder resolve_fault ladder_has_http accept_ladder
    check_migration_source_verified check_migration_source_pinned
program = tt

rollback_to_first :
    plan_version_migrations semver policy stages (ok ladder) (ok "3") "3" "1" ≡ ok downgrade
unfolding program
rollback_to_first = refl

-- A rollback waits for an approval of the version that it restores.
rollback_awaits_approval : awaits_approval always downgrade "3" "2" ≡ true
unfolding program
rollback_awaits_approval = refl

resolve_migration_ladder-IsAccepted_example :
    (validate_ladder semver ladder ≡ none)
    × ((ra : ResolvedArtifact) → some signed ≡ some ra → IsAccepted semver flags ladder ra)
    × (some signed ≡ none → ladder ≡ [])
unfolding program
resolve_migration_ladder-IsAccepted_example =
    resolve_migration_ladder-IsAccepted semver flags {Files = String} true [] (ok signed)
      (λ ra. ok "file") (λ f. some ladder) ladder (some signed) refl
