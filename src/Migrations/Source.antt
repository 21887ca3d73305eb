-- ===== src/Migrations/Source.antt =====
-- internal/controller/migrations.go, resolveMigrationLadder and its gates: the ladder of a StageSet,
-- from its spec or from the artifact of spec.migrationsSourceRef, and what a sourced ladder has passed.
-- The source's resolution, the fetch and the YAML parser (internal/artifact) are given by their results.
use stageset_controller.Prelude.{
  String, ◌≡◌, sym, ◌∙◌, subst, ◌≢◌, inl, inr, Bool, true, false, ◌&&◌, ◌||◌, Option, none, some,
  List, [], ◌∷◌, arith, ◌==◌, if◌then◌else◌, Option-cases, is_some, length, any, Result, ◌>>=◌,
  ◌>>◌, Result-cases, ok, err,
}
use mathlib.Core.Option
use stageset_controller.Ladder.{Migration, Semver, validate_ladder}
use stageset_controller.Migrations.{
  PlanError, refused, transient, invalid_spec, rbac_denied, resolve_failed,
  migration_artifact_invalid, migration_source_not_verified, migration_source_not_pinned,
  PlanReason,
}

-- What the gates read of an artifact.ResolvedArtifact. `none` is a nil pointer.
pub record ResolvedArtifact : Type 0 where
  pub verified : Option Bool
  pub pinned : Option Bool

-- The errors of Resolver.Resolve, as resolveMigrationLadder's switch sorts them.
pub data ResolveFault : Type 0 where
  permanent_api source_not_ready artifact_not_found artifact_missing : ResolveFault
  cross_namespace_forbidden ambiguous_producer other_fault : ResolveFault

pub data FetchFault : Type 0 where
  terminal_fetch transient_fetch : FetchFault

-- The controller's flags.
pub record SourceFlags : Type 0 where
  pub require_verified : Bool
  pub require_pinned : Bool
  pub allowed_action_hosts : List String

unfoldable pub ladder_has_http : List Migration → Bool
ladder_has_http [] = false
ladder_has_http (m ∷ ms) =
    any (λ a. a.http) m.actions || any (λ a. a.http) m.down || ladder_has_http ms

unfoldable pub check_migration_source_verified : Bool → Option Bool → Option PlanReason
check_migration_source_verified require (some true) = none
check_migration_source_verified require (some false) = some migration_source_not_verified
check_migration_source_verified require none =
    if require then some migration_source_not_verified else none

unfoldable pub check_migration_source_pinned : Bool → Option Bool → Option PlanReason
check_migration_source_pinned require none = none
check_migration_source_pinned require (some true) = none
check_migration_source_pinned require (some false) =
    if require then some migration_source_not_pinned else none

unfoldable pub resolve_fault : ResolveFault → PlanError
resolve_fault permanent_api = refused rbac_denied
resolve_fault source_not_ready = transient
resolve_fault artifact_not_found = transient
resolve_fault artifact_missing = transient
resolve_fault cross_namespace_forbidden = refused resolve_failed
resolve_fault ambiguous_producer = refused resolve_failed
resolve_fault other_fault = transient

abbrev fetch_fault : FetchFault → PlanError
fetch_fault terminal_fetch = refused migration_artifact_invalid
fetch_fault transient_fetch = transient

-- A call's error, in the plan's terms.
abbrev pub or_plan_error {ℓ} :
    {E : Type 0} {A : Type ℓ} → (E → PlanError) → Result E A → Result PlanError A
or_plan_error f (ok a) = ok a
or_plan_error f (err e) = err (f e)

-- `if reason != "" { return reason }`
abbrev pub refuse_if : Option PlanReason → Result PlanError (Unit {0})
refuse_if none = ok tt
refuse_if (some r) = err (refused r)

module _ {V : Type 0} (sv : Semver V) (flags : SourceFlags) where
  -- What follows the fetch: the ladder is parsed, validated and searched for http actions.
  unfoldable pub accept_ladder : Option (List Migration) → Result PlanError (List Migration)
  unfolding ladder_has_http
  accept_ladder none = err (refused migration_artifact_invalid)
  accept_ladder (some ladder) =
      if is_some (validate_ladder sv ladder)
      then err (refused migration_artifact_invalid)
      else if length flags.allowed_action_hosts == 0 && ladder_has_http ladder
      then err (refused invalid_spec)
      else ok ladder

  unfoldable pub sourced_ladder :
      {Files : Type 0}
      → Result ResolveFault ResolvedArtifact
      → (ResolvedArtifact → Result FetchFault Files)
      → (Files → Option (List Migration))
      → Result PlanError (List Migration × ResolvedArtifact)
  unfolding resolve_fault check_migration_source_verified check_migration_source_pinned
      accept_ladder
  sourced_ladder resolve fetch parse = do
    ra ← or_plan_error resolve_fault resolve
    refuse_if (check_migration_source_verified flags.require_verified ra.verified)
    refuse_if (check_migration_source_pinned flags.require_pinned ra.pinned)
    files ← or_plan_error fetch_fault (fetch ra)
    ladder ← accept_ladder (parse files)
    ok (ladder, ra)

  -- resolveMigrationLadder: without spec.migrationsSourceRef the ladder is spec.migrations.
  unfoldable pub resolve_migration_ladder :
      {Files : Type 0}
      → Bool
      → List Migration
      → Result ResolveFault ResolvedArtifact
      → (ResolvedArtifact → Result FetchFault Files)
      → (Files → Option (List Migration))
      → Result PlanError (List Migration × Option ResolvedArtifact)
  unfolding sourced_ladder
  resolve_migration_ladder false inline resolve fetch parse =
      if is_some (validate_ladder sv inline) then err (refused invalid_spec) else ok (inline, none)
  resolve_migration_ladder true inline resolve fetch parse =
      sourced_ladder resolve fetch parse >>= λ r. ok (r.0, some r.1)

  -- A ladder that its gates accepted: it is valid, its source's signature did not fail, and what the
  -- flags require holds.
  pub record IsAccepted (list : List Migration) (ra : ResolvedArtifact) : Type 0 where
    pub valid : validate_ladder sv list ≡ none
    pub not_failed : ra.verified ≢ some false
    pub verified : flags.require_verified ≡ true → ra.verified ≡ some true
    pub pinned : flags.require_pinned ≡ true → ra.pinned ≢ some false
    pub scoped : flags.allowed_action_hosts ≡ [] → ladder_has_http list ≡ false

  accept_ladder-valid :
      (parsed : Option (List Migration)) (list : List Migration)
      → accept_ladder parsed ≡ ok list
      → (validate_ladder sv list ≡ none)
        × (flags.allowed_action_hosts ≡ [] → ladder_has_http list ≡ false)
  unfolding accept_ladder
  accept_ladder-valid none list h = ground (arith, h)
  accept_ladder-valid (some l) list h = ground (arith, h)

  check_verified :
      (require : Bool) (v : Option Bool)
      → check_migration_source_verified require v ≡ none
      → (v ≢ some false) × (require ≡ true → v ≡ some true)
  unfolding check_migration_source_verified
  check_verified require (some true) h = ground arith
  check_verified require (some false) h = ground (arith, h)
  check_verified require none h = ground (arith, h)

  check_pinned :
      (require : Bool) (v : Option Bool)
      → check_migration_source_pinned require v ≡ none
      → require ≡ true
      → v ≢ some false
  unfolding check_migration_source_pinned
  check_pinned require (some true) h = ground arith
  check_pinned require (some false) h = ground (arith, h)
  check_pinned require none h = ground (arith, h)

  -- A resolved ladder is valid, and one from a source has passed every gate that the flags ask for.
  pub resolve_migration_ladder-IsAccepted :
      {Files : Type 0} (sourced : Bool) (inline : List Migration)
      (resolve : Result ResolveFault ResolvedArtifact)
      (fetch : ResolvedArtifact → Result FetchFault Files) (parse : Files → Option (List Migration))
      (list : List Migration) (from : Option ResolvedArtifact)
      → resolve_migration_ladder sourced inline resolve fetch parse ≡ ok (list, from)
      → (validate_ladder sv list ≡ none)
        × ((ra : ResolvedArtifact) → from ≡ some ra → IsAccepted list ra)
        × (from ≡ none → list ≡ inline)
  unfolding resolve_migration_ladder
  resolve_migration_ladder-IsAccepted false inline resolve fetch parse list from h =
      let p : (validate_ladder sv list ≡ none) × (list ≡ inline) × (from ≡ none) =
        ground (arith, h) in
      (p.0, λ ra e. ground (arith, e, p), λ _. p.1)
  resolve_migration_ladder-IsAccepted true inline (err x) fetch parse list from h =
      ground (arith, h)
  resolve_migration_ladder-IsAccepted true inline (ok ra) fetch parse list from h =
      elim (Option-cases (check_migration_source_verified flags.require_verified ra.verified)) [
        | inr (x, e) ↦ ground (arith, e, h)
        | inl e ↦
            elim (Option-cases (check_migration_source_pinned flags.require_pinned ra.pinned)) [
              | inr (x, f) ↦ ground (arith, e, f, h)
              | inl f ↦ elim (Result-cases (fetch ra)) [
                | inr (x, g) ↦ ground (arith, e, f, g, h)
                | inl (files, g) ↦ elim (Result-cases (accept_ladder (parse files))) [
                  | inr (x, k) ↦ ground (arith, e, f, g, k, h)
                  | inl (l, k) ↦
                      let p : (list ≡ l) × (from ≡ some ra) = ground (arith, e, f, g, k, h) in
                      let v = accept_ladder-valid (parse files) l k in
                      let a : IsAccepted l ra = record {
                        valid = v.0;
                        not_failed = (check_verified flags.require_verified ra.verified e).0;
                        verified = (check_verified flags.require_verified ra.verified e).1;
                        pinned = check_pinned flags.require_pinned ra.pinned f;
                        scoped = v.1;
                      } in
                      (
                        subst (λ x. validate_ladder sv x ≡ none) (sym p.0) v.0,
                        λ ra2 q.
                            subst (IsAccepted list) (Option.some-injective ra ra2 (sym p.1 ∙ q))
                              (subst (λ x. IsAccepted x ra) (sym p.0) a),
                        λ q. ground (arith, p, q),
                      )
                ]
              ]
            ]
      ]
