-- ===== src/Admission/Spec.antt =====
-- internal/controller/webhook.go: ValidateSpec, its smaller checks and the admission of an update.
use stageset_controller.Prelude.{
  ℕ, ◌+◌, String, str_eq, Bool, not, ◌&&◌, ◌||◌, Option, none, some, List, [], ◌∷◌, ◌==◌,
  if◌then◌else◌, is_some, length, contains, Result, ◌>>=◌, ◌>>◌, require, for_each, ok, err,
}
use stageset_controller.Ladder.{Migration, validate_ladder}
use stageset_controller.Window.{validate}
use stageset_controller.Admission.{
  SourceReference, CustomHealthCheck, SpecStage, VersionSource, KubeConfig, Decryption, Dependency,
  StageSet, Libraries, AdmissionError, ladder_and_source, migrations_without_version,
  cross_namespace_source, anchor_collides, unknown_anchor, bad_ladder, version_not_one,
  bad_provider, unnamed_reference, kube_config_not_one, unknown_choice, incomplete_reference,
  bad_expression, unnamed_dependency, bad_min_version, bad_window, is_choice, Check, if_set,
}
use stageset_controller.Admission.Stages.{validate_stages}
use stageset_controller.Admission.Promotion.{validate_error_budget, validate_promotion}

-- errors.go
unfoldable pub is_cross_namespace_ref : SourceReference → String → Bool
is_cross_namespace_ref ref owner = not (str_eq ref.namespace "") && not (str_eq ref.namespace owner)

-- A call whose error is wrapped.
abbrev wrap : {E : Type 0} → (E → AdmissionError) → Option E → Check
wrap f none = ok tt
wrap f (some e) = err (f e)

abbrev has_text : String → Bool
has_text s = not (str_eq s "")

abbrev one_if : Bool → ℕ
one_if b = if b then 1 else 0

unfoldable pub version_sources : VersionSource → ℕ
version_sources v = one_if (has_text v.value) + one_if v.from_object + one_if v.from_artifact

unfoldable pub validate_version : Option VersionSource → Check
unfolding version_sources
validate_version v = if_set v λ v. require (version_sources v == 1) version_not_one

unfoldable pub validate_decryption : Option Decryption → Check
validate_decryption d = if_set d λ d. (do
  require (str_eq d.provider "sops") bad_provider
  if_set d.secret_ref λ name. require (has_text name) unnamed_reference)

unfoldable pub validate_kube_config : Option KubeConfig → Check
validate_kube_config kc = if_set kc λ kc. (do
  require (not (is_some kc.secret_ref && is_some kc.config_map_ref)) kube_config_not_one
  require (is_some kc.secret_ref || is_some kc.config_map_ref) kube_config_not_one
  if_set kc.secret_ref λ name. require (has_text name) unnamed_reference
  if_set kc.config_map_ref λ name. require (has_text name) unnamed_reference)

module _ {S : Type 0} where
  -- The loop over the anchor keys, whose result is the keys.
  unfoldable pub anchor_keys :
      List String → List (SpecStage S) → Result AdmissionError (List String)
  anchor_keys keys [] = ok keys
  anchor_keys keys (s ∷ rest) = do
    require (not (contains s.name keys)) (anchor_collides s.name)
    (if str_eq s.migration_anchor "" then anchor_keys (s.name ∷ keys) rest else (do
      require (not (contains s.migration_anchor (s.name ∷ keys)))
          (anchor_collides s.migration_anchor)
      anchor_keys (s.migration_anchor ∷ s.name ∷ keys) rest))

module _ {S V F : Type 0} (lib : Libraries S V F) where
  abbrev pub is_anchored : List String → Migration → Check
  is_anchored keys m = require (str_eq m.stage "" || contains m.stage keys) (unknown_anchor m.name)

  -- After the checks of the source: the anchors, then the ladder of the spec.
  unfoldable pub validate_anchors : StageSet S → Check
  unfolding anchor_keys validate_ladder
  validate_anchors ss = do
    keys ← anchor_keys [] ss.stages
    (if is_some ss.migrations_source_ref then ok tt else (do
      wrap bad_ladder (validate_ladder lib.semver ss.migrations)
      for_each (is_anchored keys) ss.migrations))

  unfoldable pub validate_migrations : StageSet S → Check
  unfolding is_cross_namespace_ref validate_anchors
  validate_migrations ss =
      let has_inline = not (length ss.migrations == 0) in
      let has_source = is_some ss.migrations_source_ref in
      if has_inline && has_source
      then err ladder_and_source
      else if not has_inline && not has_source
      then ok tt
      else (do
        require (is_some ss.version) migrations_without_version
        if_set ss.migrations_source_ref
            λ ref. require (not (is_cross_namespace_ref ref ss.namespace)) cross_namespace_source
        validate_anchors ss)

  -- compileReadyExprs, as far as it can fail.
  unfoldable pub compile_ready_expr : CustomHealthCheck → Check
  compile_ready_expr hc = do
    require (lib.parse_group_version hc.api_version) bad_expression
    for_each (λ src. require (str_eq src "" || lib.compile src) bad_expression)
        (hc.current ∷ hc.in_progress ∷ hc.failed ∷ [])

  unfoldable pub validate_ready_checks : StageSet S → Check
  unfolding compile_ready_expr
  validate_ready_checks ss =
      for_each
        (λ s. if_set s.ready_checks λ rc. (do
          for_each (λ ref. require (has_text ref.kind && has_text ref.name) incomplete_reference)
              rc.checks
          for_each compile_ready_expr rc.exprs))
        ss.stages

  unfoldable pub validate_on_timeout : StageSet S → Check
  validate_on_timeout ss = do
    require (is_choice "Hold" "Rollback" ss.on_timeout) (unknown_choice ss.on_timeout)
    for_each (λ s. require (is_choice "Hold" "Rollback" s.on_timeout) (unknown_choice s.on_timeout))
        ss.stages

  unfoldable pub validate_dependency : Dependency → Check
  validate_dependency dep = do
    require (has_text dep.name) unnamed_dependency
    require (str_eq dep.min_version "" || is_some (lib.semver.new_version dep.min_version))
        bad_min_version

  unfoldable pub validate_spec : ℕ → StageSet S → Check
  unfolding validate_stages validate_migrations validate_version validate_decryption
      validate_kube_config validate_error_budget validate_promotion validate_ready_checks
      validate_on_timeout validate_dependency validate
  validate_spec now ss = do
    validate_stages ss
    validate_migrations ss
    validate_version ss.version
    validate_decryption ss.decryption
    validate_kube_config ss.kube_config
    validate_error_budget lib ss
    validate_promotion lib ss
    validate_ready_checks ss
    validate_on_timeout ss
    for_each validate_dependency ss.depends_on
    wrap bad_window (validate lib.cron ss.update_windows now)

  -- ValidateUpdate: an object that is being deleted, or whose spec differs at most in suspend, is
  -- accepted as it is.
  unfoldable pub validate_update : Bool → Bool → ℕ → StageSet S → Check
  unfolding validate_spec
  validate_update deleting unchanged now ss =
      if deleting then ok tt else if unchanged then ok tt else validate_spec now ss
