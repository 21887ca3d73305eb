-- ===== src/Admission/Stages.antt =====
-- internal/controller/webhook.go, ValidateStages and validateActionScope, with IsProducerRef of
-- internal/artifact/resolver.go.
use stageset_controller.Prelude.{
  String, str_eq, Bool, true, false, not, ◌&&◌, ◌||◌, none, some, List, [], ◌∷◌, ◌++◌, map, ◌==◌,
  is_some, contains, ◌>>◌, require, for_each, ok, cut,
}
use stageset_controller.Ladder.{Action, CompletionAnchor, verb_count}
use stageset_controller.Admission.{
  SourceReference, StageActions, SpecStage, StageSet, stage_name_not_unique,
  producer_without_api_version, verbs_not_one, unnamed_action, repeated_action, unknown_scope,
  scope_not_allowed, scope_without_version, anchor_not_allowed, anchor_incomplete, Check, if_set,
}

abbrev pub external_artifact_group : String
external_artifact_group = "source.toolkit.fluxcd.io"

abbrev pub direct_source_kinds : List String
direct_source_kinds = "GitRepository" ∷ "OCIRepository" ∷ "Bucket" ∷ []

abbrev pub group_of : String → String
group_of api_version = elim (cut b'/' api_version) [ none ↦ "" | some (before, _) ↦ before ]

unfoldable pub is_direct_source_kind : SourceReference → Bool
is_direct_source_kind ref =
    contains ref.kind direct_source_kinds
    && (str_eq (group_of ref.api_version) ""
        || str_eq (group_of ref.api_version) external_artifact_group)

unfoldable pub is_producer_ref : SourceReference → Bool
unfolding is_direct_source_kind
is_producer_ref ref =
    not (str_eq ref.kind "")
    && (not (str_eq ref.kind "ExternalArtifact") && not (is_direct_source_kind ref))

pub data ActionPhase : Type 0 where
  pre_phase post_phase failure_phase : ActionPhase

abbrev pub is_failure : ActionPhase → Bool
is_failure failure_phase = true
is_failure _ = false

abbrev pub is_scope : String → Bool
is_scope s = str_eq s "" || (str_eq s "Revision" || (str_eq s "Version" || str_eq s "Lifetime"))

abbrev pub is_complete : CompletionAnchor → Bool
is_complete a = not (str_eq a.api_version "" || (str_eq a.kind "" || str_eq a.name ""))

unfoldable pub validate_action_scope : ActionPhase → Bool → Action → Check
validate_action_scope phase versioned a = do
  require (is_scope a.scope) (unknown_scope a.name)
  require (str_eq a.scope "" || not (is_failure phase)) (scope_not_allowed a.name)
  require (not (str_eq a.scope "Version") || versioned) (scope_without_version a.name)
  if_set a.completion_anchor λ anchor. (do
    require (str_eq a.scope "Lifetime") (anchor_not_allowed a.name)
    require (is_complete anchor) (anchor_incomplete a.name))

-- The actions of the phases in the order of the loops, each with its phase.
abbrev pub phased : StageActions → List (ActionPhase × Action)
phased acts =
    map (λ a. (pre_phase, a)) acts.pre
    ++ (map (λ a. (post_phase, a)) acts.post ++ map (λ a. (failure_phase, a)) acts.on_failure)

-- The body of the loop over the phases, with the names that it has seen.
unfoldable pub validate_phases : Bool → List String → List (ActionPhase × Action) → Check
unfolding validate_action_scope verb_count
validate_phases versioned seen [] = ok tt
validate_phases versioned seen ((phase, a) ∷ rest) = do
  require (verb_count a == 1) (verbs_not_one a.name)
  require (not (str_eq a.name "")) (unnamed_action a.name)
  require (not (contains a.name seen)) (repeated_action a.name)
  validate_action_scope phase versioned a
  validate_phases versioned (a.name ∷ seen) rest

unfoldable pub validate_on_rollback : List String → List Action → Check
unfolding verb_count
validate_on_rollback seen [] = ok tt
validate_on_rollback seen (a ∷ rest) = do
  require (verb_count a == 1) (verbs_not_one a.name)
  require (not (str_eq a.name "")) (unnamed_action a.name)
  require (not (contains a.name seen)) (repeated_action a.name)
  require (str_eq a.scope "") (scope_not_allowed a.name)
  require (not (is_some a.completion_anchor)) (anchor_not_allowed a.name)
  validate_on_rollback (a.name ∷ seen) rest

-- The loop over the stage names.
unfoldable pub validate_names : List String → List String → Check
validate_names seen [] = ok tt
validate_names seen (n ∷ ns) = do
  require (not (contains n seen)) (stage_name_not_unique n)
  validate_names (n ∷ seen) ns

module _ {S : Type 0} where
  unfoldable pub validate_stage : Bool → SpecStage S → Check
  unfolding is_producer_ref validate_phases
  validate_stage versioned s = do
    require (not (is_producer_ref s.source_ref && str_eq s.source_ref.api_version ""))
        (producer_without_api_version s.name)
    if_set s.actions λ acts. validate_phases versioned [] (phased acts)

  unfoldable pub validate_stages : StageSet S → Check
  unfolding validate_names validate_stage validate_on_rollback
  validate_stages ss = do
    validate_names [] (map (λ s. s.name) ss.stages)
    for_each (validate_stage (is_some ss.version)) ss.stages
    validate_on_rollback [] ss.on_rollback
