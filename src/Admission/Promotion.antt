-- ===== src/Admission/Promotion.antt =====
-- internal/controller/webhook.go, validatePromotion, validateErrorBudget and the checks of a metric
-- source and a threshold that they share.
use stageset_controller.Prelude.{
  ℕ, ◌+◌, String, str_eq, Bool, true, false, not, ◌||◌, Option, none, some, List, [], ◌∷◌, ◌==◌,
  if◌then◌else◌, is_some, length, contains, ℤ, ltb_ℤ, pos, Result, ◌>>=◌, ◌>>◌, require, for_each,
  ok, err,
}
use stageset_controller.Metric.{MetricEndpoint, MetricSource, Threshold}
use stageset_controller.Budget.{ErrorBudget}
use stageset_controller.Checks.{RestartCheck, RestartGate, EventCheck, EventGate}
use stageset_controller.Admission.{
  AnalysisCheck, Analysis, FastTrack, PromotionSpec, StageSet, Libraries, AdmissionError,
  metric_source_not_one, metric_source_incomplete, not_a_number, resume_below_freeze,
  unknown_choice, fast_track_without_soak, no_checks, unnamed_check, no_reasons, no_threshold,
  duplicate_check, invalid_selector, empty_selector, is_choice, Check, if_set,
}

abbrev one_if_set : Option MetricEndpoint → ℕ
one_if_set o = if is_some o then 1 else 0

abbrev is_named : Option String → Bool
is_named none = true
is_named (some n) = not (str_eq n "")

-- The address and the query of prometheus, or the URL and the JSONPath of a webhook.
unfoldable pub validate_endpoint : MetricEndpoint → Check
validate_endpoint p = do
  require (not (str_eq p.address "")) metric_source_incomplete
  require (not (str_eq p.query "")) metric_source_incomplete
  require (is_named p.secret_ref) metric_source_incomplete

unfoldable pub validate_metric_source : MetricSource → Check
unfolding validate_endpoint
validate_metric_source src = do
  require (one_if_set src.prometheus + one_if_set src.webhook == 1) metric_source_not_one
  if_set src.prometheus validate_endpoint
  if_set src.webhook validate_endpoint

abbrev pub is_on_failure : String → Bool
is_on_failure = is_choice "Hold" "Rollback"

module _ {S V F : Type 0} (lib : Libraries S V F) where
  unfoldable pub parse_threshold_value : String → Result AdmissionError F
  parse_threshold_value s = elim (lib.floats.parse_float s) [
    | none ↦ err not_a_number
    | some v ↦ ok v
  ]

  unfoldable pub validate_resume : String → F → Check
  unfolding parse_threshold_value
  validate_resume resume_threshold freeze = do
    resume ← parse_threshold_value resume_threshold
    require (not (lib.floats.less resume freeze)) resume_below_freeze

  unfoldable pub validate_budget : ErrorBudget → Check
  unfolding validate_metric_source parse_threshold_value validate_resume
  validate_budget eb = do
    validate_metric_source eb.source
    freeze ← parse_threshold_value eb.freeze_threshold
    (if str_eq eb.resume_threshold "" then ok tt else validate_resume eb.resume_threshold freeze)
    require (is_choice "Allow" "Hold" eb.on_source_error) (unknown_choice eb.on_source_error)

  unfoldable pub validate_error_budget : StageSet S → Check
  unfolding validate_budget
  validate_error_budget ss = do
    if_set ss.error_budget validate_budget
    for_each (λ s. if_set s.error_budget validate_budget) ss.stages

  -- The loop over the restart checks, with the names that it has seen.
  unfoldable pub validate_restart_checks : List String → List (RestartCheck S) → Check
  validate_restart_checks seen [] = ok tt
  validate_restart_checks seen (c ∷ cs) = do
    require (not (str_eq c.name "")) unnamed_check
    require (not (contains c.name seen)) (duplicate_check c.name)
    require (lib.parses c.selector) (invalid_selector c.name)
    require (not (lib.is_empty c.selector)) (empty_selector c.name)
    require (is_on_failure c.on_failure) (unknown_choice c.on_failure)
    validate_restart_checks (c.name ∷ seen) cs

  unfoldable pub validate_restart_gate : RestartGate S → Check
  unfolding validate_restart_checks
  validate_restart_gate rg = do
    require (is_on_failure rg.on_failure) (unknown_choice rg.on_failure)
    require (not (length rg.checks == 0)) no_checks
    validate_restart_checks [] rg.checks

  unfoldable pub validate_event_checks : List String → List (EventCheck S) → Check
  validate_event_checks seen [] = ok tt
  validate_event_checks seen (c ∷ cs) = do
    require (not (str_eq c.name "")) unnamed_check
    require (not (contains c.name seen)) (duplicate_check c.name)
    require (lib.parses c.selector) (invalid_selector c.name)
    require (not (lib.is_empty c.selector)) (empty_selector c.name)
    require (not (length c.reasons == 0)) no_reasons
    require (is_on_failure c.on_failure) (unknown_choice c.on_failure)
    validate_event_checks (c.name ∷ seen) cs

  unfoldable pub validate_event_gate : EventGate S → Check
  unfolding validate_event_checks
  validate_event_gate eg = do
    require (is_on_failure eg.on_failure) (unknown_choice eg.on_failure)
    require (not (length eg.checks == 0)) no_checks
    validate_event_checks [] eg.checks

  abbrev is_number : Option String → Check
  is_number o = if_set o λ s. parse_threshold_value s >>= λ _. ok tt

  unfoldable pub validate_threshold_bounds : Threshold → Check
  unfolding parse_threshold_value
  validate_threshold_bounds th = do
    require (is_some th.min || is_some th.max) no_threshold
    is_number th.min
    is_number th.max

  unfoldable pub validate_analysis_checks : List String → List AnalysisCheck → Check
  unfolding validate_metric_source validate_threshold_bounds
  validate_analysis_checks seen [] = ok tt
  validate_analysis_checks seen (c ∷ cs) = do
    require (not (str_eq c.name "")) unnamed_check
    require (not (contains c.name seen)) (duplicate_check c.name)
    validate_metric_source c.source
    validate_threshold_bounds c.threshold
    validate_analysis_checks (c.name ∷ seen) cs

  unfoldable pub validate_analysis : Analysis → Check
  unfolding validate_analysis_checks
  validate_analysis an = do
    require (not (length an.checks == 0)) no_checks
    validate_analysis_checks [] an.checks
    require (is_on_failure an.on_failure) (unknown_choice an.on_failure)
    require (is_choice "Hold" "Allow" an.on_source_error) (unknown_choice an.on_source_error)

  -- `Soak != nil && Soak.Duration > 0`
  abbrev has_soak : Option ℤ → Bool
  has_soak none = false
  has_soak (some d) = ltb_ℤ (pos 0) d

  unfoldable pub validate_fast_track : Option ℤ → FastTrack → Check
  unfolding validate_metric_source parse_threshold_value
  validate_fast_track soak ft = do
    require (has_soak soak) fast_track_without_soak
    validate_metric_source ft.source
    parse_threshold_value ft.max >>= λ _. ok tt

  unfoldable pub validate_stage_promotion : PromotionSpec S → Check
  unfolding validate_fast_track validate_restart_gate validate_event_gate validate_analysis
  validate_stage_promotion p = do
    if_set p.fast_track (validate_fast_track p.soak)
    if_set p.restart_gate validate_restart_gate
    if_set p.event_gate validate_event_gate
    if_set p.analysis validate_analysis

  unfoldable pub validate_promotion : StageSet S → Check
  unfolding validate_stage_promotion
  validate_promotion ss = for_each (λ s. if_set s.promotion validate_stage_promotion) ss.stages
