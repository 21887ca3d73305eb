-- ===== src/Metric.antt =====
-- api/v1/metricsource_types.go and the threshold test of internal/metricsource/metricsource.go. Floating
-- point numbers and their parsing are the record `Floats`, over a type `F`.
use stageset_controller.Prelude.{String, Bool, true, false, not, Option, none, some, if◌then◌else◌}

pub record MetricEndpoint : Type 0 where
  pub address : String
  pub query : String
  pub secret_ref : Option String

pub record MetricSource : Type 0 where
  pub prometheus : Option MetricEndpoint
  pub webhook : Option MetricEndpoint

pub record Threshold : Type 0 where
  pub min : Option String
  pub max : Option String

-- strconv.ParseFloat, < and strconv.FormatFloat.
pub record Floats (F : Type 0) : Type 0 where
  pub parse_float : String → Option F
  pub less : F → F → Bool
  pub format_float : F → String

module _ {F : Type 0} (fl : Floats F) where
  -- The test of the upper bound, after the lower one is met.
  below_max : Option String → F → Option Bool
  below_max none value = some true
  below_max (some s) value = elim (fl.parse_float s) [
    | none ↦ none
    | some most ↦ some (not (fl.less most value))
  ]

  -- ThresholdSatisfied; `none` is the error of a malformed bound.
  unfoldable pub threshold_satisfied : Threshold → F → Option Bool
  unfolding below_max
  threshold_satisfied th value = elim th.min [
    | none ↦ below_max th.max value
    | some s ↦ elim (fl.parse_float s) [
      | none ↦ none
      | some least ↦ if fl.less value least then some false else below_max th.max value
    ]
  ]
