-- ===== src/Promotion.antt =====
-- internal/controller/promotion.go: the gate that decides whether a stage that was just applied and
-- is healthy may advance the rollout. The types are those of api/v1/stageset_types.go. A `*metav1.Time`
-- is an optional instant, a duration an integer number of nanoseconds, an absent annotation "".
pub mod Gate
use stageset_controller.Prelude.{
  ℕ, ◌*◌, String, str_eq, Bool, true, false, ◌||◌, Option, none, some, List, [], ◌==◌,
  if◌then◌else◌, ℤ, ltb_ℤ, sub_ℕ, pos, ok, cut,
}

pub data Phase : Type 0 where
  soaking analyzing blocked awaiting_manual promoted : Phase

pub record AnalysisCheckResult : Type 0 where
  pub name : String
  pub value : String
  pub ok : Bool
  pub error : String

pub record AnalysisResult : Type 0 where
  pub time : ℕ
  pub passed : Bool
  pub checks : List AnalysisCheckResult

pub record RestartCheckBaseline : Type 0 where
  pub name : String
  pub restarts : ℤ  -- int32

pub record PromotionState : Type 0 where
  pub phase : Phase
  pub since : Option ℕ
  pub soak_until : Option ℕ
  pub analysis_failures : ℤ  -- int32
  pub restart_check : String
  pub observed_restarts : ℤ
  pub restart_baseline : List RestartCheckBaseline
  pub event_check : String
  pub observed_events : ℤ
  pub aborted_revision : String
  pub last_analysis : Option AnalysisResult

-- The state that a literal `&PromotionState{Phase: phase, Since: since}` makes.
abbrev pub in_phase : Phase → Option ℕ → PromotionState
in_phase phase since = record {
  phase = phase;
  since = since;
  soak_until = none;
  analysis_failures = pos 0;
  restart_check = "";
  observed_restarts = pos 0;
  restart_baseline = [];
  event_check = "";
  observed_events = pos 0;
  aborted_revision = "";
  last_analysis = none;
}

pub record PromotionAnalysis : Type 0 where
  pub interval : Option ℤ
  pub failure_limit : Option ℤ
  pub on_failure : String
  pub on_source_error : String
  pub dry_run : Bool

-- The gate reads of `fastTrack` only its minimum soak.
pub record StagePromotion : Type 0 where
  pub soak : Option ℤ
  pub require_manual_promotion : Bool
  pub analysis : Option PromotionAnalysis
  pub fast_track : Option (Option ℤ)

pub record AnalysisVerdict : Type 0 where
  pub result : Option AnalysisResult
  pub breached : Bool
  pub source_err : Bool

-- restartVerdict and eventVerdict.
pub record Verdict : Type 0 where
  pub check : String
  pub observed : ℤ
  pub rollback : Bool

-- What the gate reads of a stage's status.
pub record StageStatus : Type 0 where
  pub applied_revision : String
  pub promotion_state : Option PromotionState
  pub last_handled_promotion : String

-- The facts that one reconcile hands to the gate.
pub record Pass : Type 0 where
  pub annotation : String
  pub now : ℕ
  pub verdict : AnalysisVerdict
  pub fast_track_ok : Bool
  pub restart : Option Verdict
  pub event : Option Verdict
  pub retry_interval : ℤ

pub record Outcome : Type 0 where
  pub advances : Bool
  pub state : Option PromotionState
  pub requeue : ℤ
  pub handled : String
  pub rollback : Bool

abbrev pub rank : Phase → ℕ
rank soaking = 0
rank analyzing = 1
rank blocked = 2
rank awaiting_manual = 3
rank promoted = 4

abbrev pub same_phase : Phase → Phase → Bool
same_phase a b = rank a == rank b

unfoldable pub parse_promote : String → String × String
parse_promote v = if str_eq v "" then ("", "") else elim (cut b'@' v) [
  | none ↦ ("", "")
  | some (name, tok) ↦ if str_eq name "" || str_eq tok "" then ("", "") else (name, tok)
]

unfoldable pub promote_token_for : String → String → String
unfolding parse_promote
promote_token_for annotation stage =
    let (name, token) = parse_promote annotation in if str_eq name stage then token else ""

abbrev pub past_soak : Phase → Bool
past_soak analyzing = true
past_soak awaiting_manual = true
past_soak promoted = true
past_soak _ = false

-- `sameRevision && priorState != nil`, with the state.
abbrev pub carried : Option PromotionState → Bool → Option PromotionState
carried prior same = if same then prior else none

unfoldable pub carry_soak_until : PromotionState → Option PromotionState → Bool → PromotionState
carry_soak_until s prior same = elim (carried prior same) [
  | none ↦ s
  | some p ↦ elim p.soak_until [ none ↦ s | some u ↦ record s { soak_until = some u } ]
]

unfoldable pub phase_since : Option PromotionState → Bool → Phase → ℕ → Option ℕ
phase_since prior same phase now = elim (carried prior same) [
  | none ↦ some now
  | some p ↦ elim p.since [
    | none ↦ some now
    | some since ↦ if same_phase p.phase phase then some since else some now
  ]
]

unfoldable pub fast_track_after : Option ℤ → ℤ
fast_track_after none = pos 0
fast_track_after (some after) = after

unfoldable pub analysis_interval : ℤ → Option PromotionAnalysis → ℤ
analysis_interval retry none = retry
analysis_interval retry (some an) = elim an.interval [
  | none ↦ retry
  | some d ↦ if ltb_ℤ (pos 0) d then d else retry
]

abbrev pub second : ℕ
second = 1000000000

unfoldable pub requeue_for_window : ℕ → ℕ → ℤ → ℤ
requeue_for_window next_change now fallback =
    let d = sub_ℕ next_change now in
    if next_change == 0
    then fallback
    else if ltb_ℤ d (pos (5 * second))
    then pos (5 * second)
    else if ltb_ℤ (pos (3600 * second)) d
    then pos (3600 * second)
    else d
