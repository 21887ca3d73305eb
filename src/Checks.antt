-- ===== src/Checks.antt =====
-- internal/controller/restartgate.go and eventgate.go: the restart and event checks of a stage's
-- promotion gate, over the pods that a check's selector matches on the stage's target. The selectors
-- and the lists of the API server are the record `Target`.
pub mod Baseline
pub mod Events
mod Tests
use stageset_controller.Prelude.{
  String, str_eq, Bool, not, ◌&&◌, Option, none, some, List, [], ◌∷◌, ◌++◌, map, if◌then◌else◌,
  is_some, get_or_else, keep_if, contains, lookup, ℤ, ltb_ℤ, max_ℤ, add_int32, sub_int32, pos,
  Result, ◌>>=◌, ◌>>◌, ok, err,
}
use stageset_controller.Promotion.{RestartCheckBaseline, PromotionState, Verdict, Outcome}

-- What the checks read of a pod and of an event. A UID is a text.
pub record Pod : Type 0 where
  pub uid : String
  pub terminating : Bool  -- whether DeletionTimestamp is set
  pub init_restarts : List ℤ  -- RestartCount of the init containers, int32
  pub restarts : List ℤ

pub record Event : Type 0 where
  pub uid : String
  pub reason : String
  pub count : ℤ  -- int32

-- api/v1 RestartCheck and EventCheck with the gates that hold them; `S` is a label selector.
pub record RestartCheck (S : Type 0) : Type 0 where
  pub name : String
  pub selector : S
  pub max_restarts : ℤ
  pub on_failure : String

pub record RestartGate (S : Type 0) : Type 0 where
  pub checks : List (RestartCheck S)
  pub on_failure : String

pub record EventCheck (S : Type 0) : Type 0 where
  pub name : String
  pub selector : S
  pub reasons : List String
  pub max_events : ℤ
  pub on_failure : String

pub record EventGate (S : Type 0) : Type 0 where
  pub checks : List (EventCheck S)
  pub on_failure : String

-- metav1.LabelSelectorAsSelector and the reads of the target's namespace, with `none` for an error.
-- The events are those of type Warning on pods.
pub record Target (S : Type 0) : Type 0 where
  pub parses : S → Bool
  pub is_empty : S → Bool
  pub pods : S → Option (List Pod)
  pub events : Option (List Event)

pub data ReadError : Type 0 where
  invalid_selector list_pods_failed list_events_failed : ReadError

-- restartObservation, where the stage has a restart gate.
pub record RestartObservation : Type 0 where
  pub verdict : Option Verdict
  pub baseline : List RestartCheckBaseline
  pub totals : List RestartCheckBaseline

abbrev pub no_observation : RestartObservation
no_observation = record { verdict = none; baseline = []; totals = [] }

-- The loop `total += n` of an `int32`.
abbrev pub sum_int32 : ℤ → List ℤ → ℤ
sum_int32 total [] = total
sum_int32 total (n ∷ ns) = sum_int32 (add_int32 total n) ns

-- The restarts of the pods that are not terminating.
unfoldable pub sum_restarts : ℤ → List Pod → ℤ
sum_restarts total [] = total
sum_restarts total (p ∷ ps) =
    sum_restarts
      (if p.terminating then total else sum_int32 (sum_int32 total p.init_restarts) p.restarts) ps

-- The events of one of the pods with one of the reasons; an unset count is one.
unfoldable pub sum_events : List String → List String → ℤ → List Event → ℤ
sum_events uids reasons total [] = total
sum_events uids reasons total (e ∷ es) =
    sum_events uids reasons
      (if contains e.uid uids && contains e.reason reasons
        then add_int32 total (max_ℤ e.count (pos 1))
        else total)
      es

-- The map of priorRestartBaseline: a later entry of a name takes its place.
unfoldable pub baseline_map : List RestartCheckBaseline → List (String × ℤ) → List (String × ℤ)
baseline_map [] m = m
baseline_map (b ∷ bs) m = baseline_map bs ((b.name, b.restarts) ∷ m)

unfoldable pub prior_restart_baseline : Option PromotionState → List (String × ℤ)
unfolding baseline_map
prior_restart_baseline none = []
prior_restart_baseline (some st) = baseline_map st.restart_baseline []

-- `onFailure` of a check, or else of its gate.
abbrev pub rolls_back : String → String → Bool
rolls_back check gate = str_eq (if str_eq check "" then gate else check) "Rollback"

-- max(total-base, 0)
abbrev pub excess : ℤ → ℤ → ℤ
excess total base = max_ℤ (sub_int32 total base) (pos 0)

module _ {S : Type 0} where
  -- The body of the loop over the restart checks, for a check whose total is read.
  unfoldable pub observe :
      RestartGate S
      → List (String × ℤ)
      → RestartCheck S
      → ℤ
      → RestartObservation
      → RestartObservation
  observe gate carried check total obs =
      let base = get_or_else total (lookup check.name carried) in
      record {
        verdict =
            if ltb_ℤ check.max_restarts (excess total base) && not (is_some obs.verdict)
            then some (record {
              check = check.name;
              observed = excess total base;
              rollback = rolls_back check.on_failure gate.on_failure;
            })
            else obs.verdict;
        baseline = obs.baseline ++ record { name = check.name; restarts = base } ∷ [];
        totals = obs.totals ++ record { name = check.name; restarts = total } ∷ [];
      }

module _ {S : Type 0} (t : Target S) where
  unfoldable pub pod_restart_total : S → Result ReadError ℤ
  unfolding sum_restarts
  pod_restart_total sel =
      if not (t.parses sel)
      then err invalid_selector
      else if t.is_empty sel
      then ok (pos 0)
      else elim (t.pods sel) [
        | none ↦ err list_pods_failed
        | some pods ↦ ok (sum_restarts (pos 0) pods)
      ]

  unfoldable pub events_of : List String → List Pod → Result ReadError ℤ
  unfolding sum_events
  events_of reasons [] = ok (pos 0)
  events_of reasons (p ∷ ps) = elim t.events [
    | none ↦ err list_events_failed
    | some events ↦ ok (
        sum_events (map (λ p. p.uid) (keep_if (λ p. not p.terminating) (p ∷ ps))) reasons (pos 0)
          events)
  ]

  unfoldable pub pod_warning_event_total : S → List String → Result ReadError ℤ
  unfolding events_of
  pod_warning_event_total sel reasons =
      if not (t.parses sel)
      then err invalid_selector
      else if t.is_empty sel
      then ok (pos 0)
      else elim (t.pods sel) [ none ↦ err list_pods_failed | some pods ↦ events_of reasons pods ]

  unfoldable pub observe_all :
      RestartGate S
      → List (String × ℤ)
      → List (RestartCheck S)
      → RestartObservation
      → Result (String × ReadError) RestartObservation
  unfolding pod_restart_total observe
  observe_all gate carried [] obs = ok obs
  observe_all gate carried (c ∷ cs) obs = elim (pod_restart_total c.selector) [
    | err e ↦ err (c.name, e)
    | ok total ↦ observe_all gate carried cs (observe gate carried c total obs)
  ]

  -- For a stage without a restart gate, no observation: every field of the source's is nil.
  unfoldable pub evaluate_restart_checks :
      Option (RestartGate S)
      → Option PromotionState
      → Result (String × ReadError) (Option RestartObservation)
  unfolding observe_all prior_restart_baseline
  evaluate_restart_checks none prior = ok none
  evaluate_restart_checks (some gate) prior = do
    obs ← observe_all gate (prior_restart_baseline prior) gate.checks no_observation
    ok (some obs)

  unfoldable pub first_breach :
      EventGate S → List (EventCheck S) → Result (String × ReadError) (Option Verdict)
  unfolding pod_warning_event_total
  first_breach gate [] = ok none
  first_breach gate (c ∷ cs) = elim (pod_warning_event_total c.selector c.reasons) [
    | err e ↦ err (c.name, e)
    | ok total ↦
        let rest = first_breach gate cs in
        if ltb_ℤ c.max_events total
        then ok (
            some (record {
              check = c.name;
              observed = total;
              rollback = rolls_back c.on_failure gate.on_failure;
            }))
        else rest
  ]

  unfoldable pub evaluate_event_checks :
      Option (EventGate S) → Result (String × ReadError) (Option Verdict)
  unfolding first_breach
  evaluate_event_checks none = ok none
  evaluate_event_checks (some gate) = first_breach gate gate.checks

-- What the stage loop stamps on the state that the gate produced: the baseline of a stage that is held,
-- the totals of one that is promoted.
abbrev pub adopted :
    Option RestartObservation → Bool → Option PromotionState → Option PromotionState
adopted none promoted state = state
adopted (some obs) promoted none = none
adopted (some obs) promoted (some st) =
    some (record st { restart_baseline = if promoted then obs.totals else obs.baseline })

abbrev pub adopt : Option RestartObservation → Outcome → Outcome
adopt obs o = record o { state = adopted obs o.advances o.state }

-- `restart = obs.verdict`
abbrev pub verdict_of : Option RestartObservation → Option Verdict
verdict_of none = none
verdict_of (some obs) = obs.verdict
