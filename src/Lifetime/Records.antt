-- ===== src/Lifetime/Records.antt =====
-- internal/controller/lifetimeledger.go, and IsCompleted of api/v1/stageledger_types.go: the completions that a
-- StageLedger records, from its baseline and from the actions that have run.
use stageset_controller.Prelude.{
  ℕ, String, str_eq, Bool, true, false, not, ◌&&◌, ◌||◌, Option, none, some, List, [], ◌∷◌, ◌++◌,
  map, ◌==◌, if◌then◌else◌, is_some, length, any, keep_if, contains, Result, ◌>>=◌, ok, err,
}
use Prim.Native.String.{◌++◌ as str_append}
use stageset_controller.Ladder.{Action, CompletionAnchor}
use stageset_controller.Lifetime.{
  AnchorWitness, LedgerCompletion, executed, baselined, AnchorRead, found, not_found, read_failed,
}

pub record LedgerRef : Type 0 where
  pub stage : String
  pub action : String

-- metav1.Condition, whose status is True or False here.
pub record Condition : Type 0 where
  pub type : String
  pub status : Bool
  pub reason : String
  pub message : String
  pub observed_generation : ℕ
  pub last_transition_time : ℕ

pub record StageLedger : Type 0 where
  pub generation : ℕ
  pub baseline : List LedgerRef
  pub completed_actions : List LedgerCompletion
  pub conditions : List Condition

-- A stage's pre- and post-actions.
pub record LifetimeStage : Type 0 where
  pub name : String
  pub pre : List Action
  pub post : List Action

-- IsCompleted, of the completions.
unfoldable pub is_completed : List LedgerCompletion → String → String → Bool
is_completed cs stage action = any (λ c. str_eq c.stage stage && str_eq c.action action) cs

unfoldable pub effective_scope : Action → String
effective_scope a = if str_eq a.scope "" then "Revision" else a.scope

unfoldable pub stage_lifetime_action_names : LifetimeStage → List String
stage_lifetime_action_names s =
    map (λ a. a.name) (keep_if (λ a. str_eq (effective_scope a) "Lifetime") s.pre)
    ++ map (λ a. a.name) (keep_if (λ a. str_eq (effective_scope a) "Lifetime") s.post)

unfoldable pub is_lifetime_action : List LifetimeStage → String → String → Bool
is_lifetime_action stages stage action =
    any (λ s. str_eq s.name stage && contains action (stage_lifetime_action_names s)) stages

unfoldable pub spec_has_lifetime_actions : List LifetimeStage → Bool
spec_has_lifetime_actions stages =
    any (λ s. not (length (stage_lifetime_action_names s) == 0)) stages

abbrev pub baselined_at : ℕ → LedgerRef → LedgerCompletion
baselined_at now r = record {
  stage = r.stage;
  action = r.action;
  origin = baselined;
  completed_at = now;
  anchor = none;
}

-- The loop of promoteBaseline: the completions, and the names of the entries that resolve to nothing.
unfoldable pub promote_refs :
    List LifetimeStage
    → ℕ
    → List LedgerRef
    → List LedgerCompletion
    → List LedgerCompletion × List String
promote_refs stages now [] cs = (cs, [])
promote_refs stages now (r ∷ rs) cs =
    let held = promote_refs stages now rs cs in
    let grown = promote_refs stages now rs (cs ++ baselined_at now r ∷ []) in
    if not (is_lifetime_action stages r.stage r.action)
    then (held.0, str_append r.stage (str_append "/" r.action) ∷ held.1)
    else if is_completed cs r.stage r.action
    then held
    else grown

-- strings.Join(names, ", ")
abbrev pub join : List String → String
join [] = ""
join (x ∷ []) = x
join (x ∷ y ∷ ys) = str_append x (str_append ", " (join (y ∷ ys)))

-- %q of a StageSet's name, which has no character to escape.
abbrev pub quoted : String → String
quoted s = str_append "\"" (str_append s "\"")

-- The condition that the unresolved entries ask for.
unfoldable pub baseline_condition : String → ℕ → StageLedger → List String → Condition
baseline_condition name now ledger [] = record {
  type = "BaselineValid";
  status = true;
  reason = "AllResolved";
  message = "every spec.baseline entry resolves to a scope: Lifetime action";
  observed_generation = ledger.generation;
  last_transition_time = now;
}
baseline_condition name now ledger (u ∷ us) = record {
  type = "BaselineValid";
  status = false;
  reason = "Unresolved";
  message =
      str_append "spec.baseline entries that resolve to no scope: Lifetime action in StageSet "
        (str_append (quoted name) (str_append ": " (join (u ∷ us))));
  observed_generation = ledger.generation;
  last_transition_time = now;
}

-- The types and messages of a status, as k8s.io/apimachinery keeps them.
pub record Conditions : Type 0 where
  pub find : List Condition → String → Option Condition
  pub set : List Condition → Condition → List Condition × Bool

abbrev same : Bool → Bool → Bool
same a b = if a then b else not b

-- Whether the condition is a transition from the one before.
unfoldable pub transitioned : Option Condition → Condition → Bool
transitioned none c = true
transitioned (some p) c = not (same p.status c.status) || not (str_eq p.message c.message)

-- What a pass over the baseline leaves: the ledger, whether it is written, and the warnings.
pub record Promotion : Type 0 where
  pub ledger : StageLedger
  pub written : Bool
  pub events : List String

module _ (api : Conditions) (name : String) (now : ℕ) where
  -- The Boolean is whether the condition has changed.
  unfoldable pub reconcile_baseline_condition :
      StageLedger → List String → StageLedger × Bool × List String
  reconcile_baseline_condition ledger unresolved =
      let prior = api.find ledger.conditions "BaselineValid" in
      let cond = baseline_condition name now ledger unresolved in
      let (conditions, changed) = api.set ledger.conditions cond in
      if length ledger.baseline == 0 && not (is_some prior) then (ledger, false, []) else (
        record ledger { conditions = conditions },
        changed,
        if transitioned prior cond && not cond.status then cond.message ∷ [] else [],
      )

  -- promoteBaseline of a ledger that exists.
  unfoldable pub promote_baseline : List LifetimeStage → StageLedger → Promotion
  promote_baseline stages ledger =
      let (completions, unresolved) =
        promote_refs stages now ledger.baseline ledger.completed_actions in
      let promoted = record ledger { completed_actions = completions } in
      let (after, changed, events) = reconcile_baseline_condition promoted unresolved in
      record {
        ledger = after;
        written = not (length completions == length ledger.completed_actions) || changed;
        events = events;
      }

pub data RecordError : Type 0 where
  no_ledger anchor_unread : RecordError

-- loadLifetimeLedger, from the answer of the read and whether a new ledger could be created.
pub data LedgerRead : Type 0 where
  ledger_found : StageLedger → LedgerRead
  ledger_missing ledger_failed : LedgerRead

pub data LoadError : Type 0 where
  read_error create_error : LoadError

abbrev pub new_ledger : StageLedger
new_ledger = record { generation = 1; baseline = []; completed_actions = []; conditions = [] }

unfoldable pub load_lifetime_ledger :
    LedgerRead → Bool → List LifetimeStage → Result LoadError (Option StageLedger)
load_lifetime_ledger (ledger_found l) created stages = ok (some l)
load_lifetime_ledger ledger_failed created stages = err read_error
load_lifetime_ledger ledger_missing created stages =
    if not (spec_has_lifetime_actions stages)
    then ok none
    else if created
    then ok (some new_ledger)
    else err create_error

-- The witness of an anchor, which must be there.
unfoldable pub witness_of :
    (CompletionAnchor → AnchorRead)
    → Option CompletionAnchor
    → Result RecordError (Option AnchorWitness)
witness_of read none = ok none
witness_of read (some a) = elim (read a) [
  | found uid ↦
      ok (some (record { api_version = a.api_version; kind = a.kind; name = a.name; uid = uid }))
  | not_found ↦ err anchor_unread
  | read_failed ↦ err anchor_unread
]

-- recordLifetimeCompletion, to the ledger that it writes.
unfoldable pub record_lifetime_completion :
    (CompletionAnchor → AnchorRead)
    → ℕ
    → Option StageLedger
    → String
    → String
    → Option CompletionAnchor
    → Result RecordError StageLedger
record_lifetime_completion read now none stage action anchor = err no_ledger
record_lifetime_completion read now (some l) stage action anchor =
    if is_completed l.completed_actions stage action
    then ok l
    else witness_of read anchor >>= λ w. ok (record l {
      completed_actions =
          l.completed_actions
          ++ record {
            stage = stage;
            action = action;
            origin = executed;
            completed_at = now;
            anchor = w;
          }
            ∷ [];
    })
