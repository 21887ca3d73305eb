-- ===== src/Preview.antt =====
-- internal/actionplan/verdict.go, ActionVerdicts: what a preview says of each action of a stage, and
-- internal/actionplan/version.go, the object that carries the version. The reasons are left out.
pub mod Agreement
mod Tests
use stageset_controller.Prelude.{
  ℕ, ◌+◌, String, str_eq, Bool, not, ◌&&◌, ◌||◌, Option, none, some, List, [], ◌∷◌, ◌++◌, map, ◌==◌,
  if◌then◌else◌, length, contains, Result, ok, err,
}
use stageset_controller.Ladder.{Action}
use stageset_controller.Lifetime.{
  AnchorWitness, AnchorRead, LedgerCompletion, LifetimeGate, evaluate_lifetime_gate,
}
use stageset_controller.Stages.{Stage, StageStatus}
use stageset_controller.Stages.Pass.{scope_of, scope_in}

pub data RunState : Type 0 where
  will_run skip re_run : RunState

pub record ActionVerdict : Type 0 where
  pub stage : String
  pub phase : String
  pub name : String
  pub scope : String
  pub state : RunState

pub record VerdictInputs : Type 0 where
  pub revision : String
  pub versioned : Bool
  pub desired_version : String
  pub current_version : String
  pub prior : StageStatus
  pub lifetime : List LedgerCompletion

-- The sets that the verdicts consult.
pub record Consulted : Type 0 where
  pub rev_done : List String
  pub ver_done : List String
  pub baseline : Bool
  pub gate : LifetimeGate

unfoldable pub consult : (AnchorWitness → AnchorRead) → String → VerdictInputs → Consulted
unfolding evaluate_lifetime_gate
consult read stage i = record {
  rev_done =
      if not (str_eq i.revision "") && str_eq i.prior.ledger_revision i.revision
      then i.prior.executed_actions
      else [];
  ver_done =
      if i.versioned && str_eq i.prior.ledger_version i.desired_version
      then i.prior.executed_version_actions
      else [];
  baseline = i.versioned && str_eq i.current_version "";
  gate = evaluate_lifetime_gate read i.lifetime stage;
}

-- The switch over the scope of an action.
unfoldable pub classify : Consulted → String → String → RunState
classify c scope name =
    if str_eq scope "Lifetime"
    then (if contains name c.gate.invalidated
        then re_run
        else if contains name c.gate.done
        then skip
        else will_run)
    else if str_eq scope "Version"
    then (if contains name c.ver_done then skip else if c.baseline then skip else will_run)
    else (if contains name c.rev_done then skip else will_run)

unfoldable pub action_verdicts :
    (AnchorWitness → AnchorRead) → Stage → VerdictInputs → List ActionVerdict
unfolding consult classify scope_in
action_verdicts read s i =
    let c = consult read s.name i in
    let verdict : String → Action → ActionVerdict = λ phase a. record {
      stage = s.name;
      phase = phase;
      name = a.name;
      scope = scope_of s a.name;
      state = classify c (scope_of s a.name) a.name;
    } in
    map (verdict "pre") s.pre ++ map (verdict "post") s.post

pub data VersionError : Type 0 where
  no_stages unknown_stage : VersionError

-- VersionStageIndex, over the names of the stages.
unfoldable pub index_from : ℕ → List String → String → Result VersionError ℕ
index_from i [] ref = err unknown_stage
index_from i (n ∷ ns) ref =
    let rest = index_from (i + 1) ns ref in if str_eq n ref then ok i else rest

unfoldable pub version_stage_index : List String → String → Result VersionError ℕ
unfolding index_from
version_stage_index stages ref =
    if str_eq ref ""
    then (if length stages == 0 then err no_stages else ok 0)
    else index_from 0 stages ref

-- What FindVersionObject reads of a rendered object and of the reference.
pub record Versioned : Type 0 where
  pub api_version : String
  pub kind : String
  pub name : String

unfoldable pub find_version_object : List Versioned → Versioned → Option Versioned
find_version_object [] ref = none
find_version_object (o ∷ os) ref =
    let rest = find_version_object os ref in
    if not (str_eq o.kind ref.kind) || not (str_eq o.name ref.name)
    then rest
    else if not (str_eq ref.api_version "") && not (str_eq o.api_version ref.api_version)
    then rest
    else some o
