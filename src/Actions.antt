-- ===== src/Actions.antt =====
-- internal/actions/actions.go, Run and exec, and internal/controller/actionledger.go: a list of actions is
-- run against the ledger of those that are done. What an attempt does outside is the state `W`.
pub mod Retry
pub mod Ledger
mod Tests
use stageset_controller.Prelude.{
  ℕ, zero, suc, String, str_eq, Bool, true, false, ◌||◌, Option, none, some, List, [], ◌∷◌, ◌++◌,
  if◌then◌else◌, contains, ℤ, pos, negsuc,
}
use stageset_controller.Ladder.{Action}

-- The errors that a retry does not mend, and the others.
pub data ActionError : Type 0 where
  unsupported forbidden_host forbidden_address http_client_status transient : ActionError

abbrev pub is_terminal : ActionError → Bool
is_terminal unsupported = true
is_terminal forbidden_host = true
is_terminal forbidden_address = true
is_terminal http_client_status = true
is_terminal transient = false

-- int(*a.Retries), where it is positive.
abbrev pub retries_of : Option ℤ → ℕ
retries_of none = 0
retries_of (some (pos n)) = n
retries_of (some (negsuc n)) = 0

-- What dispatches an action: the error of the attempt, if it has one, and whether the context is done
-- before the backoff is over.
pub record Dispatcher (W : Type 0) : Type 0 where
  pub dispatch : Action → W → Option ActionError × W
  pub is_done : W → Bool

-- Run's error: an action's own, or that its name could not be recorded.
pub data RunError : Type 0 where
  failed : String → ActionError → RunError
  not_recorded : String → RunError

module _ {W : Type 0} (d : Dispatcher W) where
  -- The loop of exec, with the attempts that are left after this one.
  unfoldable pub attempt : ℕ → Action → W → Option ActionError × W
  attempt zero a w = d.dispatch a w
  attempt (suc left) a w =
      let (e, w') = d.dispatch a w in
      let again = attempt left a w' in
      elim e [
        | none ↦ (none, w')
        | some x ↦ if is_terminal x || d.is_done w' then (some x, w') else again
      ]

  unfoldable pub exec : Action → W → Option ActionError × W
  unfolding attempt
  exec a w = attempt (retries_of a.retries) a w

  -- Run: the error, the names recorded, in order, and the state.
  pub record RunOutcome : Type 0 where
    pub error : Option RunError
    pub recorded : List String
    pub state : W

  -- `finished` are the names done before, and `takes` is whether `record` takes a name.
  unfoldable pub run : (String → Bool) → List String → List Action → W → RunOutcome
  unfolding exec
  run takes finished [] w = record { error = none; recorded = []; state = w }
  run takes finished (a ∷ acts) w =
      let skipped = run takes finished acts w in
      let tried = exec a w in
      let rest = run takes finished acts tried.1 in
      if contains a.name finished then skipped else elim tried.0 [
        | some x ↦ record { error = some (failed a.name x); recorded = []; state = tried.1 }
        | none ↦
            if takes a.name
            then record {
              error = rest.error;
              recorded = a.name ∷ rest.recorded;
              state = rest.state;
            }
            else record { error = some (not_recorded a.name); recorded = []; state = tried.1 }
      ]

-- The execution ledger of a stage.
pub record ActionLedger : Type 0 where
  pub revision : String
  pub executed : List String
  pub version : String
  pub versioned : List String
  pub lifetime_done : List String

-- doneSet
unfoldable pub done_set : ActionLedger → List String
done_set l = l.executed ++ (l.versioned ++ l.lifetime_done)

-- recordFn, for the scope of each action's name.
unfoldable pub record_name : (String → String) → String → ActionLedger → ActionLedger
record_name scope_of name l =
    if str_eq (scope_of name) "Version"
    then record l { versioned = l.versioned ++ (name ∷ []) }
    else record l { executed = l.executed ++ (name ∷ []) }

unfoldable pub record_all : (String → String) → List String → ActionLedger → ActionLedger
unfolding record_name
record_all scope_of [] l = l
record_all scope_of (n ∷ ns) l = record_all scope_of ns (record_name scope_of n l)
