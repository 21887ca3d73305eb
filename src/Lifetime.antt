-- ===== src/Lifetime.antt =====
-- internal/actionplan/actionplan.go and internal/controller/anchor.go: the gate of the Lifetime actions, from
-- the completions that a StageLedger holds and the reads of their witnesses.
mod Gate
mod Records
mod Promoted
mod Once
mod Runs
mod Tests
use stageset_controller.Prelude.{
  ℕ, String, str_eq, not, ◌&&◌, Option, none, some, List, [], ◌∷◌, if◌then◌else◌, keep_if, contains,
}

pub record AnchorWitness : Type 0 where
  pub api_version : String
  pub kind : String
  pub name : String
  pub uid : String

pub data LedgerOrigin : Type 0 where
  executed baselined : LedgerOrigin

-- A completion, without its digest, which no code sets.
pub record LedgerCompletion : Type 0 where
  pub stage : String
  pub action : String
  pub origin : LedgerOrigin
  pub completed_at : ℕ
  pub anchor : Option AnchorWitness

-- A read of an anchor's object: its uid, that there is none, or another error.
pub data AnchorRead : Type 0 where
  found : String → AnchorRead
  not_found read_failed : AnchorRead

pub data AnchorState : Type 0 where
  anchor_ok anchor_gone anchor_unreadable : AnchorState

unfoldable pub classify_anchor : Option AnchorWitness → AnchorRead → AnchorState
classify_anchor none read = anchor_ok
classify_anchor (some a) not_found = anchor_gone
classify_anchor (some a) read_failed = anchor_unreadable
classify_anchor (some a) (found uid) = if str_eq uid a.uid then anchor_ok else anchor_gone

pub record LifetimeGate : Type 0 where
  pub done : List String
  pub invalidated : List String
  pub unreadable : List String

-- What the state of a completion adds to the gate.
unfoldable pub add_completion : String → AnchorState → LifetimeGate → LifetimeGate
add_completion action anchor_ok g = record g { done = action ∷ g.done }
add_completion action anchor_unreadable g = record g {
  done = action ∷ g.done;
  unreadable = action ∷ g.unreadable;
}
add_completion action anchor_gone g = record g { invalidated = action ∷ g.invalidated }

module _ (read : AnchorWitness → AnchorRead) where
  -- The state of a completion; without an anchor nothing is read.
  abbrev pub state_of : LedgerCompletion → AnchorState
  state_of c = elim c.anchor [ none ↦ anchor_ok | some a ↦ classify_anchor (some a) (read a) ]

  unfoldable pub evaluate_lifetime_gate : List LedgerCompletion → String → LifetimeGate
  unfolding classify_anchor add_completion
  evaluate_lifetime_gate [] stage = record { done = []; invalidated = []; unreadable = [] }
  evaluate_lifetime_gate (c ∷ cs) stage =
      let rest = evaluate_lifetime_gate cs stage in
      if str_eq c.stage stage then add_completion c.action (state_of c) rest else rest

-- dropCompletions, whose Boolean is whether the list has become shorter.
unfoldable pub drop_completions :
    List LedgerCompletion → String → List String → List LedgerCompletion
drop_completions cs stage actions =
    keep_if (λ c. not (str_eq c.stage stage && contains c.action actions)) cs
