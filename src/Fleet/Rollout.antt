-- ===== src/Fleet/Rollout.antt =====
-- internal/controller/fleetrollout_controller.go, reconcile past its guards: the waves' statuses, the
-- walk over the waves, the halt and the approvals.
use stageset_controller.Prelude.{
  ℕ, ◌-◌, String, str_eq, Bool, true, false, not, ◌&&◌, ◌||◌, Option, none, some, List, [], ◌∷◌,
  ◌++◌, map, ltb, leb, if◌then◌else◌, is_some, ℤ, add_duration, pos, stored_time,
}
use stageset_controller.Metric.{MetricSource, Floats, threshold_satisfied}
use stageset_controller.Fleet.{
  Health, passing, failing, unknown, FleetWaveGate, FleetWave, FleetRolloutSpec, FleetWaveStatus,
  FleetPhase, halted, in_progress, completed, FleetReason, progressing, rollout_completed,
  rollout_halted, FleetRolloutStatus, Member, fleet_requeue_interval, wave_status,
  fleet_approval_version,
}

-- One write of an annotation of the StageSet `namespace`/`name`.
pub data Patch : Type 0 where
  approve_version : (namespace name version : String) → Patch
  roll_back_to : (namespace name version : String) → Patch

-- A wave of the spec with the members that its selector matches.
pub record Group (L : Type 0) : Type 0 where
  pub wave : FleetWave L
  pub members : List Member

pub data Requeue : Type 0 where
  no_requeue : Requeue
  requeue_after : ℕ → Requeue
  failed_call : Requeue

-- What a pass leaves: the status, the writes it issued, and when it runs again.
pub record FleetOutcome : Type 0 where
  pub status : FleetRolloutStatus
  pub patches : List Patch
  pub requeue : Requeue

-- A loop of r.Patch calls that stops at the first that fails.
pub record Stamped : Type 0 where
  pub patches : List Patch
  pub failed : Bool

-- approve: nothing to write where the target is empty or already approved.
unfoldable pub approve : String → Member → List Patch
approve target m =
    if str_eq target "" || str_eq m.approved_version target
    then []
    else approve_version m.namespace m.name target ∷ []

-- rollbackMember
unfoldable pub rollback_member : String → Member → List Patch
rollback_member version m =
    if str_eq m.rollback_to version then [] else roll_back_to m.namespace m.name version ∷ []

-- `accepts` is whether the API server takes a write.
unfoldable pub stamp : (Patch → Bool) → List Patch → Stamped
stamp accepts [] = record { patches = []; failed = false }
stamp accepts (p ∷ ps) =
    let rest = stamp accepts ps in
    if accepts p
    then record { patches = p ∷ rest.patches; failed = rest.failed }
    else record { patches = []; failed = true }

unfoldable pub concat_map {ℓ κ} : {A : Type ℓ} {B : Type κ} → (A → List B) → List A → List B
concat_map f [] = []
concat_map f (x ∷ xs) = f x ++ concat_map f xs

-- `prior[name]`: the map is filled in order, so the last status of a name is the one it holds.
unfoldable pub prior_status : String → List FleetWaveStatus → Option FleetWaveStatus
prior_status name [] = none
prior_status name (w ∷ ws) = elim (prior_status name ws) [
  | some p ↦ some p
  | none ↦ if str_eq w.name name then some w else none
]

-- The deadline of a persisted status, which the API server keeps in whole seconds.
abbrev pub soak_of : Option FleetWaveStatus → Option ℕ
soak_of none = none
soak_of (some p) = stored_time p.soak_until

abbrev pub health_of : Option FleetWaveStatus → Option Health
health_of none = none
health_of (some p) = p.health

abbrev pub zero_if_unset : Option ℤ → ℤ
zero_if_unset none = pos 0
zero_if_unset (some d) = d

-- The first wave that settled with its soak still to run decides the wake-up.
unfoldable pub requeue_in : ℕ → List FleetWaveStatus → ℕ
requeue_in now [] = fleet_requeue_interval
requeue_in now (ws ∷ rest) =
    let later = requeue_in now rest in
    elim ws.soak_until [
      | none ↦ later
      | some until ↦
          if ws.settled && ltb now until && ltb (until - now) fleet_requeue_interval
          then until - now
          else later
    ]

abbrev pub is_passing : Health → Bool
is_passing passing = true
is_passing failing = false
is_passing unknown = false

abbrev pub is_failing : Option Health → Bool
is_failing (some failing) = true
is_failing (some passing) = false
is_failing (some unknown) = false
is_failing none = false

unfoldable pub with_health : Option Health → FleetWaveStatus → FleetWaveStatus
with_health v ws = record {
  name = ws.name;
  total = ws.total;
  at_target = ws.at_target;
  ready = ws.ready;
  settled = ws.settled;
  soak_until = ws.soak_until;
  health = elim v [ some h ↦ some h | none ↦ ws.health ];
}

-- Whether the wave has settled and its soak is over.
unfoldable pub soak_is_over : ℕ → FleetWaveStatus → Bool
soak_is_over now ws = ws.settled && elim ws.soak_until [ none ↦ false | some until ↦ leb until now ]

-- A wave that had begun to soak and is not settled any more.
unfoldable pub is_regressed : {L : Type 0} → List FleetWaveStatus → Group L → FleetWaveStatus → Bool
is_regressed prior g ws = is_some (soak_of (prior_status g.wave.name prior)) && not ws.settled

module _ {L : Type 0} (spec : FleetRolloutSpec L) (prior : List FleetWaveStatus) (now : ℕ) where
  -- The body of the first pass.
  unfoldable pub settle_wave : Group L → FleetWaveStatus
  unfolding wave_status
  settle_wave g =
      let ws = wave_status spec g.wave.name g.members in
      let prev = prior_status g.wave.name prior in
      record {
        name = ws.name;
        total = ws.total;
        at_target = ws.at_target;
        ready = ws.ready;
        settled = ws.settled;
        soak_until =
            if ws.settled
            then elim (soak_of prev) [
              | some until ↦ some until
              | none ↦ some (add_duration now (zero_if_unset g.wave.soak))
            ]
            else none;
        health = health_of prev;
      }

module _ {F : Type 0} (fl : Floats F) (querier : Option (MetricSource → Option F)) where
  -- evalGate: the verdict; an error of the query or of a threshold is `unknown`.
  unfoldable pub eval_gate : FleetWaveGate → Health
  eval_gate gate = elim querier [
    | none ↦ unknown
    | some query ↦ elim (query gate.source) [
      | none ↦ unknown
      | some value ↦ elim (threshold_satisfied fl gate.threshold value) [
        | none ↦ unknown
        | some within ↦ if within then passing else failing
      ]
    ]
  ]

  module _ {L : Type 0} (spec : FleetRolloutSpec L) (prior : List FleetWaveStatus) (now : ℕ) where
    -- The verdict of the wave's gate, where this pass asks for it.
    unfoldable pub gate_verdict : Group L → FleetWaveStatus → Option Health
    unfolding eval_gate soak_is_over
    gate_verdict g ws =
        if soak_is_over now ws
        then elim g.wave.gate [ none ↦ none | some gate ↦ some (eval_gate gate) ]
        else none

    unfoldable pub is_passed : Group L → FleetWaveStatus → Bool
    unfolding gate_verdict
    is_passed g ws = elim (gate_verdict g ws) [ none ↦ soak_is_over now ws | some v ↦ is_passing v ]

    -- The walk's result: the statuses of all waves, the first wave that regressed or failed its gate,
    -- the waves to approve, and the first wave that has not passed.
    pub record Walk : Type 0 where
      pub waves : List FleetWaveStatus
      pub halted_at : Option (Group L)
      pub opened : List (Group L)
      pub first_open : Option (Group L)

    -- The second pass over the waves with their statuses.
    unfoldable pub walk : List (Group L) → Walk
    unfolding is_regressed is_passed with_health gate_verdict settle_wave
    walk [] = record { waves = []; halted_at = none; opened = []; first_open = none }
    walk (g ∷ gs) =
        let ws = settle_wave spec prior now g in
        let rest = walk gs in
        let verdict = gate_verdict g ws in
        if is_regressed prior g ws
        then record {
          waves = ws ∷ map (settle_wave spec prior now) gs;
          halted_at = some g;
          opened = [];
          first_open = none;
        }
        else if is_failing verdict
        then record {
          waves = with_health verdict ws ∷ map (settle_wave spec prior now) gs;
          halted_at = some g;
          opened = [];
          first_open = none;
        }
        else record {
          waves = with_health verdict ws ∷ rest.waves;
          halted_at = rest.halted_at;
          opened = g ∷ (if is_passed g ws then rest.opened else []);
          first_open = if is_passed g ws then rest.first_open else some g;
        }

    abbrev pub approvals : Group L → List Patch
    approvals g = concat_map (λ m. approve (fleet_approval_version spec m) m) g.members

    module _ (accepts : Patch → Bool) (status : FleetRolloutStatus) where
      abbrev pub in_phase :
          FleetPhase → String → List FleetWaveStatus → Bool → FleetReason → FleetRolloutStatus
      in_phase phase current_wave waves is_true reason = record {
        observed_generation = status.observed_generation;
        phase = phase;
        current_wave = current_wave;
        waves = waves;
        ready = some (record { is_true = is_true; reason = reason });
      }

      -- An approval or a rollback that fails ends the pass: only the waves' statuses are kept.
      abbrev pub aborted : List FleetWaveStatus → Stamped → FleetOutcome
      aborted waves s = record {
        status = record {
          observed_generation = status.observed_generation;
          phase = status.phase;
          current_wave = status.current_wave;
          waves = waves;
          ready = status.ready;
        };
        patches = s.patches;
        requeue = failed_call;
      }

      unfoldable pub halt : List FleetWaveStatus → Group L → FleetOutcome
      unfolding stamp concat_map rollback_member
      halt waves g =
          let s = stamp accepts (
            if str_eq spec.on_regression "Rollback" && not (str_eq spec.previous_version "")
            then concat_map (rollback_member spec.previous_version) g.members
            else []) in
          if s.failed then aborted waves s else record {
            status = in_phase halted g.wave.name waves false rollout_halted;
            patches = s.patches;
            requeue = requeue_after fleet_requeue_interval;
          }

      -- reconcile from `now := r.now()` on, for the waves with their members.
      unfoldable pub roll : List (Group L) → FleetOutcome
      unfolding walk halt stamp concat_map approve requeue_in
      roll gs =
          let w = walk gs in
          let s = stamp accepts (concat_map approvals w.opened) in
          elim w.halted_at [
            | some g ↦ halt w.waves g
            | none ↦ if s.failed then aborted w.waves s else elim w.first_open [
              | none ↦ record {
                status = in_phase completed "" w.waves true rollout_completed;
                patches = s.patches;
                requeue = no_requeue;
              }
              | some g ↦ record {
                status = in_phase in_progress g.wave.name w.waves true progressing;
                patches = s.patches;
                requeue = requeue_after (requeue_in now w.waves);
              }
            ]
          ]
