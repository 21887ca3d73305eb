-- ===== src/Fleet.antt =====
-- internal/controller/fleetrollout_controller.go and api/v1/fleetrollout_types.go: the types of a fleet
-- rollout, a member's progress and a wave's status.
pub mod Rollout
pub mod Reconcile
pub mod Settling
pub mod Order
pub mod Soak
pub mod Halt
pub mod Exclusive
mod Tests
use stageset_controller.Prelude.{
  ℕ, ◌-◌, ◌%◌, ◌^◌, String, str_eq, Bool, not, ◌&&◌, Option, none, List, [], ◌∷◌, leb, ◌==◌,
  if◌then◌else◌, length, ℤ, ltb_ℤ, max_int32, incr_int32, pos, negsuc,
}
use stageset_controller.Metric.{MetricSource, Threshold}

pub data Health : Type 0 where
  passing failing unknown : Health

pub record FleetWaveGate : Type 0 where
  pub source : MetricSource
  pub threshold : Threshold

-- `L` is the type of a label selector.
pub record FleetWave (L : Type 0) : Type 0 where
  pub name : String
  pub selector : L
  pub soak : Option ℤ
  pub gate : Option FleetWaveGate

pub record FleetRolloutSpec (L : Type 0) : Type 0 where
  pub target_version : String
  pub selector : L
  pub namespace_selector : Option L
  pub waves : List (FleetWave L)
  pub on_regression : String
  pub previous_version : String

pub record FleetWaveStatus : Type 0 where
  pub name : String
  pub total : ℤ
  pub at_target : ℤ
  pub ready : ℤ
  pub settled : Bool
  pub soak_until : Option ℕ
  pub health : Option Health

pub data FleetPhase : Type 0 where
  not_started in_progress halted completed : FleetPhase

pub data FleetReason : Type 0 where
  progressing rollout_completed members_unassigned invalid_selector members_contested rollout_halted
        gate_unsupported :
      FleetReason

pub record FleetReady : Type 0 where
  pub is_true : Bool
  pub reason : FleetReason

pub record FleetRolloutStatus : Type 0 where
  pub observed_generation : ℕ
  pub phase : FleetPhase
  pub current_wave : String
  pub waves : List FleetWaveStatus
  pub ready : Option FleetReady

pub record FleetRollout (L : Type 0) : Type 0 where
  pub name : String
  pub generation : ℕ
  pub spec : FleetRolloutSpec L
  pub status : FleetRolloutStatus

-- What a rollout reads of a StageSet, and the two annotations it stamps. `pending_revisions` is the
-- length of status.pendingUpdate.revisions, 0 where there is no pending update.
pub record Member : Type 0 where
  pub namespace : String
  pub name : String
  pub labels : List (String × String)
  pub generation : ℕ
  pub observed_generation : ℕ
  pub is_ready : Bool
  pub pending_revisions : ℕ
  pub version : String
  pub pending_version : String
  pub approved_version : String
  pub rollback_to : String

-- 30 * time.Second
abbrev pub fleet_requeue_interval : ℕ
fleet_requeue_interval = 30000000000

-- int32(n)
abbrev pub to_int32 : ℕ → ℤ
to_int32 n =
    if leb (n % 2 ^ 32) max_int32 then pos (n % 2 ^ 32) else negsuc (2 ^ 32 - 1 - n % 2 ^ 32)

abbrev pub eq_ℤ : ℤ → ℤ → Bool
eq_ℤ a b = not (ltb_ℤ a b) && not (ltb_ℤ b a)

-- The counting loop of waveStatus, from the counts so far.
unfoldable pub count_if : (Member → Bool) → List Member → ℤ → ℤ
count_if p [] n = n
count_if p (m ∷ ms) n = count_if p ms (if p m then incr_int32 n else n)

module _ {L : Type 0} (spec : FleetRolloutSpec L) where
  unfoldable pub fleet_adopted : Member → Bool
  fleet_adopted m =
      if not (str_eq spec.target_version "")
      then str_eq m.version spec.target_version
      else str_eq m.pending_version ""

  unfoldable pub fleet_approval_version : Member → String
  fleet_approval_version m =
      if not (str_eq spec.target_version "") then spec.target_version else m.pending_version

  -- memberProgress: whether the member has adopted its version, and whether it is ready.
  unfoldable pub member_progress : Member → Bool × Bool
  unfolding fleet_adopted
  member_progress m = (
    fleet_adopted m,
    m.is_ready && m.observed_generation == m.generation && m.pending_revisions == 0,
  )

  unfoldable pub wave_status : String → List Member → FleetWaveStatus
  unfolding member_progress count_if
  wave_status name members =
      let total = to_int32 (length members) in
      let at_target = count_if (λ m. (member_progress m).0) members (pos 0) in
      let ready = count_if (λ m. (member_progress m).1) members (pos 0) in
      record {
        name = name;
        total = total;
        at_target = at_target;
        ready = ready;
        settled = eq_ℤ at_target total && eq_ℤ ready total;
        soak_until = none;
        health = none;
      }
