-- ===== src/Deferral.antt =====
-- internal/controller/windows.go: gateUpdateWindows, which holds a rollout while its update windows are
-- closed. An absent annotation is ""; the write of the status is taken to succeed.
pub mod Holding
mod Tests
use stageset_controller.Prelude.{
  ℕ, String, str_eq, Bool, true, false, not, ◌&&◌, ◌||◌, Option, none, some, List, [], map, ltb,
  ◌==◌, if◌then◌else◌, is_some, get_or_else, length, any, All, lookup, ℤ, pos, Result, ok, err,
}
use stageset_controller.Window.{Cron, UpdateWindow, WindowError, decision}
use stageset_controller.Promotion.{requeue_for_window}

-- What the gate reads of the spec and the metadata.
pub record Rollout : Type 0 where
  pub update_windows : List UpdateWindow
  pub window_scope : String
  pub update_now : String  -- the annotation update-now
  pub generation : ℕ

-- The key and the revision of an artifact.ResolvedArtifact.
pub record Resolved : Type 0 where
  pub key : String
  pub revision : String

-- `revisions` is empty where the map is nil.
pub record PendingUpdate : Type 0 where
  pub revisions : List (String × String)
  pub next_window_opens : Option ℕ

pub data ReadyReason : Type 0 where
  deployed update_deferred invalid_windows : ReadyReason

-- The fields of the status that the gate reads or writes. `ready` is the condition that it sets last.
pub record DeliveryStatus : Type 0 where
  pub last_handled_update_override : String
  pub pending_update : Option PendingUpdate
  pub last_applied_revisions : List (String × String)
  pub observed_generation : ℕ
  pub ready : Option (Bool × ReadyReason)

-- The result, `deferred`, the status, and whether the event of a new deferral is emitted.
pub record WindowGate : Type 0 where
  pub deferred : Bool
  pub requeue : ℤ
  pub status : DeliveryStatus
  pub announced : Bool

-- `token != "" && token != LastHandledUpdateOverride`
abbrev pub fresh_override : Rollout → DeliveryStatus → Bool
fresh_override r s =
    not (str_eq r.update_now "") && not (str_eq r.update_now s.last_handled_update_override)

-- `LastAppliedRevisions[key] != revision`; a missing key reads "".
abbrev pub is_new : DeliveryStatus → Resolved → Bool
is_new s ra = not (str_eq (get_or_else "" (lookup ra.key s.last_applied_revisions)) ra.revision)

abbrev pub revisions_of : List Resolved → List (String × String)
revisions_of = map (λ ra. (ra.key, ra.revision))

abbrev pub is_zero : ℕ → Bool
is_zero t = t == 0

-- The gate lets the rollout through.
abbrev pub proceed : DeliveryStatus → WindowGate
proceed s = record {
  deferred = false;
  requeue = pos 0;
  status = record s { pending_update = none };
  announced = false;
}

module _ (r : Rollout) (resolved : List Resolved) (retry_interval : ℤ) where
  -- The exit for malformed windows.
  abbrev pub refuse : DeliveryStatus → WindowGate
  refuse s = record {
    deferred = true;
    requeue = pos 0;
    status = record s { ready = some (false, invalid_windows); observed_generation = r.generation };
    announced = false;
  }

  -- The deferral: `later` is the second read of the clock.
  unfoldable pub defer : ℕ → Bool → ℕ → DeliveryStatus → WindowGate
  unfolding requeue_for_window
  defer next_change new_revision later s = record {
    deferred = true;
    requeue = requeue_for_window next_change later retry_interval;
    status = record s {
      pending_update = some (record {
        revisions = if new_revision then revisions_of resolved else [];
        next_window_opens = if is_zero next_change then none else some next_change;
      });
      observed_generation = r.generation;
      ready = some (
          if ltb 0 (length s.last_applied_revisions)
          then (true, deployed)
          else (false, update_deferred));
    };
    announced = not (is_some s.pending_update);
  }

  unfoldable pub decided : Bool × ℕ → ℕ → DeliveryStatus → WindowGate
  unfolding defer
  decided (allowed, next_change) later s =
      let new_revision = any (is_new s) resolved in
      if allowed || (not new_revision && not (str_eq r.window_scope "All"))
      then proceed s
      else defer next_change new_revision later s

  unfoldable pub after_decision : Result WindowError (Bool × ℕ) → ℕ → DeliveryStatus → WindowGate
  unfolding decided
  after_decision (err e) later s = refuse s
  after_decision (ok d) later s = decided d later s

  unfoldable pub gate_update_windows : Cron → ℕ → ℕ → DeliveryStatus → WindowGate
  unfolding after_decision
  gate_update_windows c now later s =
      if fresh_override r s
      then proceed (record s { last_handled_update_override = r.update_now })
      else if length r.update_windows == 0
      then proceed s
      else after_decision (decision c r.update_windows now) later s
