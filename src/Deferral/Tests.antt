-- ===== src/Deferral/Tests.antt =====
-- internal/controller/windows.go on a rollout with one Deny window, open for 10 ns from each multiple of 100.
use stageset_controller.Prelude.{
  String, ◌≡◌, refl, true, false, none, some, List, [], ◌∷◌, arith, pos, ok,
}
use stageset_controller.Window.{
  UpdateWindow, decision, decision_at, decision_loop, tally, add_window, eval_window,
  eval_recurring, cover, latest_start,
}
use stageset_controller.Window.Sample.{is_hundred, cron, hundred-IsSchedule}
use stageset_controller.Promotion.{requeue_for_window}
use stageset_controller.Deferral.{
  Rollout, Resolved, DeliveryStatus, fresh_override, defer, decided, after_decision,
  gate_update_windows,
}
use stageset_controller.Deferral.Holding.{IsHeld, deferred_iff, held_until_change}

abbrev freeze : UpdateWindow
freeze = record {
  type = "Deny";
  schedule = "0 * * * *";
  duration = some (pos 10);
  time_zone = "";
  from = none;
  to = none;
}

abbrev rollout : String → Rollout
rollout token = record {
  update_windows = freeze ∷ [];
  window_scope = "";
  update_now = token;
  generation = 4;
}

abbrev resolved : List Resolved
resolved = record { key = "team/app"; revision = "v2" } ∷ []

abbrev status : DeliveryStatus
status = record {
  last_handled_update_override = "a";
  pending_update = none;
  last_applied_revisions = ("team/app", "v1") ∷ [];
  observed_generation = 3;
  ready = none;
}

program : Unit {0}
unfolding gate_update_windows after_decision decided defer requeue_for_window
program = tt

clock : Unit {0}
unfolding decision decision_loop decision_at tally add_window eval_window eval_recurring cover
    latest_start
clock = tt

frozen : decision cron (freeze ∷ []) 305 ≡ ok (false, 310)
unfolding clock
frozen = refl

held_at_305 :
    (gate_update_windows (rollout "a") resolved (pos 7) cron 305 305 status).deferred ≡ true
unfolding clock program
held_at_305 = refl

-- A token that is not yet handled lets the same pass through.
forced :
    (gate_update_windows (rollout "b") resolved (pos 7) cron 305 305 status).status
    ≡ record status { last_handled_update_override = "b" }
unfolding clock program
forced = refl

deferred_iff_example :
    (fresh_override (rollout "a") status ≡ false) × IsHeld cron (rollout "a") resolved 305 status
deferred_iff_example =
    (deferred_iff cron (rollout "a") resolved (pos 7) 305 305 status).0 held_at_305

abbrev held : DeliveryStatus
held = (gate_update_windows (rollout "a") resolved (pos 7) cron 305 305 status).status

held_until_change_example :
    (gate_update_windows (rollout "a") resolved (pos 7) cron 309 309 held).deferred ≡ true
held_until_change_example =
    (held_until_change cron (rollout "a") resolved (pos 7) (λ s z. is_hundred) 1000000
      ((λ h. hundred-IsSchedule), tt) 305 305 status false 310 309 309 frozen held_at_305
      (omega arith) (omega arith) (omega arith) (omega arith, tt)).1

released : (gate_update_windows (rollout "a") resolved (pos 7) cron 310 310 held).deferred ≡ false
unfolding clock program
released = refl
