-- ===== src/Promotion/Gate/Tests.antt =====
-- internal/controller/promotion.go on a stage that soaks for 100 s and asks for no approval.
use stageset_controller.Prelude.{
  ℕ, ◌+◌, ◌≤◌, String, ◌≡◌, refl, ◌↔◌, true, false, Option, none, some, [], ◌∷◌, arith, pos, cut,
  to_second,
}
use stageset_controller.Promotion.{
  StagePromotion, Verdict, StageStatus, Pass, carry_soak_until, phase_since, promote_token_for,
  requeue_for_window, analysis_interval,
}
use stageset_controller.Promotion.Gate.{
  analyse, soak_since, fast_tracked, gate_manual, gate_analysis, gate_soak, gate_failure,
  gate_checks, gate_stage, gate_promotion, is_promoted,
}
use stageset_controller.Promotion.Gate.Conditions.{gate_promotion_iff, MayAdvance}
use stageset_controller.Promotion.Gate.Lifecycle.{settle, stored_state, advances_again}
use stageset_controller.Checks.{RestartObservation}
use stageset_controller.Promotion.Gate.Soak.{History, arrives, again, History-promoted}

abbrev restarts : Option RestartObservation
restarts = some (record {
  verdict = none;
  baseline = record { name = "pods"; restarts = pos 3 } ∷ [];
  totals = record { name = "pods"; restarts = pos 4 } ∷ [];
})

abbrev policy : StagePromotion
policy = record {
  soak = some (pos 100000000000);
  require_manual_promotion = false;
  analysis = none;
  fast_track = none;
}

abbrev new_stage : StageStatus
new_stage = record { applied_revision = "v1"; promotion_state = none; last_handled_promotion = "" }

abbrev pass : ℕ → Option Verdict → String → Pass
pass now restart annotation = record {
  annotation = annotation;
  now = now;
  verdict = record { result = none; breached = false; source_err = false };
  fast_track_ok = false;
  restart = restart;
  event = none;
  retry_interval = pos 7;
}

abbrev crashing : Option Verdict
crashing = some (record { check = "pods"; observed = pos 9; rollback = false })

program : Unit {0}
unfolding gate_promotion gate_stage gate_checks gate_failure gate_soak gate_analysis gate_manual
    analyse soak_since fast_tracked carry_soak_until phase_since requeue_for_window
    analysis_interval promote_token_for cut settle stored_state to_second
program = tt

-- Soaking from 1000.5 s on, blocked at 1050.5 s, released at 1099.5 s: the deadline is 1100 s.
abbrev first : StageStatus
first =
    settle "v2" restarts
      (gate_promotion "web" (some policy) "v2" new_stage (pass 1000500000000 none "")) none

abbrev second_pass : StageStatus
second_pass =
    settle "v2" restarts
      (gate_promotion "web" (some policy) "v2" first (pass 1050500000000 crashing "")) none

abbrev third : StageStatus
third =
    settle "v2" restarts
      (gate_promotion "web" (some policy) "v2" second_pass (pass 1100500000000 none "")) none

third_promoted : is_promoted third.promotion_state ≡ true
unfolding program
third_promoted = refl

released_early :
    (gate_promotion "web" (some policy) "v2" second_pass (pass 1099500000000 none "")).advances
    ≡ false
unfolding program
released_early = refl

History-third : History "web" policy "v2" 1000500000000 third 1100500000000
unfolding program
History-third =
    again (pass 1100500000000 none "") restarts
      (again (pass 1050500000000 crashing "") restarts
        (arrives new_stage (pass 1000500000000 none "") restarts refl refl refl) refl (omega arith))
      refl (omega arith)

History-promoted_example : to_second (1000500000000 + 100000000000) ≤ 1100500000000
History-promoted_example =
    History-promoted "web" policy "v2" 1000500000000 refl History-third third_promoted

-- The deadline of 1100.5 s is met at 1100 s.
met_early :
    (gate_promotion "web" (some policy) "v2" second_pass (pass 1100000000000 none "")).advances
    ≡ true
unfolding program
met_early = refl

gate_promotion_iff_example :
    ((gate_promotion "web" (some policy) "v2" second_pass (pass 1100500000000 none "")).advances
      ≡ true)
    ↔ MayAdvance "web" policy "v2" second_pass (pass 1100500000000 none "")
gate_promotion_iff_example =
    gate_promotion_iff "web" policy "v2" second_pass (pass 1100500000000 none "")

advances_again_example :
    gate_promotion "web" (some policy) "v2" third (pass 2000500000000 crashing "") ≡ record {
      advances = true;
      state = third.promotion_state;
      requeue = pos 0;
      handled = "";
      rollback = false;
    }
unfolding program
advances_again_example =
    advances_again "web" policy "v2" second_pass (pass 1100500000000 none "") restarts refl
      (pass 2000500000000 crashing "")
