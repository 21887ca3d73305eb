-- ===== src/Window/Tests.antt =====
-- internal/window/window.go on small inputs: a schedule that starts every 100 ns, open for 10 ns.
use stageset_controller.Prelude.{
  ℕ, ◌≡◌, refl, ◌↔◌, inr, true, false, none, some, List, [], ◌∷◌, arith, pos, ok,
}
use stageset_controller.Window.{
  UpdateWindow, eval_window, eval_absolute, eval_recurring, cover, latest_start, add_window, tally,
  decision_at, decision_loop, decision, validate,
}
use stageset_controller.Window.Covering.{cover_iff, Covers}
use stageset_controller.Window.Boundary.{HaveCalendars}
use stageset_controller.Window.Sample.{every_hundred, is_hundred, cron, hundred-IsSchedule}
use stageset_controller.Window.Change.{decision_constant}
use stageset_controller.Window.Policy.{permits, decision_at-permits}

abbrev freeze : UpdateWindow
freeze = record {
  type = "Deny";
  schedule = "0 * * * *";
  duration = some (pos 10);
  time_zone = "";
  from = none;
  to = none;
}

abbrev season : UpdateWindow
season = record {
  type = "Allow";
  schedule = "";
  duration = none;
  time_zone = "";
  from = some 200;
  to = some 900;
}

abbrev windows : List UpdateWindow
windows = freeze ∷ season ∷ []

windows-HaveCalendars : HaveCalendars cron (λ s z. is_hundred) 1000000 windows
windows-HaveCalendars = ((λ h. hundred-IsSchedule), ((λ h. hundred-IsSchedule), tt))

program : Unit {0}
unfolding decision decision_loop decision_at tally add_window eval_window eval_absolute
    eval_recurring cover latest_start validate
program = tt

decision-windows : decision cron windows 305 ≡ ok (false, 310)
unfolding program
decision-windows = refl

decision_at-windows : decision_at cron windows 305 ≡ ok (false, 310)
unfolding program
decision_at-windows = refl

validate-season :
    validate cron (record season { to = none } ∷ []) 7
    ≡ some stageset_controller.Window.absolute_incomplete
unfolding program
validate-season = refl

cover_iff_example : ((cover every_hundred 10 305).0 ≡ true) ↔ ((u : ℕ) × Covers is_hundred 10 305 u)
cover_iff_example = cover_iff hundred-IsSchedule 10 305 (omega arith)

decision_constant_example : (b : ℕ) × (decision_at cron windows 309 ≡ ok (false, b))
decision_constant_example =
    decision_constant cron (λ s z. is_hundred) 1000000 windows windows-HaveCalendars 305 309 false
      310 decision-windows (omega arith) (inr (omega arith)) (omega arith)

decision_at-permits_example : false ≡ permits cron 305 windows
decision_at-permits_example = decision_at-permits cron windows 305 decision_at-windows
