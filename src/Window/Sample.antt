-- ===== src/Window/Sample.antt =====
-- A schedule for the tests of windows: it starts every 100 ns, as `0 * * * *` does every hour.
use stageset_controller.Prelude.{ℕ, ◌+◌, ◌*◌, ◌/◌, ◌%◌, Bool, true, ◌&&◌, arith, ltb, ◌==◌}
use stageset_controller.Window.{Cron}
use stageset_controller.Window.Covering.{IsSchedule}

abbrev pub every_hundred : ℕ → ℕ
every_hundred t = (t / 100 + 1) * 100

abbrev pub is_hundred : ℕ → Bool
is_hundred u = (u % 100 == 0) && ltb 0 u

abbrev pub cron : Cron
cron = record { load_location = λ z. true; parse_standard = λ s. true; next = λ s z. every_hundred }

pub hundred-IsSchedule : IsSchedule every_hundred is_hundred 1000000
hundred-IsSchedule = record {
  later = λ t h. omega arith;
  activates = λ t h. ground arith;
  least = λ t u h lt f. ground arith;
  found = λ t u lt le f. omega arith;
}
