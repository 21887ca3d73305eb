-- ===== src/Prelude/Time.antt =====
-- Instants as a status keeps them: `metav1.Time` is written in whole seconds.
use Prim.Native.Nat.{ℕ, ◌+◌, ◌*◌, ◌/◌, ◌≤◌, ◌<◌}
use mathlib.Core.Option.{Option, none, some}
use mathlib.Core.Path.{◌≡◌}
use native.Mathlib.Omega.{arith}

-- The nanoseconds of a second.
abbrev pub second : ℕ
second = 1000000000

unfoldable pub to_second : ℕ → ℕ
to_second t = t / second * second

pub to_second_le : (t : ℕ) → to_second t ≤ t
unfolding to_second
to_second_le t = omega arith

-- Less than a second is lost.
pub to_second_near : (t : ℕ) → t < to_second t + second
unfolding to_second
to_second_near t = omega arith

pub to_second_mono : (t u : ℕ) → t ≤ u → to_second t ≤ to_second u
unfolding to_second
to_second_mono t u h = omega arith

pub to_second_stays : (t : ℕ) → to_second (to_second t) ≡ to_second t
unfolding to_second
to_second_stays t = omega arith

abbrev pub stored_time : Option ℕ → Option ℕ
stored_time none = none
stored_time (some t) = some (to_second t)
