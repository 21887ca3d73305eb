-- ===== src/Prelude/Int.antt =====
-- Signed machine integers: `negsuc n` is -(n + 1). An `int32` counter wraps where Go's does.
use Prim.Native.Nat.{ℕ, ◌+◌, ◌-◌, ◌%◌}
use mathlib.Core.Bool.{Bool, true, false}
use stageset_controller.Prelude.Tests.{ltb, ◌==◌, if◌then◌else◌}

pub data ℤ : Type 0 where
  pos : ℕ → ℤ
  negsuc : ℕ → ℤ

-- a < b
abbrev pub ltb_ℤ : ℤ → ℤ → Bool
ltb_ℤ (pos a) (pos b) = ltb a b
ltb_ℤ (pos a) (negsuc b) = false
ltb_ℤ (negsuc a) (pos b) = true
ltb_ℤ (negsuc a) (negsuc b) = ltb b a

-- 2^31 - 1, the largest `int32`.
abbrev pub max_int32 : ℕ
max_int32 = 2147483647

-- a - b, as an integer.
abbrev pub sub_ℕ : ℕ → ℕ → ℤ
sub_ℕ a b = if ltb a b then negsuc (b - a - 1) else pos (a - b)

-- `t.Add(d)` for an instant and a signed duration.
abbrev pub add_duration : ℕ → ℤ → ℕ
add_duration t (pos d) = t + d
add_duration t (negsuc d) = t - (d + 1)

-- `n + 1` on an `int32`.
abbrev pub incr_int32 : ℤ → ℤ
incr_int32 (pos n) = if n == max_int32 then negsuc max_int32 else pos (n + 1)
incr_int32 (negsuc n) = if n == 0 then pos 0 else negsuc (n - 1)

infixl 60 ◌+ℤ◌ ◌-ℤ◌
abbrev pub ◌+ℤ◌ : ℤ → ℤ → ℤ
pos a +ℤ pos b = pos (a + b)
pos a +ℤ negsuc b = sub_ℕ a (b + 1)
negsuc a +ℤ pos b = sub_ℕ b (a + 1)
negsuc a +ℤ negsuc b = negsuc (a + b + 1)

abbrev pub ◌-ℤ◌ : ℤ → ℤ → ℤ
a -ℤ pos b = a +ℤ (if b == 0 then pos 0 else negsuc (b - 1))
a -ℤ negsuc b = a +ℤ pos (b + 1)

-- The larger of two integers.
abbrev pub max_ℤ : ℤ → ℤ → ℤ
max_ℤ a b = if ltb_ℤ a b then b else a

-- The `int32` that a bit pattern stands for, and the `int32` that an integer wraps to.
abbrev pub signed32 : ℕ → ℤ
signed32 w = if ltb max_int32 w then negsuc (4294967296 - w - 1) else pos w

abbrev pub wrap_int32 : ℤ → ℤ
wrap_int32 (pos n) = signed32 (n % 4294967296)
wrap_int32 (negsuc n) = signed32 (4294967295 - n % 4294967296)

-- `a + b` and `a - b` on an `int32`.
abbrev pub add_int32 : ℤ → ℤ → ℤ
add_int32 a b = wrap_int32 (a +ℤ b)

abbrev pub sub_int32 : ℤ → ℤ → ℤ
sub_int32 a b = wrap_int32 (a -ℤ b)
