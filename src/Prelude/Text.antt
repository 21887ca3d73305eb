-- ===== src/Prelude/Text.antt =====
-- Go's `strings` functions that the program calls on short texts.
use Prim.Native.Nat.{ℕ}
use Prim.Native.Char.{code}
use Prim.Native.String.{String, ◌++◌ as str_append}
use text.Mathlib.TextLemmas.{nil-append, cons-append}
use mathlib.Core.Path.{◌≡◌}
use native.Mathlib.Omega.{arith}
use mathlib.Core.Option
use mathlib.Core.Option.{Option, none, some}
use stageset_controller.Prelude.Tests.{◌==◌, if◌then◌else◌}

-- `strings.Cut` at the first occurrence of an ASCII character.
unfoldable pub cut : ℕ → String → Option (String × String)
cut sep String.[] = none
cut sep (String.◌∷◌ c s) =
    let rest = cut sep s in
    if code c == sep
    then some ("", s)
    else Option.map (λ (before, after). (String.◌∷◌ c before, after)) rest

-- `strings.CutPrefix`, the prefix first.
unfoldable pub cut_prefix : String → String → Option String
cut_prefix String.[] s = some s
cut_prefix (String.◌∷◌ c p) String.[] = none
cut_prefix (String.◌∷◌ c p) (String.◌∷◌ d s) =
    let rest = cut_prefix p s in if code c == code d then rest else none

-- What follows a prefix is what was appended to it.
pub cut_prefix-append : (p s : String) → cut_prefix p (str_append p s) ≡ some s
unfolding cut_prefix
cut_prefix-append String.[] s = rw (nil-append s)
cut_prefix-append (String.◌∷◌ c p) s =
    rw (cons-append c p s) (ground (arith, cut_prefix-append p s))
