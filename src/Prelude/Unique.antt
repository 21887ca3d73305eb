-- ===== src/Prelude/Unique.antt =====
-- Lists of texts without repetition, and the loop that keeps the texts it has seen.
use Prim.Native.String.{String}
use mathlib.Core.Path.{◌≡◌, refl}
use mathlib.Core.Logic.{◌↔◌}
use mathlib.Core.Bool.{false}
use mathlib.Core.List.{List, [], ◌∷◌}
use native.Mathlib.Omega.{arith}
use text.Mathlib.Text.{◌==◌ as str_eq}
use text.Mathlib.TextEquality.{eq_iff as str_eq_iff}
use stageset_controller.Prelude.Lists.{All, contains}

-- No text stands twice.
abbrev pub Distinct : List String → Type 0
Distinct [] = Unit
Distinct (x ∷ xs) = (contains x xs ≡ false) × Distinct xs

-- No text was seen before the loop reached it, with `seen` before the first.
abbrev pub Unseen : List String → List String → Type 0
Unseen seen [] = Unit
Unseen seen (x ∷ xs) = (contains x seen ≡ false) × Unseen (x ∷ seen) xs

abbrev Apart : List String → List String → Type 0
Apart seen = All (λ x. contains x seen ≡ false)

pub str_eq_sym : (a b : String) → str_eq a b ≡ str_eq b a
str_eq_sym a b = ground (arith, str_eq_iff a b, str_eq_iff b a)

Apart-cons :
    (x : String) (seen xs : List String)
    → Apart (x ∷ seen) xs ↔ ((contains x xs ≡ false) × Apart seen xs)
Apart-cons x seen [] = (λ h. (refl, tt), λ h. tt)
Apart-cons x seen (y ∷ ys) = ground (arith, Apart-cons x seen ys, str_eq_sym x y)

pub Unseen-Distinct : (seen xs : List String) → Unseen seen xs ↔ (Apart seen xs × Distinct xs)
Unseen-Distinct seen [] = (λ h. (tt, tt), λ h. tt)
Unseen-Distinct seen (x ∷ xs) = ground (arith, Unseen-Distinct (x ∷ seen) xs, Apart-cons x seen xs)
