-- ===== src/Prelude/Lists.antt =====
-- Lists measured and indexed by the native numbers, and predicates on them by recursion.
use Prim.Native.Nat.{ℕ, suc, ◌+◌}
use Prim.Native.String.{String}
use mathlib.Core.Path.{◌≡◌, refl, sym, subst}
use mathlib.Core.Logic.{◌⊎◌, inl, inr, Lift}
use mathlib.Core.Bool.{Bool, true, false, ◌&&◌, ◌||◌}
use mathlib.Core.Option.{Option, none, some}
use mathlib.Core.List.{List, [], ◌∷◌, ◌++◌}
use native.Mathlib.Omega.{arith}
use text.Mathlib.Text.{◌==◌ as str_eq}
use stageset_controller.Prelude.Tests.{if◌then◌else◌}

module _ {ℓ} {A : Type ℓ} where
  abbrev pub length : List A → ℕ
  length [] = 0
  length (x ∷ xs) = suc (length xs)

  abbrev pub any : (A → Bool) → List A → Bool
  any p [] = false
  any p (x ∷ xs) = p x || any p xs

  abbrev pub all : (A → Bool) → List A → Bool
  all p [] = true
  all p (x ∷ xs) = p x && all p xs

  -- The elements that pass a Boolean test, in order.
  abbrev pub keep_if : (A → Bool) → List A → List A
  keep_if p [] = []
  keep_if p (x ∷ xs) = if p x then x ∷ keep_if p xs else keep_if p xs

  pub length-append : (xs ys : List A) → length (xs ++ ys) ≡ length xs + length ys
  length-append [] ys = omega arith
  length-append (x ∷ xs) ys = omega (arith, length-append xs ys)

module _ {ℓ κ} {A : Type ℓ} (P : A → Type κ) where
  abbrev pub All : List A → Type κ
  All [] = Unit
  All (x ∷ xs) = P x × All xs

  pub All-append : (xs ys : List A) → All xs → All ys → All (xs ++ ys)
  All-append [] ys h k = k
  All-append (x ∷ xs) ys (p, h) k = (p, All-append xs ys h k)

-- Membership of a text in a list, as the source's `map[string]bool` answers it.
abbrev pub contains : String → List String → Bool
contains k [] = false
contains k (x ∷ xs) = str_eq x k || contains k xs

-- `m[k]` on an association list: the first entry of the key.
abbrev pub lookup {ℓ} : {V : Type ℓ} → String → List (String × V) → Option V
lookup k [] = none
lookup k ((j, v) ∷ m) = if str_eq j k then some v else lookup k m

module _ {ℓ} {A : Type ℓ} where
  abbrev pub Elem : A → List A → Type ℓ
  Elem x [] = Lift ⊥
  Elem x (y ∷ ys) = (x ≡ y) ⊎ Elem x ys

  -- A predicate that holds of each element holds of all.
  pub All-Elem {κ} : (P : A → Type κ) (xs : List A) → ((x : A) → Elem x xs → P x) → All P xs
  All-Elem P [] f = tt
  All-Elem P (x ∷ xs) f = (f x (inl refl), All-Elem P xs (λ y e. f y (inr e)))

pub All-map {ℓ κ μ} :
    {A : Type ℓ} {P : A → Type κ} {Q : A → Type μ} (f : (x : A) → P x → Q x) (xs : List A)
    → All P xs
    → All Q xs
All-map f [] h = tt
All-map f (x ∷ xs) (p, h) = (f x p, All-map f xs h)

pub Elem-All {ℓ κ} :
    {A : Type ℓ} (P : A → Type κ) (x : A) (xs : List A) → Elem x xs → All P xs → P x
Elem-All P x (y ∷ ys) (inl e) (p, h) = subst P (sym e) p
Elem-All P x (y ∷ ys) (inr i) (p, h) = Elem-All P x ys i h
Elem-All P x [] e h = absurd (Lift.lower e)
