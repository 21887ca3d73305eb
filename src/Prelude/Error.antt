-- ===== src/Prelude/Error.antt =====
-- A call that returns a value or an error, and its `do` blocks: `if err != nil { return err }`.
use mathlib.Core.Option.{Option, none, some}
use mathlib.Core.Path.{◌≡◌, refl}
use mathlib.Core.Logic.{◌↔◌, ◌⊎◌, inl, inr}
use mathlib.Core.Bool.{Bool, true, false}
use mathlib.Core.List.{List, [], ◌∷◌}
use stageset_controller.Prelude.Lists.{All}

pub data Result {ℓ} (E : Type 0) (A : Type ℓ) : Type ℓ where
  ok : A → Result E A
  err : E → Result E A

infixl 5 ◌>>=◌ ◌>>◌
abbrev pub ◌>>=◌ {ℓ κ} :
    {E : Type 0} {A : Type ℓ} {B : Type κ} → Result E A → (A → Result E B) → Result E B
ok a >>= f = f a
err e >>= f = err e

abbrev pub ◌>>◌ {ℓ} : {E : Type 0} {B : Type ℓ} → Result E (Unit {0}) → Result E B → Result E B
m >> k = m >>= λ _. k

pub Result-cases {ℓ} :
    {E : Type 0} {A : Type ℓ} (r : Result E A) → ((a : A) × (r ≡ ok a)) ⊎ ((e : E) × (r ≡ err e))
Result-cases (ok a) = inl (a, refl)
Result-cases (err e) = inr (e, refl)

-- The error of a call, if it has one.
abbrev pub error_of {ℓ} : {E : Type 0} {A : Type ℓ} → Result E A → Option E
error_of (ok a) = none
error_of (err e) = some e

pub error_of-map {ℓ κ} :
    {E : Type 0} {A : Type ℓ} {B : Type κ} (m : Result E A) (f : A → B)
    → error_of (m >>= λ a. ok (f a)) ≡ error_of m
error_of-map (ok a) f = refl
error_of-map (err e) f = refl

-- `if !b { return e }`
abbrev pub require : {E : Type 0} → Bool → E → Result E (Unit {0})
require true e = ok tt
require false e = err e

-- A loop that returns at its first error.
abbrev pub for_each {ℓ} :
    {E : Type 0} {A : Type ℓ} → (A → Result E (Unit {0})) → List A → Result E (Unit {0})
for_each f [] = ok tt
for_each f (x ∷ xs) = f x >> for_each f xs

pub require-ok : {E : Type 0} (b : Bool) (e : E) → (require b e ≡ ok tt) ↔ (b ≡ true)
require-ok true e = (λ _. refl, λ _. refl)
require-ok false e = (λ h. cc, λ h. cc)

-- The checks of a function, and what they accept, one after another.
pub requires {ℓ} :
    {E : Type 0} {P : Type ℓ} {b : Bool} (e : E) → ((b ≡ true) ↔ P) → (require b e ≡ ok tt) ↔ P
requires {b = true} e i = (λ _. i.0 refl, λ _. refl)
requires {b = false} e i = (λ h. cc, λ p. absurd (cc (i.1 p)))

pub then_requires {ℓ κ} :
    {E : Type 0} {P : Type ℓ} {Q : Type κ} {m k : Result E (Unit {0})}
    → ((m ≡ ok tt) ↔ P)
    → ((k ≡ ok tt) ↔ Q)
    → ((m >> k) ≡ ok tt) ↔ (P × Q)
then_requires {m = ok tt} i j = (λ h. (i.0 refl, j.0 h), λ h. j.1 h.1)
then_requires {m = err e} i j = (λ h. cc, λ h. cc (i.1 h.0))

-- A sequence of checks passes exactly when each of them does.
pub >>-ok :
    {E : Type 0} (m k : Result E (Unit {0})) → ((m >> k) ≡ ok tt) ↔ ((m ≡ ok tt) × (k ≡ ok tt))
>>-ok (ok tt) k = (λ h. (refl, h), λ h. h.1)
>>-ok (err e) k = (λ h. cc, λ h. cc)

pub for_each-ok {ℓ κ} :
    {E : Type 0} {A : Type ℓ} (f : A → Result E (Unit {0})) (P : A → Type κ)
    → ((x : A) → (f x ≡ ok tt) ↔ P x)
    → (xs : List A) → (for_each f xs ≡ ok tt) ↔ All P xs
for_each-ok f P i [] = (λ h. tt, λ h. refl)
for_each-ok f P i (x ∷ xs) =
    let rest = for_each-ok f P i xs in
    let both = >>-ok (f x) (for_each f xs) in
    (λ h. ((i x).0 (both.0 h).0, rest.0 (both.0 h).1), λ h. both.1 ((i x).1 h.0, rest.1 h.1))
