-- ===== src/Prelude/Sort.antt =====
-- `sort.SliceStable` and `slices.SortFunc` by a Boolean `less`: a stable insertion sort, with its laws.
use mathlib.Core.Path.{◌≡◌, refl, ap}
use mathlib.Core.Logic.{◌⊎◌, inl, inr}
use mathlib.Core.Bool.{Bool, true, false, not}
use mathlib.Core.List.{List, [], ◌∷◌, ◌++◌, map, Perm}
use mathlib.Core.List.Perm
use native.Mathlib.Omega.{arith}
use stageset_controller.Prelude.Tests.{if◌then◌else◌, Bool-cases}
use stageset_controller.Prelude.Lists.{All, keep_if}

module _ {ℓ} {A : Type ℓ} (less : A → A → Bool) where
  unfoldable pub insert_by : A → List A → List A
  insert_by x [] = x ∷ []
  insert_by x (y ∷ ys) = if less y x then y ∷ insert_by x ys else x ∷ y ∷ ys

  unfoldable pub sort_by : List A → List A
  unfolding insert_by
  sort_by [] = []
  sort_by (x ∷ xs) = insert_by x (sort_by xs)

  -- No later element is less than an earlier one.
  abbrev pub IsSorted : List A → Type ℓ
  IsSorted [] = Unit
  IsSorted (x ∷ xs) = All (λ y. less y x ≡ false) xs × IsSorted xs

  insert_by-perm : (x : A) (ys : List A) → Perm (insert_by x ys) (x ∷ ys)
  unfolding insert_by
  insert_by-perm x [] = Perm.refl _
  insert_by-perm x (y ∷ ys) = elim (Bool-cases (less y x)) [
    | inl h ↦ rw h (Perm.trans (Perm.cons y (insert_by-perm x ys)) (Perm.swap _ _ _))
    | inr h ↦ rw h (Perm.refl _)
  ]

  pub sort_by-perm : (xs : List A) → Perm (sort_by xs) xs
  unfolding sort_by
  sort_by-perm [] = Perm.refl _
  sort_by-perm (x ∷ xs) = Perm.trans (insert_by-perm x (sort_by xs)) (Perm.cons x (sort_by-perm xs))

  All-insert_by {κ} :
      (P : A → Type κ) (x : A) (ys : List A) → P x → All P ys → All P (insert_by x ys)
  unfolding insert_by
  All-insert_by P x [] p h = (p, tt)
  All-insert_by P x (y ∷ ys) p (q, h) = elim (Bool-cases (less y x)) [
    | inl e ↦ rw e (q, All-insert_by P x ys p h)
    | inr e ↦ rw e (p, (q, h))
  ]

  pub All-sort_by {κ} : (P : A → Type κ) (xs : List A) → All P xs → All P (sort_by xs)
  unfolding sort_by
  All-sort_by P [] h = tt
  All-sort_by P (x ∷ xs) (p, h) = All-insert_by P x (sort_by xs) p (All-sort_by P xs h)

  module _ (irrefl : (x : A) → less x x ≡ false)
      (trans : (x y z : A) → less x y ≡ true → less y z ≡ true → less x z ≡ true)
      (middle : (x y z : A) → less x z ≡ true → (less x y ≡ true) ⊎ (less y z ≡ true)) where
    asym : (x y : A) → less x y ≡ true → less y x ≡ false
    asym x y h = ground (arith, irrefl x, trans x y x h)

    above :
        (x y : A) (zs : List A)
        → less y x ≡ false
        → All (λ z. less z y ≡ false) zs
        → All (λ z. less z x ≡ false) zs
    above x y [] e h = tt
    above x y (z ∷ zs) e (p, h) = (ground (arith, middle z y x), above x y zs e h)

    insert_by-IsSorted : (x : A) (ys : List A) → IsSorted ys → IsSorted (insert_by x ys)
    unfolding insert_by
    insert_by-IsSorted x [] h = (tt, tt)
    insert_by-IsSorted x (y ∷ ys) (h, s) = elim (Bool-cases (less y x)) [
      | inl e ↦
          rw e
            (All-insert_by (λ z. less z y ≡ false) x ys (asym y x e) h, insert_by-IsSorted x ys s)
      | inr e ↦ rw e ((e, above x y ys e h), (h, s))
    ]

    pub sort_by-IsSorted : (xs : List A) → IsSorted (sort_by xs)
    unfolding sort_by
    sort_by-IsSorted [] = tt
    sort_by-IsSorted (x ∷ xs) = insert_by-IsSorted x (sort_by xs) (sort_by-IsSorted xs)

  -- Where everything that passes `p` is less than everything that does not, sorting splits there.
  module _ (p : A → Bool)
      (low : (x y : A) → p x ≡ true → p y ≡ false → (less x y ≡ true) × (less y x ≡ false)) where
    insert_by-low :
        (x : A) (ys zs : List A)
        → p x ≡ true
        → All (λ z. p z ≡ false) zs
        → insert_by x (ys ++ zs) ≡ insert_by x ys ++ zs
    unfolding insert_by
    insert_by-low x [] [] h a = refl
    insert_by-low x [] (z ∷ zs) h (a, as') = rw ((low x z h a).1)
    insert_by-low x (y ∷ ys) zs h a = ground (arith, insert_by-low x ys zs h a)

    insert_by-high :
        (x : A) (ys zs : List A)
        → p x ≡ false
        → All (λ y. p y ≡ true) ys
        → insert_by x (ys ++ zs) ≡ ys ++ insert_by x zs
    unfolding insert_by
    insert_by-high x [] zs h a = refl
    insert_by-high x (y ∷ ys) zs h (a, as') =
        rw ((low y x a h).0) (ap (λ t. y ∷ t) (insert_by-high x ys zs h as'))

    All-keep_if : (q : A → Bool) (xs : List A) → All (λ x. q x ≡ true) (keep_if q xs)
    All-keep_if q [] = tt
    All-keep_if q (x ∷ xs) = elim (Bool-cases (q x)) [
      | inl e ↦ rw e (e, All-keep_if q xs)
      | inr e ↦ rw e (All-keep_if q xs)
    ]

    All-not : (xs : List A) → All (λ x. not (p x) ≡ true) xs → All (λ x. p x ≡ false) xs
    All-not [] h = tt
    All-not (x ∷ xs) (h, hs) = (ground arith, All-not xs hs)

    pub sort_by-split :
        (xs : List A) → sort_by xs ≡ sort_by (keep_if p xs) ++ sort_by (keep_if (λ x. not (p x)) xs)
    unfolding sort_by
    sort_by-split [] = refl
    sort_by-split (x ∷ xs) = elim (Bool-cases (p x)) [
      | inl e ↦
          rw (e, sort_by-split xs)
            (insert_by-low x (sort_by (keep_if p xs)) (sort_by (keep_if (λ x. not (p x)) xs)) e
              (All-sort_by _ _ (All-not _ (All-keep_if (λ x. not (p x)) xs))))
      | inr e ↦
          rw (e, sort_by-split xs)
            (insert_by-high x (sort_by (keep_if p xs)) (sort_by (keep_if (λ x. not (p x)) xs)) e
              (All-sort_by _ _ (All-keep_if p xs)))
    ]

module _ {ℓ} {A : Type ℓ} (less : A → A → Bool)
    (middle : (x y z : A) → less x z ≡ true → (less x y ≡ true) ⊎ (less y z ≡ true)) where
  insert_by-below :
      (x : A) (ys : List A) → All (λ y. less y x ≡ false) ys → insert_by less x ys ≡ x ∷ ys
  unfolding insert_by
  insert_by-below x [] h = refl
  insert_by-below x (y ∷ ys) (h, hs) = rw h

  All-keep {κ} : (P : A → Type κ) (p : A → Bool) (ys : List A) → All P ys → All P (keep_if p ys)
  All-keep P p [] h = tt
  All-keep P p (y ∷ ys) (h, hs) = elim (Bool-cases (p y)) [
    | inl e ↦ rw e (h, All-keep P p ys hs)
    | inr e ↦ rw e (All-keep P p ys hs)
  ]

  lower :
      (x y : A) (zs : List A)
      → less y x ≡ false
      → All (λ z. less z y ≡ false) zs
      → All (λ z. less z x ≡ false) zs
  lower x y [] e h = tt
  lower x y (z ∷ zs) e (p, h) = (ground (arith, middle z y x), lower x y zs e h)

  keep_if-insert_by :
      (p : A → Bool) (x : A) (ys : List A)
      → IsSorted less ys
      → keep_if p (insert_by less x ys)
        ≡ (if p x then insert_by less x (keep_if p ys) else keep_if p ys)
  unfolding insert_by
  keep_if-insert_by p x [] s = refl
  keep_if-insert_by p x (y ∷ ys) (h, s) = elim (Bool-cases (less y x)) [
    | inl e ↦ ground (arith, keep_if-insert_by p x ys s)
    | inr e ↦
        let rest = insert_by-below x (keep_if p ys) (All-keep _ p ys (lower x y ys e h)) in
        ground (arith, rest)
  ]

  -- Sorting and filtering commute.
  pub keep_if-sort_by :
      (irrefl : (x : A) → less x x ≡ false)
      (trans : (x y z : A) → less x y ≡ true → less y z ≡ true → less x z ≡ true) (p : A → Bool)
      (xs : List A)
      → keep_if p (sort_by less xs) ≡ sort_by less (keep_if p xs)
  unfolding sort_by
  keep_if-sort_by irrefl trans p [] = refl
  keep_if-sort_by irrefl trans p (x ∷ xs) =
      let ih = keep_if-sort_by irrefl trans p xs in
      let step =
        keep_if-insert_by p x (sort_by less xs) (sort_by-IsSorted less irrefl trans middle xs) in
      elim (Bool-cases (p x)) [
        | inl e ↦ rw (step, e) (ap (insert_by less x) ih)
        | inr e ↦ rw (step, e) ih
      ]

module _ {ℓ κ} {A : Type ℓ} {B : Type κ} (f : A → B) (less : B → B → Bool) where
  insert_by-map :
      (x : A) (ys : List A)
      → insert_by less (f x) (map f ys) ≡ map f (insert_by (λ a b. less (f a) (f b)) x ys)
  unfolding insert_by
  insert_by-map x [] = refl
  insert_by-map x (y ∷ ys) = ground (arith, insert_by-map x ys)

  pub sort_by-map :
      (xs : List A) → sort_by less (map f xs) ≡ map f (sort_by (λ a b. less (f a) (f b)) xs)
  unfolding sort_by
  sort_by-map [] = refl
  sort_by-map (x ∷ xs) =
      rw (sort_by-map xs) (insert_by-map x (sort_by (λ a b. less (f a) (f b)) xs))
