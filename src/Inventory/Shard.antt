-- ===== src/Inventory/Shard.antt =====
-- internal/inventory/shard.go, PlanShards: the shards partition the sorted entries.
use stageset_controller.Prelude.{
  ℕ, zero, suc, ◌≤◌, ◌≡◌, refl, sym, ap, subst, ◌⊎◌, inl, inr, some, List, [], ◌∷◌, ◌++◌, arith,
  length, All, pos, sort_by, sort_by-perm,
}
use mathlib.Core.List.{Perm}
use mathlib.Core.List.Perm
use stageset_controller.Inventory.{
  ObjectRef, id_less, take, drop, shards_from, shards_of, plan_shards,
}

abbrev pub concat : List (List ObjectRef) → List ObjectRef
concat [] = []
concat (xs ∷ xss) = xs ++ concat xss

take-drop : (n : ℕ) (xs : List ObjectRef) → take n xs ++ drop n xs ≡ xs
take-drop zero xs = refl
take-drop (suc n) [] = refl
take-drop (suc n) (x ∷ xs) = ap (λ l. x ∷ l) (take-drop n xs)

length-take : (n : ℕ) (xs : List ObjectRef) → length (take n xs) ≤ n
length-take zero xs = omega arith
length-take (suc n) [] = omega arith
length-take (suc n) (x ∷ xs) = omega (arith, length-take n xs)

length-drop : (n : ℕ) (x : ObjectRef) (xs : List ObjectRef) → length (drop n xs) ≤ length xs
length-drop zero x xs = omega arith
length-drop (suc n) x [] = omega arith
length-drop (suc n) x (y ∷ xs) = omega (arith, length-drop n x xs)

-- A shard holds at least one entry and at most the capacity.
abbrev pub Fits : ℕ → List ObjectRef → Type 0
Fits capacity shard = (1 ≤ length shard) × (length shard ≤ capacity)

module _ (n : ℕ) where
  shards_from-concat :
      (fuel : ℕ) (xs : List ObjectRef)
      → length xs ≤ fuel
      → concat (shards_from fuel (suc n) xs) ≡ xs
  unfolding shards_from
  shards_from-concat fuel [] h = refl
  shards_from-concat zero (x ∷ xs) h = ground (arith, h)
  shards_from-concat (suc fuel) (x ∷ xs) h =
      rw (shards_from-concat fuel (drop n xs) (omega (arith, h, length-drop n x xs)))
        (take-drop (suc n) (x ∷ xs))

  shards_from-Fits :
      (fuel : ℕ) (xs : List ObjectRef) → All (Fits (suc n)) (shards_from fuel (suc n) xs)
  unfolding shards_from
  shards_from-Fits fuel [] = tt
  shards_from-Fits zero (x ∷ xs) = tt
  shards_from-Fits (suc fuel) (x ∷ xs) =
      ((omega arith, omega (arith, length-take n xs)), shards_from-Fits fuel (drop n xs))

  shards_of-concat : (xs : List ObjectRef) → concat (shards_of (suc n) xs) ≡ xs
  unfolding shards_of
  shards_of-concat [] = refl
  shards_of-concat (x ∷ xs) = shards_from-concat (length (x ∷ xs)) (x ∷ xs) (omega arith)

  shards_of-Fits :
      (xs : List ObjectRef)
      → All (Fits (suc n)) (shards_of (suc n) xs) ⊎ ((shards_of (suc n) xs ≡ [] ∷ []) × (xs ≡ []))
  unfolding shards_of
  shards_of-Fits [] = inr (refl, refl)
  shards_of-Fits (x ∷ xs) = inl (shards_from-Fits (length (x ∷ xs)) (x ∷ xs))

sort_by-empty : (entries : List ObjectRef) → sort_by id_less entries ≡ [] → entries ≡ []
sort_by-empty entries e =
    sym (Perm.nil-eq (subst (λ l. Perm l entries) e (sort_by-perm id_less entries)))

-- With a positive capacity, the shards are the sorted entries cut in order; each holds between one entry
-- and the capacity, unless there is no entry, when one empty shard remains.
pub plan_shards-partitions :
    (entries : List ObjectRef) (n : ℕ)
    → (shards : List (List ObjectRef)) × (plan_shards entries (pos (suc n)) ≡ some shards)
      × (concat shards ≡ sort_by id_less entries)
      × (All (Fits (suc n)) shards ⊎ ((shards ≡ [] ∷ []) × (entries ≡ [])))
unfolding plan_shards
plan_shards-partitions entries n =
    let sorted = sort_by id_less entries in
    (
      shards_of (suc n) sorted,
      refl,
      shards_of-concat n sorted,
      elim (shards_of-Fits n sorted) [
        | inl f ↦ inl f
        | inr (e, s) ↦ inr (e, sort_by-empty entries s)
      ],
    )
