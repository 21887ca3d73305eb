-- ===== src/Ladder/Select/Steps.antt =====
-- internal/migrations/migrations.go: Select over a transition that is made in two steps.
use stageset_controller.Prelude.{
  str_eq, ◌≡◌, refl, ap, inl, inr, Bool, true, false, not, none, List, [], ◌∷◌, ◌++◌, arith,
  Option-cases, keep_if, All, ◌>>=◌, ok, sort_by-split,
}
use mathlib.Core.List.{map-append}
use stageset_controller.Ladder.{Migration, Semver, IsOrder, validate_ladder}
use stageset_controller.Ladder.Select.{Scored, select}
use stageset_controller.Ladder.Select.Exact.{targets, by_target, wanted, select_exact}

module _ {V : Type 0} (sv : Semver V) (ord : IsOrder sv.less_than) where
  -- No migration of the ladder constrains the version that it leaves.
  abbrev pub IsUnconstrained : List Migration → Type 0
  IsUnconstrained ms = All (λ m. str_eq m.from "" ≡ true) ms

  targets-from :
      (ms : List Migration)
      → IsUnconstrained ms
      → All (λ s. str_eq s.o.from "" ≡ true) (targets sv ms)
  targets-from [] h = tt
  targets-from (m ∷ ms) (e, h) = elim (Option-cases (sv.new_version m.to)) [
    | inl n ↦ rw (All, n) (targets-from ms h)
    | inr (t, n) ↦ rw (All, n) (e, targets-from ms h)
  ]

  module _ (a b c : V) (ab : sv.less_than b a ≡ false) (bc : sv.less_than c b ≡ false) where
    reaches : Scored Migration V → Bool
    reaches s = not (sv.less_than b s.to)

    lower_part :
        (xs : List (Scored Migration V))
        → All (λ s. str_eq s.o.from "" ≡ true) xs
        → keep_if reaches (keep_if (wanted sv a c) xs) ≡ keep_if (wanted sv a b) xs
    unfolding reaches
    lower_part [] h = refl
    lower_part (x ∷ xs) (e, h) = ground (arith, lower_part xs h, ord.middle c b x.to)

    upper_part :
        (xs : List (Scored Migration V))
        → All (λ s. str_eq s.o.from "" ≡ true) xs
        → keep_if (λ s. not (reaches s)) (keep_if (wanted sv a c) xs) ≡ keep_if (wanted sv b c) xs
    unfolding reaches
    upper_part [] h = refl
    upper_part (x ∷ xs) (e, h) = ground (arith, upper_part xs h, ord.middle b a x.to)

    low :
        (x y : Scored Migration V)
        → reaches x ≡ true
        → reaches y ≡ false
        → (by_target sv x y ≡ true) × (by_target sv y x ≡ false)
    unfolding reaches
    low x y p q = (ground (arith, ord.middle b x.to y.to), ground (arith, ord.trans b y.to x.to))

    -- Over versions a ≤ b ≤ c in the library's order, a validated ladder without from-constraints
    -- selects for the transition from a to c exactly what it selects from a to b, and then from b to c.
    pub select_in_steps :
        (ms : List Migration)
        → validate_ladder sv ms ≡ none
        → IsUnconstrained ms
        → select sv a c ms
          ≡ (do first ← select sv a b ms; rest ← select sv b c ms; ok (first ++ rest))
    select_in_steps ms h u =
        let t = targets sv ms in
        let e = targets-from ms u in
        let split = sort_by-split (by_target sv) reaches low (keep_if (wanted sv a c) t) in
        rw
          (
            select_exact sv a c ms ord h,
            select_exact sv a b ms ord h,
            select_exact sv b c ms ord h,
            split,
            lower_part t e,
            upper_part t e,
          )
          (ap ok (map-append (λ s. s.o) _ _))
