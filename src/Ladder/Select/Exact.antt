-- ===== src/Ladder/Select/Exact.antt =====
-- internal/migrations/migrations.go: Select and SelectDown against what they are to select, for a
-- ladder that ValidateLadder accepts.
use stageset_controller.Prelude.{
  String, str_eq, ◌≡◌, refl, ◌⊎◌, inl, inr, Bool, true, false, not, ◌&&◌, Option, none, some, List,
  [], ◌∷◌, map, arith, if◌then◌else◌, Option-cases, is_some, keep_if, All, ok, sort_by,
  keep_if-sort_by, sort_by-map,
}
use stageset_controller.Ladder.{
  Migration, Semver, IsOrder, validate_migration, validate_each, validate_ladder, check_from,
}
use stageset_controller.Ladder.Select.{
  Excluded, not_crossed, from_mismatch, Outcome, Scored, crosses, outcome, score, score_all,
  explain, select, score_down, select_down,
}

module _ {V : Type 0} (sv : Semver V) where
  -- The migrations whose target parses, with the target.
  abbrev pub targets : List Migration → List (Scored Migration V)
  targets [] = []
  targets (m ∷ ms) = elim (sv.new_version m.to) [
    | none ↦ targets ms
    | some t ↦ record { o = m; to = t } ∷ targets ms
  ]

  -- Whether the optional from-constraint admits a version.
  abbrev pub admits : String → V → Bool
  admits from current =
      if str_eq from ""
      then true
      else elim (sv.new_constraint from) [ none ↦ false | some check ↦ check current ]

  abbrev pub by_target : Scored Migration V → Scored Migration V → Bool
  by_target a b = sv.less_than a.to b.to

  -- What the transition is to run: the crossed boundaries that admit the current version.
  abbrev pub wanted : V → V → Scored Migration V → Bool
  wanted current desired s =
      sv.less_than current s.to && not (sv.less_than desired s.to) && admits s.o.from current

  abbrev IsParsed : Migration → Type 0
  IsParsed m =
      (is_some (sv.new_version m.to) ≡ true)
      × ((str_eq m.from "" ≡ true) ⊎ (is_some (sv.new_constraint m.from) ≡ true))

  validate_migration-IsParsed : (m : Migration) → validate_migration sv m ≡ none → IsParsed m
  unfolding validate_migration check_from
  validate_migration-IsParsed m h = ground arith

  validate_each-IsParsed :
      (names : List String) (ms : List Migration)
      → validate_each sv names ms ≡ none
      → All IsParsed ms
  unfolding validate_each
  validate_each-IsParsed names [] h = tt
  validate_each-IsParsed names (m ∷ ms) h = (
    validate_migration-IsParsed m (ground arith),
    validate_each-IsParsed (m.name ∷ names) ms (ground arith),
  )

  validate_ladder-IsParsed : (ms : List Migration) → validate_ladder sv ms ≡ none → All IsParsed ms
  unfolding validate_ladder
  validate_ladder-IsParsed ms h = validate_each-IsParsed [] ms (ground arith)

  module _ (current desired : V) where
    abbrev exclusion : Scored Migration V → Option Excluded
    exclusion s =
        if not (crosses sv current desired s.to)
        then some not_crossed
        else if admits s.o.from current
        then none
        else some from_mismatch

    abbrev mark : Scored Migration V → Scored Outcome V
    mark s = outcome sv current desired s.o s.to (exclusion s)

    score-mark :
        (m : Migration) (t : V)
        → sv.new_version m.to ≡ some t
        → IsParsed m
        → score sv current desired m ≡ ok (mark (record { o = m; to = t }))
    unfolding score
    score-mark m t e p = ground arith

    score_all-mark :
        (ms : List Migration)
        → All IsParsed ms
        → score_all sv current desired ms ≡ ok (map mark (targets ms))
    unfolding score_all
    score_all-mark [] h = refl
    score_all-mark (m ∷ ms) (p, h) = elim (Option-cases (sv.new_version m.to)) [
      | inl e ↦ absurd (ground arith)
      | inr (t, e) ↦ ground (arith, score-mark m t e p, score_all-mark ms h)
    ]

    fired :
        (xs : List (Scored Migration V))
        → map (λ o. o.migration) (keep_if (λ o. o.fires) (map (λ s. s.o) (map mark xs)))
          ≡ map (λ s. s.o) (keep_if (wanted current desired) xs)
    fired [] = refl
    fired (x ∷ xs) = ground (arith, fired xs)

    score_down-targets :
        (ms : List Migration)
        → All IsParsed ms
        → score_down sv current desired ms
          ≡ ok (
              keep_if
                (λ s. sv.less_than desired s.to && not (sv.less_than current s.to))
                (targets ms))
    unfolding score_down
    score_down-targets [] h = refl
    score_down-targets (m ∷ ms) (p, h) = elim (Option-cases (sv.new_version m.to)) [
      | inl e ↦ absurd (ground arith)
      | inr (t, e) ↦ ground (arith, score_down-targets ms h)
    ]

    -- For a validated ladder the selection never fails, and it is the migrations whose target lies in
    -- (current, desired] and whose from-constraint admits the current version, in target order, those
    -- of one target in the order the ladder declares them.
    pub select_exact :
        (ms : List Migration)
        → IsOrder sv.less_than
        → validate_ladder sv ms ≡ none
        → select sv current desired ms
          ≡ ok (map (λ s. s.o) (sort_by by_target (keep_if (wanted current desired) (targets ms))))
    unfolding select explain
    select_exact ms ord h =
        let e = score_all-mark ms (validate_ladder-IsParsed ms h) in
        let g =
          keep_if-sort_by by_target (λ x y z. ord.middle x.to y.to z.to) (λ x. ord.irrefl x.to)
            (λ x y z. ord.trans x.to y.to z.to) (wanted current desired) (targets ms) in
        rw (
          e,
          sort_by-map mark (λ a b. sv.less_than a.to b.to) (targets ms),
          fired (sort_by by_target (targets ms)),
          g,
        )

    -- For a validated ladder the downgrade's selection never fails, and it is the migrations whose
    -- target lies in (desired, current], from the highest target down.
    pub select_down_exact :
        (ms : List Migration)
        → validate_ladder sv ms ≡ none
        → select_down sv current desired ms
          ≡ ok (
              map
                (λ s. s.o)
                (sort_by
                  (λ a b. by_target b a)
                  (keep_if
                    (λ s. sv.less_than desired s.to && not (sv.less_than current s.to))
                    (targets ms))))
    unfolding select_down
    select_down_exact ms h = rw (score_down-targets ms (validate_ladder-IsParsed ms h))
