-- ===== src/Admission/Accepted.antt =====
-- internal/controller/webhook.go, ValidateSpec: what an accepted spec gives the reconciler, in the update
-- windows, in the anchors of its migrations and in the restart gates.
use stageset_controller.Prelude.{
  ℕ, String, str_eq, str_eq_iff, ◌≡◌, ◌∙◌, subst, ◌≢◌, ◌⊎◌, inl, inr, true, Option, none, some,
  List, [], ◌∷◌, map, arith, ◌==◌, Bool-cases, length, All, Elem, All-map, Elem-All, Result, ◌>>◌,
  Result-cases, error_of, for_each, >>-ok, for_each-ok, ok, Distinct, Unseen,
}
use stageset_controller.Ladder.{Migration}
use stageset_controller.Window.{decision, validate}
use stageset_controller.Window.Validity.{error_of-decision}
use stageset_controller.Migrations.{anchor_stage, resolve_anchors}
use stageset_controller.Checks.{RestartCheck, RestartGate}
use stageset_controller.Admission.{PromotionSpec, SpecStage, StageSet, Libraries, if_set}
use stageset_controller.Admission.Promotion.{
  validate_restart_checks, validate_restart_gate, validate_stage_promotion, validate_promotion,
}
use stageset_controller.Admission.Spec.{
  anchor_keys, is_anchored, validate_anchors, validate_migrations, validate_spec,
}
use stageset_controller.Admission.Anchors.{
  anchored_stages, Anchors, IsNamed, anchor_stage-named, anchor_keys-Anchors, resolve_anchors-ok,
}
use stageset_controller.Admission.Unique.{Unseen-start}

-- The checks before the last of a sequence that passes.
pub then_ok :
    {E : Type 0} {m k : Result E (Unit {0})} → (m >> k) ≡ ok tt → (m ≡ ok tt) × (k ≡ ok tt)
then_ok {m = m} {k = k} h = (>>-ok m k).0 h

-- The names of the restart checks differ, where there is a gate.
abbrev pub HasDistinctGate : {S : Type 0} → Option (RestartGate S) → Type 0
HasDistinctGate none = Unit
HasDistinctGate (some gate) = Distinct (map (λ c. c.name) gate.checks)

abbrev pub HasDistinctChecks : {S : Type 0} → Option (PromotionSpec S) → Type 0
HasDistinctChecks none = Unit
HasDistinctChecks (some p) = HasDistinctGate p.restart_gate

module _ {S V F : Type 0} (lib : Libraries S V F) where
  validate_restart_checks-Unseen :
      (seen : List String) (cs : List (RestartCheck S))
      → validate_restart_checks lib seen cs ≡ ok tt
      → Unseen seen (map (λ c. c.name) cs)
  unfolding validate_restart_checks
  validate_restart_checks-Unseen seen [] h = tt
  validate_restart_checks-Unseen seen (c ∷ cs) h =
      (ground (arith, h), validate_restart_checks-Unseen (c.name ∷ seen) cs (ground (arith, h)))

  gate_distinct :
      (g : Option (RestartGate S))
      → if_set g (validate_restart_gate lib) ≡ ok tt
      → HasDistinctGate g
  unfolding validate_restart_gate
  gate_distinct none h = tt
  gate_distinct (some gate) h =
      (Unseen-start (map (λ c. c.name) gate.checks)).0
        (validate_restart_checks-Unseen [] gate.checks (ground (arith, h)))

  promotion_distinct :
      (p : Option (PromotionSpec S))
      → if_set p (validate_stage_promotion lib) ≡ ok tt
      → HasDistinctChecks p
  unfolding validate_stage_promotion
  promotion_distinct none h = tt
  promotion_distinct (some p) h =
      let (_, h1) = then_ok h in let (g, _) = then_ok h1 in gate_distinct p.restart_gate g

  promotions_distinct :
      (ss : List (SpecStage S))
      → for_each (λ s. if_set s.promotion (validate_stage_promotion lib)) ss ≡ ok tt
      → All (λ s. HasDistinctChecks s.promotion) ss
  promotions_distinct [] h = tt
  promotions_distinct (s ∷ ss) h =
      let (p, rest) = then_ok h in (promotion_distinct s.promotion p, promotions_distinct ss rest)

  migration_anchored :
      (keys : List String) (stages : List (SpecStage S)) (m : Migration)
      → anchor_keys [] stages ≡ ok keys
      → is_anchored lib keys m ≡ ok tt
      → (m.stage ≡ "") ⊎ Anchors m.stage (anchored_stages stages)
  migration_anchored keys stages m k h = elim (Bool-cases (str_eq m.stage "")) [
    | inl e ↦ inl ((str_eq_iff m.stage "").0 e)
    | inr e ↦
        let a = anchor_keys-Anchors stages [] keys m.stage k (ground (arith, e, h)) in
        inr (ground (arith, a))
  ]

  migrations_anchored :
      (ss : StageSet S)
      → validate_migrations lib ss ≡ ok tt
      → ss.migrations_source_ref ≡ none
      → All (λ m. (m.stage ≡ "") ⊎ Anchors m.stage (anchored_stages ss.stages)) ss.migrations
  unfolding validate_migrations validate_anchors
  migrations_anchored ss h n = elim (Bool-cases (length ss.migrations == 0)) [
    | inl e ↦ none_of _ ss.migrations e
    | inr e ↦ elim (Result-cases (anchor_keys [] ss.stages)) [
      | inl (keys, k) ↦
          All-map (λ m. migration_anchored keys ss.stages m k) ss.migrations
            ((for_each-ok (is_anchored lib keys) (λ m. is_anchored lib keys m ≡ ok tt)
                (λ m. (λ p. p, λ p. p)) ss.migrations).0
              (ground (arith, e, k, n, h)))
      | inr (x, k) ↦ absurd (ground (arith, e, k, n, h))
    ]
  ]
    where
      none_of : (P : Migration → Type 0) (ms : List Migration) → (length ms == 0) ≡ true → All P ms
      none_of P [] e = tt
      none_of P (m ∷ ms) e = absurd (ground arith)

  -- The steps of ValidateSpec that the theorems below read.
  record Steps (now : ℕ) (ss : StageSet S) : Type 0 where
    migrations_pass : validate_migrations lib ss ≡ ok tt
    promotion_passes : validate_promotion lib ss ≡ ok tt
    windows_pass : validate lib.cron ss.update_windows now ≡ none

  validate_spec-Steps :
      (now : ℕ) (ss : StageSet S) → validate_spec lib now ss ≡ ok tt → Steps now ss
  unfolding validate_spec
  validate_spec-Steps now ss h = record {
    migrations_pass = ground (arith, h);
    promotion_passes = ground (arith, h);
    windows_pass = ground (arith, h);
  }

  -- The windows of an accepted spec are decided at every instant without an error, and the names of the
  -- restart checks of each of its stages differ.
  pub validate_spec_guards :
      (now : ℕ) (ss : StageSet S)
      → validate_spec lib now ss ≡ ok tt
      → ((t : ℕ) → error_of (decision lib.cron ss.update_windows t) ≡ none)
        × All (λ s. HasDistinctChecks s.promotion) ss.stages
  unfolding validate_promotion
  validate_spec_guards now ss h =
      let steps = validate_spec-Steps now ss h in
      (
        λ t. error_of-decision lib.cron ss.update_windows now t ∙ steps.windows_pass,
        promotions_distinct ss.stages steps.promotion_passes,
      )

  -- In an accepted spec with a ladder of its own, and with named stages, of which there is one at least,
  -- every selection of the ladder's migrations resolves its anchors: no plan is refused for a stage that
  -- is not found.
  pub validate_spec-resolve_anchors :
      (now : ℕ) (ss : StageSet S) (first : SpecStage S) (rest : List (SpecStage S))
      (pending : List Migration)
      → validate_spec lib now ss ≡ ok tt
      → ss.migrations_source_ref ≡ none
      → ss.stages ≡ first ∷ rest
      → All IsNamed (anchored_stages ss.stages)
      → All (λ m. Elem m ss.migrations) pending
      → error_of (resolve_anchors (anchored_stages ss.stages) pending []) ≡ none
  validate_spec-resolve_anchors now ss first rest pending h n e named among =
      let steps = validate_spec-Steps now ss h in
      resolve_anchors-ok (anchored_stages ss.stages) pending [] (
        All-map
          (λ m i.
            resolved m
              (Elem-All _ m ss.migrations i (migrations_anchored ss steps.migrations_pass n)))
          pending among)
    where
      resolved :
          (m : Migration)
          → (m.stage ≡ "") ⊎ Anchors m.stage (anchored_stages ss.stages)
          → anchor_stage (anchored_stages ss.stages) m.stage ≢ ""
      resolved m a = rw e (
          anchor_stage-named _ (anchored_stages rest) m.stage
            (subst (λ l. All IsNamed (anchored_stages l)) e named)
            (subst (λ l. (m.stage ≡ "") ⊎ Anchors m.stage (anchored_stages l)) e a))
