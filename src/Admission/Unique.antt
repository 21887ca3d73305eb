-- ===== src/Admission/Unique.antt =====
-- internal/controller/webhook.go: which stages, and which lists of actions, ValidateStages accepts.
use stageset_controller.Prelude.{
  String, str_eq, str_eq_iff, ◌≡◌, refl, ◌≢◌, ◌↔◌, ◌⊎◌, Bool, true, false, not, ◌&&◌, ◌||◌, Option,
  none, some, List, [], ◌∷◌, map, arith, ==_iff, is_some, all, All, contains, ◌>>◌, require,
  requires, then_requires, for_each-ok, ok, Distinct, Unseen, Unseen-Distinct,
}
use stageset_controller.Ladder.{Action, CompletionAnchor, verb_count}
use stageset_controller.Admission.{
  SourceReference, StageActions, SpecStage, StageSet, if_set, anchor_not_allowed, anchor_incomplete,
}
use stageset_controller.Admission.Stages.{
  is_producer_ref, ActionPhase, is_failure, is_scope, is_complete, validate_action_scope, phased,
  validate_phases, validate_on_rollback, validate_names, validate_stage, validate_stages,
}

-- A completion anchor stands on a Lifetime action, and names its object.
abbrev IsAnchored : String → Option CompletionAnchor → Type 0
IsAnchored scope none = Unit
IsAnchored scope (some a) =
    (scope ≡ "Lifetime") × ((a.api_version ≢ "") × ((a.kind ≢ "") × (a.name ≢ "")))

-- One of the four scopes; none on an onFailure action; Version only with a version.
abbrev IsScoped : Bool → ActionPhase × Action → Type 0
IsScoped versioned (phase, a) =
    ((a.scope ≡ "") ⊎ ((a.scope ≡ "Revision") ⊎ ((a.scope ≡ "Version") ⊎ (a.scope ≡ "Lifetime"))))
    × (((a.scope ≡ "") ⊎ (is_failure phase ≡ false))
        × (((a.scope ≢ "Version") ⊎ (versioned ≡ true)) × IsAnchored a.scope a.completion_anchor))

abbrev IsNamedVerb : Action → Type 0
IsNamedVerb a = (verb_count a ≡ 1) × (a.name ≢ "")

-- The Boolean tests, and what they say.
not_eq_iff : (a b : String) → (not (str_eq a b) ≡ true) ↔ (a ≢ b)
not_eq_iff a b = ground (arith, str_eq_iff a b)

is_scope_iff :
    (s : String)
    → (is_scope s ≡ true) ↔ ((s ≡ "") ⊎ ((s ≡ "Revision") ⊎ ((s ≡ "Version") ⊎ (s ≡ "Lifetime"))))
is_scope_iff s = ground (
  arith,
  str_eq_iff s "",
  str_eq_iff s "Revision",
  str_eq_iff s "Version",
  str_eq_iff s "Lifetime",
)

not_allowed_iff :
    (s : String) (b : Bool) → ((str_eq s "" || not b) ≡ true) ↔ ((s ≡ "") ⊎ (b ≡ false))
not_allowed_iff s b = ground (arith, str_eq_iff s "")

versioned_iff :
    (s : String) (b : Bool)
    → ((not (str_eq s "Version") || b) ≡ true) ↔ ((s ≢ "Version") ⊎ (b ≡ true))
versioned_iff s b = ground (arith, str_eq_iff s "Version")

complete_iff :
    (a : CompletionAnchor)
    → (is_complete a ≡ true) ↔ ((a.api_version ≢ "") × ((a.kind ≢ "") × (a.name ≢ "")))
complete_iff a =
    ground (arith, str_eq_iff a.api_version "", str_eq_iff a.kind "", str_eq_iff a.name "")

validate_action_scope-IsScoped :
    (phase : ActionPhase) (versioned : Bool) (a : Action)
    → (validate_action_scope phase versioned a ≡ ok tt) ↔ IsScoped versioned (phase, a)
unfolding validate_action_scope
validate_action_scope-IsScoped phase versioned a =
    then_requires (requires _ (is_scope_iff a.scope)) (
      then_requires (requires _ (not_allowed_iff a.scope (is_failure phase))) (
        then_requires (requires _ (versioned_iff a.scope versioned))
          (anchored a.completion_anchor)))
  where
    anchored :
        (c : Option CompletionAnchor)
        → (if_set c (λ anchor.
              require (str_eq a.scope "Lifetime") (anchor_not_allowed a.name)
              >> require (is_complete anchor) (anchor_incomplete a.name))
            ≡ ok tt)
          ↔ IsAnchored a.scope c
    anchored none = (λ h. tt, λ h. refl)
    anchored (some c) =
        then_requires (requires _ (str_eq_iff a.scope "Lifetime")) (requires _ (complete_iff c))

pub unseen_iff :
    (n : String) (seen : List String) → (not (contains n seen) ≡ true) ↔ (contains n seen ≡ false)
unseen_iff n seen = ground arith

-- An action of a phase: one verb, a name, and a scope that is allowed there.
abbrev pub IsStageAction : Bool → ActionPhase × Action → Type 0
IsStageAction versioned (phase, a) = IsNamedVerb a × IsScoped versioned (phase, a)

-- An action of onRollback: one verb, a name, no scope and no anchor.
abbrev pub IsRollbackAction : Action → Type 0
IsRollbackAction a = IsNamedVerb a × ((a.scope ≡ "") × (a.completion_anchor ≡ none))

abbrev names_of : List (ActionPhase × Action) → List String
names_of = map (λ (_, a). a.name)

validate_phases-Unseen :
    (versioned : Bool) (seen : List String) (xs : List (ActionPhase × Action))
    → (validate_phases versioned seen xs ≡ ok tt)
      ↔ (Unseen seen (names_of xs) × All (IsStageAction versioned) xs)
unfolding validate_phases
validate_phases-Unseen versioned seen [] = (λ h. (tt, tt), λ h. refl)
validate_phases-Unseen versioned seen ((phase, a) ∷ xs) =
    let i = then_requires (requires _ (==_iff (verb_count a) 1)) (
      then_requires (requires _ (not_eq_iff a.name "")) (
        then_requires (requires _ (unseen_iff a.name seen)) (
          then_requires (validate_action_scope-IsScoped phase versioned a)
            (validate_phases-Unseen versioned (a.name ∷ seen) xs)))) in
    (
      λ h. let (v, (n, (u, (s, (us, all))))) = i.0 h in ((u, us), (((v, n), s), all)),
      λ h. let ((u, us), (((v, n), s), all)) = h in i.1 (v, (n, (u, (s, (us, all))))),
    )

is_none_iff : (c : Option CompletionAnchor) → (not (is_some c) ≡ true) ↔ (c ≡ none)
is_none_iff none = (λ h. refl, λ h. refl)
is_none_iff (some c) = (λ h. cc, λ h. cc)

validate_on_rollback-Unseen :
    (seen : List String) (xs : List Action)
    → (validate_on_rollback seen xs ≡ ok tt)
      ↔ (Unseen seen (map (λ a. a.name) xs) × All IsRollbackAction xs)
unfolding validate_on_rollback
validate_on_rollback-Unseen seen [] = (λ h. (tt, tt), λ h. refl)
validate_on_rollback-Unseen seen (a ∷ xs) =
    let i = then_requires (requires _ (==_iff (verb_count a) 1)) (
      then_requires (requires _ (not_eq_iff a.name "")) (
        then_requires (requires _ (unseen_iff a.name seen)) (
          then_requires (requires _ (str_eq_iff a.scope "")) (
            then_requires (requires _ (is_none_iff a.completion_anchor))
              (validate_on_rollback-Unseen (a.name ∷ seen) xs))))) in
    (
      λ h. let (v, (n, (u, (s, (c, (us, all)))))) = i.0 h in ((u, us), (((v, n), (s, c)), all)),
      λ h. let ((u, us), (((v, n), (s, c)), all)) = h in i.1 (v, (n, (u, (s, (c, (us, all)))))),
    )

validate_names-Unseen : (seen ns : List String) → (validate_names seen ns ≡ ok tt) ↔ Unseen seen ns
unfolding validate_names
validate_names-Unseen seen [] = (λ h. tt, λ h. refl)
validate_names-Unseen seen (n ∷ ns) =
    let i = then_requires (requires _ (unseen_iff n seen)) (validate_names-Unseen (n ∷ seen) ns) in
    (λ h. i.0 h, λ h. i.1 h)

-- Nothing was seen before the loop.
pub Unseen-start : (ns : List String) → Unseen [] ns ↔ Distinct ns
Unseen-start ns =
    (λ u. ((Unseen-Distinct [] ns).0 u).1, λ d. (Unseen-Distinct [] ns).1 (nothing ns, d))
  where
    nothing : (ns : List String) → All (λ x. contains x [] ≡ false) ns
    nothing [] = tt
    nothing (n ∷ ns) = (refl, nothing ns)

-- A producer reference names its API version.
abbrev pub IsSourced : SourceReference → Type 0
IsSourced ref = (is_producer_ref ref ≡ false) ⊎ (ref.api_version ≢ "")

-- The actions of a stage: well formed, and no name twice over the three phases.
abbrev pub AreStageActions : Bool → Option StageActions → Type 0
AreStageActions versioned none = Unit
AreStageActions versioned (some acts) =
    Distinct (names_of (phased acts)) × All (IsStageAction versioned) (phased acts)

is_producer_ref-IsSourced :
    (ref : SourceReference)
    → (not (is_producer_ref ref && str_eq ref.api_version "") ≡ true) ↔ IsSourced ref
is_producer_ref-IsSourced ref = ground (arith, str_eq_iff ref.api_version "")

module _ {S : Type 0} where
  abbrev pub IsStage : Bool → SpecStage S → Type 0
  IsStage versioned s = IsSourced s.source_ref × AreStageActions versioned s.actions

  validate_stage-IsStage :
      (versioned : Bool) (s : SpecStage S)
      → (validate_stage versioned s ≡ ok tt) ↔ IsStage versioned s
  unfolding validate_stage
  validate_stage-IsStage versioned s =
      then_requires (requires _ (is_producer_ref-IsSourced s.source_ref)) (actions s.actions)
    where
      actions :
          (o : Option StageActions)
          → (if_set o (λ acts. validate_phases versioned [] (phased acts)) ≡ ok tt)
            ↔ AreStageActions versioned o
      actions none = (λ h. tt, λ h. refl)
      actions (some acts) =
          let i = validate_phases-Unseen versioned [] (phased acts) in
          let u = Unseen-start (names_of (phased acts)) in
          (λ h. (u.0 (i.0 h).0, (i.0 h).1), λ h. i.1 (u.1 h.0, h.1))

  -- ValidateStages accepts a spec exactly when the names of its stages differ, every stage has a
  -- resolvable source and well-formed actions of different names, and so has onRollback.
  pub validate_stages-IsStage :
      (ss : StageSet S)
      → (validate_stages ss ≡ ok tt) ↔ (
          Distinct (map (λ s. s.name) ss.stages)
          × (All (IsStage (is_some ss.version)) ss.stages
              × (Distinct (map (λ a. a.name) ss.on_rollback)
                  × All IsRollbackAction ss.on_rollback)))
  unfolding validate_stages
  validate_stages-IsStage ss =
      let names = map (λ (s : SpecStage S). s.name) ss.stages in
      let n = validate_names-Unseen [] names in
      let un = Unseen-start names in
      let r = validate_on_rollback-Unseen [] ss.on_rollback in
      let ur = Unseen-start (map (λ (a : Action). a.name) ss.on_rollback) in
      let i = then_requires n (
        then_requires
          (for_each-ok (validate_stage (is_some ss.version)) (IsStage (is_some ss.version))
            (validate_stage-IsStage (is_some ss.version)) ss.stages)
          r) in
      (
        λ h. let (a, (b, (c, d))) = i.0 h in (un.0 a, (b, (ur.0 c, d))),
        λ h. let (a, (b, (c, d))) = h in i.1 (un.1 a, (b, (ur.1 c, d))),
      )
