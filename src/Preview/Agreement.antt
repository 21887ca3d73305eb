-- ===== src/Preview/Agreement.antt =====
-- internal/actionplan/verdict.go against internal/controller: a preview skips what the executor skips.
use stageset_controller.Prelude.{
  String, str_eq, str_eq_iff, ◌≡◌, refl, sym, ap, ◌∙◌, subst, ◌↔◌, ◌⊎◌, inl, inr, Bool, true, false,
  ◌&&◌, ◌||◌, List, [], ◌∷◌, ◌++◌, map, arith, if◌then◌else◌, Bool-cases, Option-cases, is_some,
  All, contains, Distinct,
}
use stageset_controller.Ladder.{Action}
use stageset_controller.Actions.{ActionLedger, done_set}
use stageset_controller.Actions.Ledger.{contains-append}
use stageset_controller.Lifetime.{
  AnchorWitness, AnchorRead, LedgerCompletion, LifetimeGate, evaluate_lifetime_gate,
}
use stageset_controller.Stages.{
  Stage, StageStatus, PlannedVersion, index_of, prior_of, version_scoped, start_ledger,
}
use stageset_controller.Stages.Pass.{scope_of, scope_in}
use stageset_controller.Preview.{skip, VerdictInputs, Consulted, consult, classify}

-- A text of a list has what all its texts have.
All-contains :
    (P : String → Type 0) (k : String) (xs : List String) → All P xs → (contains k xs ≡ false) ⊎ P k
All-contains P k [] h = inl refl
All-contains P k (x ∷ xs) (p, h) = elim (Bool-cases (str_eq x k)) [
  | inl e ↦ inr (subst P ((str_eq_iff x k).0 e) p)
  | inr e ↦ elim (All-contains P k xs h) [ inl f ↦ inl (rw (e, f) refl) | inr q ↦ inr q ]
]

abbrev action_names : List Action → List String
action_names = map (λ a. a.name)

unnamed_scope :
    (n : String) (acts : List Action)
    → contains n (action_names acts) ≡ false
    → (scope_in acts n ≡ "") × (contains n (version_scoped acts) ≡ false)
unfolding scope_in
unnamed_scope n [] h = (refl, refl)
unnamed_scope n (a ∷ acts) h = elim (Bool-cases (str_eq a.name n)) [
  | inl e ↦ absurd (ground (arith, e, h))
  | inr e ↦
      let (u, v) = unnamed_scope n acts (ground (arith, e, h)) in
      elim (Bool-cases (str_eq a.scope "Version")) [
        | inl f ↦ (rw (u, e) refl, rw (f, e) v)
        | inr f ↦ (rw (u, e) refl, rw f v)
      ]
]

version_scoped-cons :
    (n : String) (a : Action) (acts : List Action)
    → contains n (version_scoped (a ∷ acts))
      ≡ ((str_eq a.scope "Version" && str_eq a.name n) || contains n (version_scoped acts))
version_scoped-cons n a acts = elim (Bool-cases (str_eq a.scope "Version")) [
  | inl f ↦ rw f refl
  | inr f ↦ rw f refl
]

-- The scope of the action itself, whose name no later action has.
own_scope :
    (n : String) (a : Action) (acts : List Action)
    → str_eq a.name n ≡ true
    → scope_in acts n ≡ ""
    → scope_in (a ∷ acts) n ≡ (if str_eq a.scope "" then "Revision" else a.scope)
unfolding scope_in
own_scope n a acts e u = rw (u, e) refl

later_scope :
    (n : String) (a : Action) (acts : List Action)
    → str_eq a.name n ≡ false
    → scope_in (a ∷ acts) n ≡ scope_in acts n
unfolding scope_in
later_scope n a acts e = elim (Bool-cases (str_eq (scope_in acts n) "")) [
  | inl z ↦ rw (z, e) (sym ((str_eq_iff (scope_in acts n) "").0 z))
  | inr z ↦ rw z refl
]

effective_version :
    (t : String)
    → ((str_eq t "Version" && true) || false)
      ≡ str_eq (if str_eq t "" then "Revision" else t) "Version"
effective_version t = elim (Bool-cases (str_eq t "")) [
  | inl z ↦ subst Agrees (sym ((str_eq_iff t "").0 z)) refl
  | inr z ↦ rw z (ground arith)
]
  where
    Agrees : String → Type 0
    Agrees t =
        ((str_eq t "Version" && true) || false)
        ≡ str_eq (if str_eq t "" then "Revision" else t) "Version"

-- Where no two actions have one name, the version-scoped names are those whose scope is Version.
contains-version_scoped :
    (n : String) (acts : List Action)
    → Distinct (action_names acts)
    → contains n (version_scoped acts) ≡ str_eq (scope_in acts n) "Version"
contains-version_scoped n [] d = unfold scope_in in refl
contains-version_scoped n (a ∷ acts) (x, d) = elim (Bool-cases (str_eq a.name n)) [
  | inl e ↦
      let same = (str_eq_iff a.name n).0 e in
      let (u, v) =
        unnamed_scope n acts (subst (λ m. contains m (action_names acts) ≡ false) same x) in
      version_scoped-cons n a acts ∙ rw (own_scope n a acts e u, v, e) (effective_version a.scope)
  | inr e ↦
      version_scoped-cons n a acts
      ∙ rw (later_scope n a acts e, e, contains-version_scoped n acts d) (ground arith)
]

-- The inputs that a preview gathers for a stage, from what the reconciler reads.
abbrev pub inputs_of :
    PlannedVersion → String → String → StageStatus → List LedgerCompletion → VerdictInputs
inputs_of plan revision current prior lifetime = record {
  revision = revision;
  versioned = plan.version_set;
  desired_version = plan.desired;
  current_version = current;
  prior = prior;
  lifetime = lifetime;
}

-- The names in a stage's ledgers have the scope of their ledger, and no action has both a completion
-- that stands and one whose witness is gone.
pub record AreScoped (s : Stage) (old : StageStatus) (gate : LifetimeGate) : Type 0 where
  pub by_revision :
      All
        (λ n. (str_eq (scope_of s n) "Version" || str_eq (scope_of s n) "Lifetime") ≡ false)
        old.executed_actions
  pub by_version : All (λ n. str_eq (scope_of s n) "Version" ≡ true) old.executed_version_actions
  pub by_lifetime : All (λ n. str_eq (scope_of s n) "Lifetime" ≡ true) gate.done
  pub standing : All (λ n. contains n gate.invalidated ≡ false) gate.done

-- The switch skips a name exactly where one of the ledgers holds it, or the baseline covers it.
skip_iff :
    (c : Consulted) (scope n : String)
    → (contains n c.rev_done ≡ false)
      ⊎ ((str_eq scope "Version" || str_eq scope "Lifetime") ≡ false)
    → (contains n c.ver_done ≡ false) ⊎ (str_eq scope "Version" ≡ true)
    → (contains n c.gate.done ≡ false) ⊎ (str_eq scope "Lifetime" ≡ true)
    → (contains n c.gate.done ≡ false) ⊎ (contains n c.gate.invalidated ≡ false)
    → (classify c scope n ≡ skip) ↔ (
        (contains n c.rev_done
          || ((contains n c.ver_done || (c.baseline && str_eq scope "Version"))
              || contains n c.gate.done))
        ≡ true)
unfolding classify
skip_iff c scope n r v l a = ground (
  arith,
  r,
  v,
  l,
  a,
  str_eq_iff scope "Version",
  str_eq_iff scope "Lifetime",
  str_eq_iff "Version" "Lifetime",
)

All-if :
    (P : String → Type 0) (b : Bool) (xs : List String) → All P xs → All P (if b then xs else [])
All-if P true xs h = h
All-if P false xs h = tt

module _ (read : AnchorWitness → AnchorRead) (s : Stage) (plan : PlannedVersion)
    (revision current : String) (prior : List StageStatus) (lifetime : List LedgerCompletion) where
  abbrev gate : LifetimeGate
  gate = evaluate_lifetime_gate read lifetime s.name

  abbrev old : StageStatus
  old = prior_of s.name prior

  -- The ledger with which the stage runs its actions.
  abbrev pub ledger : ActionLedger
  ledger = record (start_ledger plan s revision prior) { lifetime_done = gate.done }

  done_in_ledger :
      (n : String)
      → contains n (done_set ledger) ≡ (
          contains n ledger.executed
          || (contains n (start_ledger plan s revision prior).versioned || contains n gate.done))
  unfolding done_set
  done_in_ledger n =
      contains-append n _ _ ∙ ap (λ b. contains n ledger.executed || b) (contains-append n _ _)

  abbrev inputs : VerdictInputs
  inputs = inputs_of plan revision current old lifetime

  executed_same :
      str_eq revision "" ≡ false → ledger.executed ≡ (consult read s.name inputs).rev_done
  unfolding start_ledger consult
  executed_same r = elim (Option-cases (index_of s.name prior)) [
    | inl e ↦ rw (e, r) (ground arith)
    | inr (o, e) ↦ rw (e, r) refl
  ]

  abbrev carried : List String
  carried =
      if is_some (index_of s.name prior)
        && plan.version_set
        && str_eq old.ledger_version plan.desired
      then old.executed_version_actions
      else []

  abbrev baselined : List String
  baselined = if plan.baseline then version_scoped (s.pre ++ s.post) else []

  carried_same : carried ≡ (consult read s.name inputs).ver_done
  unfolding consult
  carried_same = elim (Option-cases (index_of s.name prior)) [
    | inl e ↦ rw e (ground arith)
    | inr (o, e) ↦ rw e refl
  ]

  baselined_same :
      (n : String)
      → plan.baseline ≡ (plan.version_set && str_eq current "")
      → contains n baselined
        ≡ ((consult read s.name inputs).baseline && contains n (version_scoped (s.pre ++ s.post)))
  unfolding consult
  baselined_same n b = elim (Bool-cases plan.baseline) [
    | inl e ↦ rw (e, sym b, e) refl
    | inr e ↦ rw (e, sym b, e) refl
  ]

  versioned_same :
      (n : String)
      → plan.baseline ≡ (plan.version_set && str_eq current "")
      → contains n (start_ledger plan s revision prior).versioned ≡ (
          contains n (consult read s.name inputs).ver_done
          || ((consult read s.name inputs).baseline
              && contains n (version_scoped (s.pre ++ s.post))))
  unfolding start_ledger
  versioned_same n b =
      contains-append n carried baselined ∙ rw (carried_same, baselined_same n b) refl

  -- A preview shows an action of the stage as skipped exactly where the executor finds its name done:
  -- where no two actions have one name, the revision is known, the plan is a baseline exactly on the
  -- first version, and each ledger holds names of its scope.
  pub skip_iff_done :
      (n : String)
      → Distinct (action_names (s.pre ++ s.post))
      → str_eq revision "" ≡ false
      → plan.baseline ≡ (plan.version_set && str_eq current "")
      → AreScoped s old gate
      → (classify (consult read s.name inputs) (scope_of s n) n ≡ skip)
        ↔ (contains n (done_set ledger) ≡ true)
  unfolding consult
  skip_iff_done n d r b scoped =
      let c = consult read s.name inputs in
      let found : contains n (done_set ledger) ≡ (
          contains n c.rev_done
          || ((contains n c.ver_done || (c.baseline && str_eq (scope_of s n) "Version"))
              || contains n gate.done)) =
        done_in_ledger n
        ∙ rw (executed_same r, versioned_same n b, contains-version_scoped n (s.pre ++ s.post) d)
            refl in
      rw found (
        skip_iff c (scope_of s n) n (All-contains _ n c.rev_done (All-if _ _ _ scoped.by_revision))
          (All-contains _ n c.ver_done (All-if _ _ _ scoped.by_version))
          (All-contains _ n gate.done scoped.by_lifetime)
          (All-contains _ n gate.done scoped.standing))
