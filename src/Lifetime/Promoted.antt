-- ===== src/Lifetime/Promoted.antt =====
-- internal/controller/lifetimeledger.go: what the baseline adds to a ledger.
use stageset_controller.Prelude.{
  ℕ, String, str_eq_refl, ◌≡◌, refl, sym, ap, ◌∙◌, subst, inl, inr, true, not, ◌||◌, List, [], ◌∷◌,
  ◌++◌, arith, Bool-cases, All, Elem, All-map,
}
use mathlib.Core.List.{append-nil, append_assoc}
use stageset_controller.Lifetime.{LedgerCompletion}
use stageset_controller.Lifetime.Records.{
  LedgerRef, StageLedger, LifetimeStage, Conditions, is_completed, is_lifetime_action, baselined_at,
  promote_refs, reconcile_baseline_condition, promote_baseline,
}

abbrev Completions : Type 0
Completions = List LedgerCompletion

pub is_completed-append :
    (cs ds : Completions) (s a : String)
    → is_completed (cs ++ ds) s a ≡ (is_completed cs s a || is_completed ds s a)
unfolding is_completed
is_completed-append [] ds s a = refl
is_completed-append (c ∷ cs) ds s a = ground (arith, is_completed-append cs ds s a)

is_completed-baselined :
    (cs : Completions) (now : ℕ) (r : LedgerRef)
    → is_completed (cs ++ baselined_at now r ∷ []) r.stage r.action ≡ true
unfolding is_completed
is_completed-baselined cs now r =
    is_completed-append cs (baselined_at now r ∷ []) r.stage r.action
    ∙ ground (arith, str_eq_refl r.stage, str_eq_refl r.action)

module _ (stages : List LifetimeStage) (now : ℕ) where
  abbrev pub Resolves : LedgerRef → Type 0
  Resolves r = is_lifetime_action stages r.stage r.action ≡ true

  -- A completion that the entry `r` of the baseline gives.
  abbrev pub IsFrom : List LedgerRef → LedgerCompletion → Type 0
  IsFrom rs c = (r : LedgerRef) × (Elem r rs × Resolves r × (c ≡ baselined_at now r))

  abbrev pub IsHeld : Completions → LedgerRef → Type 0
  IsHeld cs r =
      (not (is_lifetime_action stages r.stage r.action) || is_completed cs r.stage r.action) ≡ true

  -- What a list of entries adds.
  abbrev pub Adds : List LedgerRef → Completions → Completions → Type 0
  Adds rs before after =
      (added : Completions) × ((after ≡ before ++ added)
        × All (IsFrom rs) added
        × All (IsHeld after) rs)

  IsFrom-weaken :
      (r : LedgerRef) (rs : List LedgerRef) (cs : Completions)
      → All (IsFrom rs) cs
      → All (IsFrom (r ∷ rs)) cs
  IsFrom-weaken r rs = All-map λ c f. (f.0, (inr f.1.0, f.1.1, f.1.2))

  IsHeld-append :
      (before after added : Completions) (r : LedgerRef)
      → after ≡ before ++ added
      → IsHeld before r
      → IsHeld after r
  IsHeld-append before after added r e h = ground (
    arith,
    h,
    ap (λ cs. is_completed cs r.stage r.action) e,
    is_completed-append before added r.stage r.action,
  )

  -- An entry that resolves to nothing, or whose action is completed.
  Adds-skip :
      (r : LedgerRef) (rs : List LedgerRef) (cs after : Completions)
      → IsHeld cs r
      → Adds rs cs after
      → Adds (r ∷ rs) cs after
  Adds-skip r rs cs after k (added, (e, f, h)) =
      (added, (e, IsFrom-weaken r rs added f, (IsHeld-append cs after added r e k, h)))

  Adds-new :
      (r : LedgerRef) (rs : List LedgerRef) (cs after : Completions)
      → Resolves r
      → Adds rs (cs ++ baselined_at now r ∷ []) after
      → Adds (r ∷ rs) cs after
  Adds-new r rs cs after y (added, (e, f, h)) =
      let new = baselined_at now r in
      (
        new ∷ added,
        (
          e ∙ append_assoc cs (new ∷ []) added,
          ((r, (inl refl, y, refl)), IsFrom-weaken r rs added f),
          (
            IsHeld-append (cs ++ new ∷ []) after added r e
                (ground (arith, is_completed-baselined cs now r)),
            h,
          ),
        ),
      )

  promote_refs-Adds :
      (rs : List LedgerRef) (cs : Completions) → Adds rs cs (promote_refs stages now rs cs).0
  unfolding promote_refs
  promote_refs-Adds [] cs = ([], (sym (append-nil cs), tt, tt))
  promote_refs-Adds (r ∷ rs) cs =
      let after = (promote_refs stages now (r ∷ rs) cs).0 in
      let held : Adds rs cs (promote_refs stages now rs cs).0 = promote_refs-Adds rs cs in
      elim (Bool-cases (is_lifetime_action stages r.stage r.action)) [
        | inr n ↦
            Adds-skip r rs cs after (ground (arith, n)) (subst (Adds rs cs) (rw (n) refl) held)
        | inl y ↦ elim (Bool-cases (is_completed cs r.stage r.action)) [
          | inl d ↦
              Adds-skip r rs cs after (ground (arith, d)) (subst (Adds rs cs) (rw (y, d) refl) held)
          | inr d ↦
              let grown = cs ++ baselined_at now r ∷ [] in
              Adds-new r rs cs after y
                (subst (Adds rs grown) (rw (y, d) refl) (promote_refs-Adds rs grown))
        ]
      ]

  pub reconcile_baseline_condition-completions :
      (api : Conditions) (name : String) (p : StageLedger) (u : List String)
      → (reconcile_baseline_condition api name now p u).0.completed_actions ≡ p.completed_actions
  unfolding reconcile_baseline_condition
  reconcile_baseline_condition-completions api name p u = ground arith

  -- A pass over the baseline keeps the completions of a ledger as they stand and in their order, and appends
  -- only baselined ones, without a witness, of entries that name a Lifetime action of a stage. After it every
  -- such entry is completed.
  pub promote_baseline-Adds :
      (api : Conditions) (name : String) (l : StageLedger)
      → Adds l.baseline l.completed_actions
          (promote_baseline api name now stages l).ledger.completed_actions
  unfolding promote_baseline
  promote_baseline-Adds api name l =
      let refs = promote_refs stages now l.baseline l.completed_actions in
      subst (Adds l.baseline l.completed_actions)
        (sym (
          reconcile_baseline_condition-completions api name
            (record l { completed_actions = refs.0 }) refs.1))
        (promote_refs-Adds l.baseline l.completed_actions)
