-- ===== src/Budget/Hysteresis.antt =====
-- internal/controller/errorbudget.go, evaluateBudget and gateErrorBudget: a freeze over several readings.
use stageset_controller.Prelude.{
  ℕ, String, str_eq, ◌≡◌, true, false, Option, none, some, List, [], ◌∷◌, arith, All, ℤ, ok,
}
use stageset_controller.Metric.{Floats}
use stageset_controller.Budget.{
  ErrorBudget, BudgetFreeze, budget_thresholds, is_frozen, evaluate_budget, has_new_revision,
  gate_error_budget,
}

abbrev pub since_of : Option BudgetFreeze → Option ℕ
since_of none = none
since_of (some f) = f.since

module _ {F : Type 0} (fl : Floats F) (eb : ErrorBudget) (applied resolved : List (String × String))
    (retry_interval : ℤ) where
  -- What the rollout's gate records in a pass at `now` where the source answers so.
  abbrev pub frozen_by : ℕ × Option F → Option BudgetFreeze → Option BudgetFreeze
  frozen_by (now, answer) f =
      (gate_error_budget fl (λ s. answer) (some eb) false applied resolved f now
        retry_interval).freeze

  -- The freeze after a list of passes.
  abbrev pub freeze_after : List (ℕ × Option F) → Option BudgetFreeze → Option BudgetFreeze
  freeze_after [] f = f
  freeze_after (p ∷ passes) f = freeze_after passes (frozen_by p f)

  -- A reading below a limit, or none where the spec asks to hold.
  abbrev pub IsBelow : F → ℕ × Option F → Type 0
  IsBelow limit (now, none) = str_eq eb.on_source_error "Hold" ≡ true
  IsBelow limit (now, some value) = fl.less value limit ≡ true

  step-since :
      (freeze resume : F) (f : Option BudgetFreeze) (start now : ℕ) (answer : Option F)
      → has_new_revision applied resolved ≡ true
      → budget_thresholds fl eb ≡ ok (freeze, resume)
      → since_of f ≡ some start
      → IsBelow resume (now, answer)
      → since_of (frozen_by (now, answer) f) ≡ some start
  unfolding gate_error_budget evaluate_budget is_frozen
  step-since freeze resume none start now answer n t s b = absurd (ground arith)
  step-since freeze resume (some f) start now none n t s b = ground arith
  step-since freeze resume (some f) start now (some value) n t s b = ground arith

  -- While a new revision waits and no override is fresh, a freeze lasts, from the instant it began, over
  -- all passes whose readings stay below the resume threshold, also where they are above the freeze
  -- threshold, and over those that cannot read the source where the spec asks to hold then.
  pub freeze_lasts :
      (freeze resume : F) (passes : List (ℕ × Option F)) (f : Option BudgetFreeze) (start : ℕ)
      → has_new_revision applied resolved ≡ true
      → budget_thresholds fl eb ≡ ok (freeze, resume)
      → since_of f ≡ some start
      → All (IsBelow resume) passes
      → since_of (freeze_after passes f) ≡ some start
  freeze_lasts freeze resume [] f start n t s b = s
  freeze_lasts freeze resume ((now, answer) ∷ passes) f start n t s (b, bs) =
      freeze_lasts freeze resume passes _ start n t
        (step-since freeze resume f start now answer n t s b) bs
