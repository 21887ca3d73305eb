-- ===== src/Budget/Holding.antt =====
-- internal/controller/errorbudget.go, gateErrorBudget and gateStageBudget: when a rollout is held.
use stageset_controller.Prelude.{
  ℕ, String, str_eq, ◌≡◌, refl, ◌⊎◌, inl, inr, Bool, true, false, not, ◌&&◌, ◌||◌, Option, none,
  some, List, arith, is_some, ℤ,
}
use stageset_controller.Metric.{MetricSource, Floats}
use stageset_controller.Budget.{
  ErrorBudget, BudgetFreeze, BudgetVerdict, BudgetError, measured, spec_error, source_error,
  evaluate_budget, has_new_revision, gate_stage_budget, gate_error_budget,
}

module _ {F : Type 0} (fl : Floats F) (query : MetricSource → Option F) where
  -- Why a verdict ends a pass: bad thresholds, a source that cannot be read where the spec asks to hold, or
  -- a frozen budget that is no dry run.
  abbrev pub ends : ErrorBudget → BudgetVerdict F → Bool
  ends eb (spec_error e) = true
  ends eb source_error = str_eq eb.on_source_error "Hold"
  ends eb (measured value none) = false
  ends eb (measured value (some f)) = not eb.dry_run

  Verdict-cases :
      (v : BudgetVerdict F)
      → (((e : BudgetError) × (v ≡ spec_error e)) ⊎ (v ≡ source_error))
        ⊎ (((x : F) × (v ≡ measured x none))
            ⊎ ((x : F) × (f : BudgetFreeze) × (v ≡ measured x (some f))))
  Verdict-cases (spec_error e) = inl (inl (e, refl))
  Verdict-cases source_error = inl (inr refl)
  Verdict-cases (measured x none) = inr (inl (x, refl))
  Verdict-cases (measured x (some f)) = inr (inr (x, f, refl))

  -- A pass ends at the rollout's error budget exactly where no override is fresh, some artifact has a new
  -- revision, and the verdict asks for it: so drift is corrected while the budget is frozen.
  pub gate_error_budget_deferred :
      (eb : ErrorBudget) (override : Bool) (applied resolved : List (String × String))
      (prior : Option BudgetFreeze) (now : ℕ) (retry_interval : ℤ)
      → (gate_error_budget fl query
          (some eb)
          override
          applied
          resolved
          prior
          now
          retry_interval).deferred
        ≡ (not override
            && has_new_revision applied resolved
            && ends eb (evaluate_budget fl query eb prior now))
  unfolding gate_error_budget
  gate_error_budget_deferred eb override applied resolved prior now retry_interval =
      elim (Verdict-cases (evaluate_budget fl query eb prior now)) [
        | inl (inl (e, v)) ↦ ground arith
        | inl (inr v) ↦ ground arith
        | inr (inl (x, v)) ↦ ground arith
        | inr (inr (x, f, v)) ↦ ground arith
      ]

  -- For a new revision without override, the gate of a stage with a rollout's budget decides as the
  -- rollout's gate does: it holds or reports the bad thresholds exactly where the rollout is deferred.
  pub stage_as_rollout :
      (eb : ErrorBudget) (applied resolved : List (String × String)) (prior : Option BudgetFreeze)
      (now : ℕ) (retry_interval : ℤ)
      → has_new_revision applied resolved ≡ true
      → (gate_error_budget fl query
          (some eb)
          false
          applied
          resolved
          prior
          now
          retry_interval).deferred
        ≡ ((gate_stage_budget fl query eb prior now retry_interval).hold
            || is_some (gate_stage_budget fl query eb prior now retry_interval).spec_err)
  unfolding gate_error_budget gate_stage_budget
  stage_as_rollout eb applied resolved prior now retry_interval n =
      elim (Verdict-cases (evaluate_budget fl query eb prior now)) [
        | inl (inl (e, v)) ↦ ground arith
        | inl (inr v) ↦ ground arith
        | inr (inl (x, v)) ↦ ground arith
        | inr (inr (x, f, v)) ↦ ground arith
      ]
