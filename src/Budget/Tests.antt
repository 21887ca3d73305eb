-- ===== src/Budget/Tests.antt =====
-- internal/controller/errorbudget.go on a budget that freezes below 10 and resumes at 20.
use stageset_controller.Prelude.{
  ℕ, String, ◌≡◌, refl, true, false, ◌||◌, Option, none, some, List, [], ◌∷◌, ltb, is_some, lookup,
  pos, ok,
}
use stageset_controller.Metric.{Floats}
use stageset_controller.Budget.{
  ErrorBudget, BudgetFreeze, budget_thresholds, is_frozen, evaluate_budget, has_new_revision,
  gate_stage_budget, gate_error_budget,
}
use stageset_controller.Budget.Hysteresis.{freeze_after, since_of, freeze_lasts}
use stageset_controller.Budget.Holding.{stage_as_rollout}

-- Whole numbers for the floating point ones.
abbrev floats : Floats ℕ
floats = record {
  parse_float = λ s. lookup s (("10", 10) ∷ ("20", 20) ∷ []);
  less = ltb;
  format_float = λ n. "";
}

abbrev budget : ErrorBudget
budget = record {
  source = record { prometheus = none; webhook = none };
  freeze_threshold = "10";
  resume_threshold = "20";
  on_source_error = "Hold";
  interval = none;
  dry_run = false;
}

program : Unit {0}
unfolding budget_thresholds is_frozen evaluate_budget has_new_revision gate_stage_budget
    gate_error_budget
program = tt

abbrev applied : List (String × String)
applied = ("web", "v1") ∷ []

abbrev updated : List (String × String)
updated = ("web", "v2") ∷ []

has_new_revision-updated : has_new_revision applied updated ≡ true
unfolding program
has_new_revision-updated = refl

abbrev frozen : Option BudgetFreeze
frozen = freeze_after floats budget applied updated (pos 5) ((100, some 9) ∷ []) none

thresholds : budget_thresholds floats budget ≡ ok (10, 20)
unfolding program
thresholds = refl

since-frozen : since_of frozen ≡ some 100
unfolding program
since-frozen = refl

-- At 15 a budget that was not frozen stays so.
never_frozen : freeze_after floats budget applied updated (pos 5) ((100, some 15) ∷ []) none ≡ none
unfolding program
never_frozen = refl

resumed :
    freeze_after floats budget applied updated (pos 5) ((200, some 15) ∷ (300, some 20) ∷ []) frozen
    ≡ none
unfolding program
resumed = refl

freeze_lasts_example :
    since_of (
      freeze_after floats budget applied updated
        (pos 5)
        ((200, some 15) ∷ (300, none) ∷ (400, some 19) ∷ [])
        frozen)
    ≡ some 100
freeze_lasts_example =
    freeze_lasts floats budget applied updated (pos 5) 10 20
      ((200, some 15) ∷ (300, none) ∷ (400, some 19) ∷ []) frozen 100 has_new_revision-updated
      thresholds since-frozen (refl, (refl, (refl, tt)))

-- A new revision is held, drift on the applied one is not.
held :
    (gate_error_budget floats
      (λ s. some 9)
      (some budget)
      false
      applied
      updated
      none
      100
      (pos 5)).deferred
    ≡ true
unfolding program
held = refl

steady :
    (gate_error_budget floats
      (λ s. some 9)
      (some budget)
      false
      applied
      applied
      none
      100
      (pos 5)).deferred
    ≡ false
unfolding program
steady = refl

stage_as_rollout_example :
    (gate_error_budget floats
      (λ s. some 9)
      (some budget)
      false
      applied
      updated
      none
      100
      (pos 5)).deferred
    ≡ ((gate_stage_budget floats (λ s. some 9) budget none 100 (pos 5)).hold
        || is_some (gate_stage_budget floats (λ s. some 9) budget none 100 (pos 5)).spec_err)
stage_as_rollout_example =
    stage_as_rollout floats (λ s. some 9) budget applied updated none 100 (pos 5)
      has_new_revision-updated
