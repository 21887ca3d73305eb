-- ===== src/Checks/Baseline.antt =====
-- internal/controller/restartgate.go and the stamp of RestartBaseline in the stage loop: what the
-- restart checks measure, and what one pass leaves for the next.
use stageset_controller.Prelude.{
  String, ◌≡◌, refl, sym, ◌∙◌, inl, inr, Option, none, some, List, [], ◌∷◌, ◌++◌, map, arith,
  if◌then◌else◌, Option-cases, is_some, get_or_else, All, lookup, ℤ, ltb_ℤ, Result-cases, ok,
}
use stageset_controller.Promotion.{RestartCheckBaseline, PromotionState, Verdict}
use stageset_controller.Checks.{
  RestartCheck, RestartGate, Target, RestartObservation, no_observation, prior_restart_baseline,
  rolls_back, excess, observe, pod_restart_total, observe_all, evaluate_restart_checks,
}
use mathlib.Core.List.{append-nil, append_assoc}

module _ {S : Type 0} where
  abbrev pub names : List (RestartCheck S) → List String
  names = map (λ c. c.name)

  -- One entry for each check, in order.
  abbrev Named : List RestartCheckBaseline → List (RestartCheck S) → Type 0
  Named [] [] = Unit
  Named (b ∷ bs) (c ∷ cs) = (b.name ≡ c.name) × Named bs cs
  Named _ _ = ⊥

  -- The first check whose total is more than its maximum above its baseline.
  abbrev pub first_excess :
      RestartGate S
      → List (RestartCheck S)
      → List RestartCheckBaseline
      → List RestartCheckBaseline
      → Option Verdict
  first_excess gate (c ∷ cs) (b ∷ bs) (t ∷ ts) =
      if ltb_ℤ c.max_restarts (excess t.restarts b.restarts)
      then some (record {
        check = c.name;
        observed = excess t.restarts b.restarts;
        rollback = rolls_back c.on_failure gate.on_failure;
      })
      else first_excess gate cs bs ts
  first_excess gate _ _ _ = none

-- Each entry is the one that the map gives for its name.
abbrev Carries : List (String × ℤ) → List RestartCheckBaseline → Type 0
Carries m = All (λ b. lookup b.name m ≡ some b.restarts)

module _ {S : Type 0} (t : Target S) (gate : RestartGate S) (m : List (String × ℤ)) where
  -- What the loop has added to an observation by its end.
  record Added (cs : List (RestartCheck S)) (x y : RestartObservation) : Type 0 where
    bases : List RestartCheckBaseline
    sums : List RestartCheckBaseline
    bases_named : Named bases cs
    sums_named : Named sums cs
    bases_added : y.baseline ≡ x.baseline ++ bases
    sums_added : y.totals ≡ x.totals ++ sums
    verdict_found :
        y.verdict ≡ (if is_some x.verdict then x.verdict else first_excess gate cs bases sums)

  Added-nil : (x y : RestartObservation) → x ≡ y → Added [] x y
  Added-nil x y e = record {
    bases = [];
    sums = [];
    bases_named = tt;
    sums_named = tt;
    bases_added = rw (sym e) (sym (append-nil x.baseline));
    sums_added = rw (sym e) (sym (append-nil x.totals));
    verdict_found = elim (Option-cases x.verdict) [
      | inl n ↦ rw (sym e, n) refl
      | inr (v, n) ↦ rw (sym e, n) refl
    ];
  }

  Added-cons :
      (c : RestartCheck S) (cs : List (RestartCheck S)) (total : ℤ) (x y : RestartObservation)
      → Added cs (observe gate m c total x) y
      → Added (c ∷ cs) x y
  unfolding observe
  Added-cons c cs total x y r =
      let base = get_or_else total (lookup c.name m) in
      record {
        bases = record { name = c.name; restarts = base } ∷ r.bases;
        sums = record { name = c.name; restarts = total } ∷ r.sums;
        bases_named = (refl, r.bases_named);
        sums_named = (refl, r.sums_named);
        bases_added = r.bases_added ∙ append_assoc x.baseline _ _;
        sums_added = r.sums_added ∙ append_assoc x.totals _ _;
        verdict_found = ground (arith, r.verdict_found);
      }

  observe_all-Added :
      (cs : List (RestartCheck S)) (x y : RestartObservation)
      → observe_all t gate m cs x ≡ ok y
      → Added cs x y
  unfolding observe_all
  observe_all-Added [] x y h = Added-nil x y cc
  observe_all-Added (c ∷ cs) x y h = elim (Result-cases (pod_restart_total t c.selector)) [
    | inr (e, p) ↦ absurd (ground arith)
    | inl (total, p) ↦
        Added-cons c cs total x y
          (observe_all-Added cs (observe gate m c total x) y (ground (arith, p, h)))
  ]

-- The states of a stage from a pass that observed `x` and from which the restarts are counted, through passes
-- that hold it. The first is one that promoted the stage, or one that found no promotion state recorded, as
-- after a pass that left the stage failed or becoming ready. A pass whose reads fail keeps the state.
pub data Since {S : Type 0} (gate : RestartGate S) (x : RestartObservation)
    : PromotionState → Type 0 where
  at_promotion : (st : PromotionState) → Since gate x (record st { restart_baseline = x.totals })
  at_loss :
      (u : Target S) (st : PromotionState)
      → evaluate_restart_checks u (some gate) none ≡ ok (some x)
      → Since gate x (record st { restart_baseline = x.baseline })
  held :
      {s : PromotionState}
      → Since gate x s
      → (u : Target S) (st : PromotionState) (y : RestartObservation)
      → evaluate_restart_checks u (some gate) (some s) ≡ ok (some y)
      → Since gate x (record st { restart_baseline = y.baseline })

module _ {S : Type 0} (gate : RestartGate S) where
  evaluate-observe_all :
      (t : Target S) (prior : Option PromotionState) (x : RestartObservation)
      → evaluate_restart_checks t (some gate) prior ≡ ok (some x)
      → observe_all t gate (prior_restart_baseline prior) gate.checks no_observation ≡ ok x
  unfolding evaluate_restart_checks
  evaluate-observe_all t prior x h =
      elim (Result-cases
        (observe_all t gate (prior_restart_baseline prior) gate.checks no_observation)) [
          | inl (y, p) ↦ p ∙ ground (arith, p, h)
          | inr (e, p) ↦ absurd (ground (arith, p, h))
        ]

  -- The verdict is that of the first check whose total is above its baseline by more than its maximum.
  pub verdict-first_excess :
      (t : Target S) (prior : Option PromotionState) (x : RestartObservation)
      → evaluate_restart_checks t (some gate) prior ≡ ok (some x)
      → x.verdict ≡ first_excess gate gate.checks x.baseline x.totals
  verdict-first_excess t prior x h =
      let r =
        observe_all-Added t gate (prior_restart_baseline prior) gate.checks no_observation x
          (evaluate-observe_all t prior x h) in
      rw (r.bases_added, r.sums_added) r.verdict_found
