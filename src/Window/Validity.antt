-- ===== src/Window/Validity.antt =====
-- internal/window/window.go: which windows are malformed, and that it does not depend on the time.
use stageset_controller.Prelude.{
  ℕ, zero, suc, ◌≡◌, Bool, none, List, [], ◌∷◌, Result, ok, err, ◌>>=◌, arith, refl, error_of,
  error_of-map, ◌∙◌, sym, ap, ◌⊎◌, Result-cases, inl, inr,
}
use stageset_controller.Window.{
  no_window, Cron, UpdateWindow, WindowError, Tally, eval_window, eval_recurring, eval_absolute,
  tally, decision_at, decision_loop, decision, validate, add_window,
}

module _ (c : Cron) where
  -- Whether and how a window is malformed does not depend on the instant.
  pub error_of-eval_window :
      (w : UpdateWindow) (t u : ℕ) → error_of (eval_window c w t) ≡ error_of (eval_window c w u)
  unfolding eval_window eval_recurring eval_absolute
  error_of-eval_window w t u = ground arith

  error_of-tally :
      (ws : List UpdateWindow) (t u : ℕ) (a b : Tally)
      → error_of (tally c ws t a) ≡ error_of (tally c ws u b)
  unfolding tally
  error_of-tally [] t u a b = refl
  error_of-tally (w ∷ ws) t u a b =
      step (eval_window c w t) (eval_window c w u) (error_of-eval_window w t u)
        (λ a b. error_of-tally ws t u a b)
    where
      step :
          (p q : Result WindowError (Bool × ℕ))
          → error_of p ≡ error_of q
          → ((a b : Tally) → error_of (tally c ws t a) ≡ error_of (tally c ws u b))
          → error_of (p >>= λ e. tally c ws t (add_window c w e a))
            ≡ error_of (q >>= λ e. tally c ws u (add_window c w e b))
      step (ok p) (ok q) h rest = rest _ _
      step (ok p) (err e) h rest = cc
      step (err e) (ok q) h rest = cc
      step (err e) (err d) h rest = h

  error_of-decision_at-tally :
      (ws : List UpdateWindow) (t : ℕ) (a : Tally)
      → error_of (decision_at c ws t) ≡ error_of (tally c ws t a)
  unfolding decision_at
  error_of-decision_at-tally ws t a =
      error_of-map (tally c ws t no_window) _ ∙ error_of-tally ws t t no_window a

  pub error_of-decision_at :
      (ws : List UpdateWindow) (t u : ℕ)
      → error_of (decision_at c ws t) ≡ error_of (decision_at c ws u)
  error_of-decision_at ws t u =
      error_of-decision_at-tally ws t no_window
      ∙ error_of-tally ws t u _ _
      ∙ sym (error_of-decision_at-tally ws u no_window)

  validate-eq-tally :
      (ws : List UpdateWindow) (t : ℕ) (a : Tally) → validate c ws t ≡ error_of (tally c ws t a)
  unfolding validate tally
  validate-eq-tally [] t a = refl
  validate-eq-tally (w ∷ ws) t a = elim (Result-cases (eval_window c w t)) [
    | inl (e, p) ↦ ground (arith, validate-eq-tally ws t (add_window c w e a))
    | inr (e, p) ↦ ground arith
  ]

  pub decision_at_ok :
      (ws : List UpdateWindow) (t u : ℕ) {p : Bool × ℕ}
      → decision_at c ws t ≡ ok p
      → (q : Bool × ℕ) × (decision_at c ws u ≡ ok q)
  decision_at_ok ws t u h = elim (Result-cases (decision_at c ws u)) [
    | inl good ↦ good
    | inr (e, bad) ↦ absurd (cc (error_of-decision_at ws t u, ap error_of h, ap error_of bad))
  ]

  pub decision_loop_ok :
      (n : ℕ) (ws : List UpdateWindow) (allowed : Bool) (earliest cur : ℕ) {p : Bool × ℕ}
      → decision_at c ws cur ≡ ok p
      → error_of (decision_loop c n ws allowed earliest cur) ≡ none
  unfolding decision_loop
  decision_loop_ok zero ws allowed earliest cur h = refl
  decision_loop_ok (suc n) ws allowed earliest cur {p = p} h =
      let (q, at) = decision_at_ok ws cur p.1 h in
      rw (h, at) (ground (arith, decision_loop_ok n ws allowed earliest p.1 at))

  -- Decision fails exactly when Validate fails, with the same error, whatever instants the webhook
  -- and the reconcile evaluate the windows at.
  pub error_of-decision :
      (ws : List UpdateWindow) (t u : ℕ) → error_of (decision c ws u) ≡ validate c ws t
  unfolding decision
  error_of-decision [] t u = unfold validate in refl
  error_of-decision (w ∷ ws) t u = validate_first (Result-cases (decision_at c (w ∷ ws) u))
    where
      same : validate c (w ∷ ws) t ≡ error_of (decision_at c (w ∷ ws) u)
      same =
          validate-eq-tally (w ∷ ws) t no_window
          ∙ sym (error_of-decision_at-tally (w ∷ ws) t no_window)
          ∙ error_of-decision_at (w ∷ ws) t u

      validate_first :
          ((p : Bool × ℕ) × (decision_at c (w ∷ ws) u ≡ ok p))
            ⊎ ((e : WindowError) × (decision_at c (w ∷ ws) u ≡ err e))
          → error_of (decision c (w ∷ ws) u) ≡ validate c (w ∷ ws) t
      validate_first (inl (p, h)) = rw (same, h) (decision_loop_ok _ (w ∷ ws) p.0 p.1 u h)
      validate_first (inr (e, h)) = rw (same, h)
