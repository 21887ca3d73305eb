-- ===== src/Window/Aggregate.antt =====
-- internal/window/window.go, decisionAt: the decision over all windows and its next boundary.
use stageset_controller.Prelude.{
  ℕ, ◌-◌, ◌≤◌, ◌<◌, String, ◌≡◌, refl, sym, ◌∙◌, ◌≢◌, ◌⊎◌, inl, inr, Bool, List, [], ◌∷◌, arith,
  Result-cases, ok, err,
}
use stageset_controller.Window.{
  no_window, Cron, UpdateWindow, Tally, WindowError, eval_window, add_window, tally, decision_at,
}
use stageset_controller.Window.Boundary.{
  HaveCalendars, InHorizon, eval_window_constant, eval_window_future,
}

abbrev SameFlags : Tally → Tally → Type 0
SameFlags x y =
    (x.deny_active ≡ y.deny_active)
    × (x.allow_active ≡ y.allow_active)
    × (x.has_allow ≡ y.has_allow)

module _ (c : Cron) where
  add_next :
      (w : UpdateWindow) (e : Bool × ℕ) (x : Tally)
      → x.next ≢ 0
      → ((add_window c w e x).next ≢ 0) × ((add_window c w e x).next ≤ x.next)
  unfolding add_window
  add_next w (a, b) x nz = ground arith

  add_boundary :
      (w : UpdateWindow) (e : Bool × ℕ) (x : Tally)
      → e.1 ≢ 0
      → ((add_window c w e x).next ≢ 0) × ((add_window c w e x).next ≤ e.1)
  unfolding add_window
  add_boundary w (a, b) x nz = ground arith

  add_flags :
      (w : UpdateWindow) (a : Bool) (b b' : ℕ) (x y : Tally)
      → SameFlags x y
      → SameFlags (add_window c w (a, b) x) (add_window c w (a, b') y)
  unfolding add_window
  add_flags w a b b' x y s = ground arith

  add_future :
      (w : UpdateWindow) (a : Bool) (b now : ℕ) (x : Tally)
      → (x.next ≡ 0) ⊎ (now < x.next)
      → (b ≢ 0 → now < b)
      → ((add_window c w (a, b) x).next ≡ 0) ⊎ (now < (add_window c w (a, b) x).next)
  unfolding add_window
  add_future w a b now x f g = ground arith

  tally_cons :
      (w : UpdateWindow) (ws : List UpdateWindow) (now : ℕ) (x : Tally) {e : Bool × ℕ}
      → eval_window c w now ≡ ok e
      → tally c (w ∷ ws) now x ≡ tally c ws now (add_window c w e x)
  unfolding tally
  tally_cons w ws now x p = rw p

  tally_err :
      (w : UpdateWindow) (ws : List UpdateWindow) (now : ℕ) (x : Tally) {y : Tally}
      {e : WindowError}
      → eval_window c w now ≡ err e
      → tally c (w ∷ ws) now x ≢ ok y
  unfolding tally
  tally_err w ws now x p h = ground arith

  tally_next :
      (ws : List UpdateWindow) (now : ℕ) (x y : Tally)
      → tally c ws now x ≡ ok y
      → x.next ≢ 0
      → (y.next ≢ 0) × (y.next ≤ x.next)
  unfolding tally
  tally_next [] now x y h nz = ground arith
  tally_next (w ∷ ws) now x y h nz = elim (Result-cases (eval_window c w now)) [
    | inl (e, p) ↦ ground (arith, p, add_next w e x, tally_next ws now (add_window c w e x) y)
    | inr (e, p) ↦ absurd (ground arith)
  ]

module _ (c : Cron) (fires : String → String → ℕ → Bool) (horizon : ℕ) where
  tally_constant :
      (ws : List UpdateWindow) (k : HaveCalendars c fires horizon ws) (now t : ℕ) (x y x' : Tally)
      → tally c ws now x ≡ ok x'
      → SameFlags x y
      → now ≤ t
      → (x'.next ≡ 0) ⊎ (t < x'.next)
      → InHorizon horizon (t - now) ws
      → (y' : Tally) × (tally c ws t y ≡ ok y') × SameFlags x' y'
  tally_constant [] k now t x y x' h s le before near =
      (y, unfold tally in refl, unfold tally in ground arith)
  tally_constant (w ∷ ws) (k, ks) now t x y x' h s le before (n, near) =
      elim (Result-cases (eval_window c w now)) [
        | inl ((a, b), p) ↦
            let x1 : Tally = add_window c w (a, b) x in
            let rest : tally c ws now x1 ≡ ok x' = sym (tally_cons c w ws now x p) ∙ h in
            let (b', q) =
              eval_window_constant c fires horizon w k now t a b p le
                (ground (arith, add_boundary c w (a, b) x, tally_next c ws now x1 x' rest)) n in
            let (y', r, f) =
              tally_constant ws ks now t x1 (add_window c w (a, b') y) x' rest
                (add_flags c w a b b' x y s) le before near in
            (y', tally_cons c w ws t y q ∙ r, f)
        | inr (e, p) ↦ absurd (tally_err c w ws now x p h)
      ]

  tally_future :
      (ws : List UpdateWindow) (k : HaveCalendars c fires horizon ws) (now : ℕ) (x y : Tally)
      → tally c ws now x ≡ ok y
      → (x.next ≡ 0) ⊎ (now < x.next)
      → (y.next ≡ 0) ⊎ (now < y.next)
  tally_future [] k now x y h f = unfold tally in ground arith
  tally_future (w ∷ ws) (k, ks) now x y h f = elim (Result-cases (eval_window c w now)) [
    | inl ((a, b), p) ↦
        tally_future ws ks now (add_window c w (a, b) x) y (sym (tally_cons c w ws now x p) ∙ h)
          (add_future c w a b now x f (eval_window_future c fires horizon w k now a b p))
    | inr (e, p) ↦ absurd (tally_err c w ws now x p h)
  ]

  -- Until the next boundary, or for as long as the search horizon reaches where there is none, the
  -- decision stays as it is.
  pub decision_at_constant :
      (ws : List UpdateWindow) (k : HaveCalendars c fires horizon ws) (now t : ℕ) (allowed : Bool)
      (b : ℕ)
      → decision_at c ws now ≡ ok (allowed, b)
      → now ≤ t
      → (b ≡ 0) ⊎ (t < b)
      → InHorizon horizon (t - now) ws
      → (b' : ℕ) × (decision_at c ws t ≡ ok (allowed, b'))
  unfolding decision_at
  decision_at_constant ws k now t allowed b h le before near =
      elim (Result-cases (tally c ws now no_window)) [
        | inl (x', p) ↦
            let (y', q, f) =
              tally_constant ws k now t no_window no_window x' p (refl, refl, refl) le
                (ground arith) near in
            (y'.next, ground (arith, q))
        | inr (e, p) ↦ absurd (ground arith)
      ]

  -- The next boundary, where there is one, lies in the future.
  pub decision_at_future :
      (ws : List UpdateWindow) (k : HaveCalendars c fires horizon ws) (now : ℕ) (allowed : Bool)
      (b : ℕ)
      → decision_at c ws now ≡ ok (allowed, b)
      → b ≢ 0
      → now < b
  unfolding decision_at
  decision_at_future ws k now allowed b h nz = elim (Result-cases (tally c ws now no_window)) [
    | inl (x', p) ↦ ground (arith, tally_future ws k now no_window x' p (inl refl))
    | inr (e, p) ↦ absurd (ground arith)
  ]
