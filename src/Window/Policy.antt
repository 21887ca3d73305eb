-- ===== src/Window/Policy.antt =====
-- internal/window/window.go, the package comment: Deny windows take precedence, and where an Allow
-- window is declared, updates need an open one.
use stageset_controller.Prelude.{
  ℕ, str_eq, str_eq_iff, ◌≡◌, inl, inr, Bool, true, false, not, ◌&&◌, ◌||◌, List, [], ◌∷◌, arith,
  any, Result-cases, ok, err,
}
use stageset_controller.Window.{
  Cron, UpdateWindow, Tally, eval_window, add_window, no_window, tally, decision_at,
}

-- A window is open where it evaluates, and evaluates to active.
abbrev pub is_open : Cron → ℕ → UpdateWindow → Bool
is_open c now w = elim (eval_window c w now) [ ok (active, _) ↦ active | err _ ↦ false ]

abbrev is_deny : UpdateWindow → Bool
is_deny w = str_eq w.type "Deny"

abbrev is_allow : UpdateWindow → Bool
is_allow w = str_eq w.type "Allow"

-- The policy, over the whole list at once.
abbrev pub permits : Cron → ℕ → List UpdateWindow → Bool
permits c now ws =
    not (any (λ w. is_deny w && is_open c now w) ws)
    && (not (any is_allow ws) || any (λ w. is_allow w && is_open c now w) ws)

is_deny-allow : (w : UpdateWindow) → is_deny w ≡ true → is_allow w ≡ false
is_deny-allow w h =
    ground (arith, str_eq_iff w.type "Deny", str_eq_iff w.type "Allow", str_eq_iff "Deny" "Allow")

-- What `switch w.Type` adds for a window that evaluates to active or not.
abbrev Adds : UpdateWindow → Bool → Tally → Tally → Type 0
Adds w active x y =
    (y.deny_active ≡ (x.deny_active || (is_deny w && active)))
    × (y.has_allow ≡ (x.has_allow || is_allow w))
    × (y.allow_active ≡ (x.allow_active || (is_allow w && active)))

add_window-Adds :
    (c : Cron) (w : UpdateWindow) (a : Bool) (b : ℕ) (x : Tally)
    → Adds w a x (add_window c w (a, b) x)
unfolding add_window
add_window-Adds c w a b x = ground (arith, is_deny-allow w)

module _ (c : Cron) where
  tally_flags :
      (ws : List UpdateWindow) (now : ℕ) (x y : Tally)
      → tally c ws now x ≡ ok y
      → (y.deny_active ≡ (x.deny_active || any (λ w. is_deny w && is_open c now w) ws))
        × (y.has_allow ≡ (x.has_allow || any is_allow ws))
        × (y.allow_active ≡ (x.allow_active || any (λ w. is_allow w && is_open c now w) ws))
  tally_flags [] now x y h = unfold tally in ground arith
  tally_flags (w ∷ ws) now x y h = elim (Result-cases (eval_window c w now)) [
    | inl ((a, b), p) ↦
        let x1 : Tally = add_window c w (a, b) x in
        let (d, e, f) = tally_flags ws now x1 y (unfold tally in ground arith) in
        let (d', e', f') = add_window-Adds c w a b x in
        rw (p, is_open) (ground (arith, d, d'), ground (arith, e, e'), ground (arith, f, f'))
    | inr (e, p) ↦ unfold tally in absurd (ground arith)
  ]

  -- Where the windows evaluate, updates are allowed exactly as the policy permits: no Deny window is
  -- open, and an Allow window is open if there is one.
  pub decision_at-permits :
      (ws : List UpdateWindow) (now : ℕ) {allowed : Bool} {b : ℕ}
      → decision_at c ws now ≡ ok (allowed, b)
      → allowed ≡ permits c now ws
  unfolding decision_at
  decision_at-permits ws now h = elim (Result-cases (tally c ws now no_window)) [
    | inl (y, p) ↦ ground (arith, tally_flags ws now no_window y p)
    | inr (e, p) ↦ absurd (ground arith)
  ]
