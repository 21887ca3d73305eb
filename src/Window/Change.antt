-- ===== src/Window/Change.antt =====
-- internal/window/window.go, Decision: the walk from boundary to boundary to the next change.
use stageset_controller.Prelude.{
  ℕ, zero, suc, ◌+◌, ◌-◌, ◌*◌, ◌≤◌, ◌<◌, String, ◌≡◌, refl, sym, ◌≢◌, ◌⊎◌, inl, inr, Bool, true,
  false, not, none, List, [], ◌∷◌, arith, ◌==◌, Bool-cases, length, Result-cases, error_of, ok,
}
use native.Mathlib.Decide.{dec_lt}
use stageset_controller.Window.{
  Cron, UpdateWindow, decision_at, decision_loop, decision, differ, tally,
}
use stageset_controller.Window.Validity.{decision_loop_ok}
use stageset_controller.Window.Boundary.{HaveCalendars, InHorizon}
use stageset_controller.Window.Aggregate.{decision_at_constant, decision_at_future}

InHorizon-mono :
    (horizon a b : ℕ) (ws : List UpdateWindow)
    → a ≤ b
    → InHorizon horizon b ws
    → InHorizon horizon a ws
InHorizon-mono horizon a b [] le h = tt
InHorizon-mono horizon a b (w ∷ ws) le (h, hs) = (omega arith, InHorizon-mono horizon a b ws le hs)

differ-false : (a b : Bool) → differ a b ≡ false → a ≡ b
differ-false a b h = ground arith

differ-true : (a b : Bool) → differ a b ≡ true → a ≡ not b
differ-true a b h = ground arith

-- One round of the loop: the answer from the boundary of `cur`, the end of the walk, or its next round.
data Round (c : Cron) (n : ℕ) (ws : List UpdateWindow) (allowed : Bool) (earliest b : ℕ)
    (r : Bool × ℕ) : Type 0 where
  no_boundary : b ≡ 0 → r ≡ (allowed, 0) → Round c n ws allowed earliest b r
  flips :
      b ≢ 0
      → (b' : ℕ) → decision_at c ws b ≡ ok (not allowed, b')
      → r ≡ (allowed, b)
      → Round c n ws allowed earliest b r
  goes_on :
      b ≢ 0
      → (b' : ℕ) → decision_at c ws b ≡ ok (allowed, b')
      → decision_loop c n ws allowed earliest b ≡ ok r
      → Round c n ws allowed earliest b r

module _ (c : Cron) where
  round :
      (n : ℕ) (ws : List UpdateWindow) (allowed at_cur : Bool) (earliest cur b : ℕ) (r : Bool × ℕ)
      → decision_at c ws cur ≡ ok (at_cur, b)
      → decision_loop c (suc n) ws allowed earliest cur ≡ ok r
      → Round c n ws allowed earliest b r
  unfolding decision_loop
  round n ws allowed at_cur earliest cur b r at h = elim (Bool-cases (b == 0)) [
    | inl z ↦ no_boundary (ground arith) (ground arith)
    | inr nz ↦ elim (Result-cases (decision_at c ws b)) [
      | inl ((a, b'), p) ↦ elim (Bool-cases (differ a allowed)) [
        | inl d ↦ flips (ground arith) b' (rw (← differ-true a allowed d) p) (ground arith)
        | inr d ↦ goes_on (ground arith) b' (rw (← differ-false a allowed d) p) (ground arith)
      ]
      | inr (e, p) ↦ absurd (ground arith)
    ]
  ]

  loop_flips :
      (n : ℕ) (ws : List UpdateWindow) (allowed : Bool) (earliest cur b : ℕ) (r : Bool × ℕ)
      → decision_at c ws cur ≡ ok (allowed, b)
      → decision_loop c n ws allowed earliest cur ≡ ok r
      → r.1 ≢ 0
      → (r.1 ≡ earliest) ⊎ ((b' : ℕ) × (decision_at c ws r.1 ≡ ok (not allowed, b')))
  loop_flips zero ws allowed earliest cur b r at h nz = unfold decision_loop in inl (ground arith)
  loop_flips (suc n) ws allowed earliest cur b r at h nz =
      elim (round n ws allowed allowed earliest cur b r at h) [
        | no_boundary z e ↦ absurd (ground arith)
        | flips _ b' p e ↦ inr (b', rw e p)
        | goes_on _ b' p rest ↦ loop_flips n ws allowed earliest b b' r p rest nz
      ]

  loop_allowed :
      (n : ℕ) (ws : List UpdateWindow) (allowed : Bool) (earliest cur b : ℕ) (r : Bool × ℕ)
      → decision_at c ws cur ≡ ok (allowed, b)
      → decision_loop c n ws allowed earliest cur ≡ ok r
      → r.0 ≡ allowed
  loop_allowed zero ws allowed earliest cur b r at h = unfold decision_loop in ground arith
  loop_allowed (suc n) ws allowed earliest cur b r at h =
      elim (round n ws allowed allowed earliest cur b r at h) [
        | no_boundary z e ↦ ground arith
        | flips _ b' p e ↦ ground arith
        | goes_on _ b' p rest ↦ loop_allowed n ws allowed earliest b b' r p rest
      ]

  -- The start of Decision.
  start :
      (w : UpdateWindow) (ws : List UpdateWindow) (now : ℕ) (r : Bool × ℕ)
      → decision c (w ∷ ws) now ≡ ok r
      → (a : Bool) × (b : ℕ) × (decision_at c (w ∷ ws) now ≡ ok (a, b))
        × (decision_loop c (2 * length (w ∷ ws) + 2) (w ∷ ws) a b now ≡ ok r)
  unfolding decision
  start w ws now r h = elim (Result-cases (decision_at c (w ∷ ws) now)) [
    | inl ((a, b), p) ↦ (a, b, p, ground arith)
    | inr (e, p) ↦ absurd (ground arith)
  ]

  -- Decision answers what the aggregate decision at the instant answers.
  pub decision-decision_at :
      (ws : List UpdateWindow) (t : ℕ) (r : Bool × ℕ)
      → decision c ws t ≡ ok r
      → (b : ℕ) × (decision_at c ws t ≡ ok (r.0, b))
  decision-decision_at [] t r h = (0, unfold decision decision_at tally in ground arith)
  decision-decision_at (w ∷ ws) t r h =
      let (a, b, at, loop) = start w ws t r h in
      (b, rw (loop_allowed _ (w ∷ ws) a b t b r at loop) at)

  pub decision_at-decision :
      (ws : List UpdateWindow) (t : ℕ) (a : Bool) (b : ℕ)
      → decision_at c ws t ≡ ok (a, b)
      → (n : ℕ) × (decision c ws t ≡ ok (a, n))
  decision_at-decision ws t a b h = elim (Result-cases (decision c ws t)) [
    | inl (r, d) ↦
        let (b', at) = decision-decision_at ws t r d in
        let same : r.0 ≡ a = cc (at, h) in (r.1, rw (sym same) d)
    | inr (e, d) ↦ absurd (ground (arith, decision_ok ws t a b h, d))
  ]
    where
      decision_ok :
          (ws : List UpdateWindow) (t : ℕ) (a : Bool) (b : ℕ)
          → decision_at c ws t ≡ ok (a, b)
          → error_of (decision c ws t) ≡ none
      decision_ok [] t a b h = unfold decision in refl
      decision_ok (w ∷ ws) t a b h = unfold decision in rw h (decision_loop_ok c _ (w ∷ ws) a b t h)

module _ (c : Cron) (fires : String → String → ℕ → Bool) (horizon : ℕ) (ws : List UpdateWindow)
    (k : HaveCalendars c fires horizon ws) where
  -- The loop keeps the answer it was given, and the answer holds from `cur` to the change it finds.
  -- The earliest boundary is still ahead in the first round, and behind `cur` in every later one.
  loop_constant :
      (n : ℕ) (allowed : Bool) (earliest cur b : ℕ) (r : Bool × ℕ) (t : ℕ)
      → decision_at c ws cur ≡ ok (allowed, b)
      → (n ≢ 0) × (earliest ≡ b) ⊎ (earliest ≢ 0) × (earliest ≤ cur)
      → decision_loop c n ws allowed earliest cur ≡ ok r
      → cur ≤ t
      → (r.1 ≡ 0) ⊎ (t < r.1)
      → InHorizon horizon (t - cur) ws
      → (b' : ℕ) × (decision_at c ws t ≡ ok (allowed, b'))
  loop_constant zero allowed earliest cur b r t at first h le before near =
      absurd (unfold decision_loop in ground arith)
  loop_constant (suc n) allowed earliest cur b r t at first h le before near =
      elim (round c n ws allowed allowed earliest cur b r at h) [
        | no_boundary z e ↦
            decision_at_constant c fires horizon ws k cur t allowed b at le (inl z) near
        | flips nz b' p e ↦
            decision_at_constant c fires horizon ws k cur t allowed b at le (ground arith) near
        | goes_on nz b' p rest ↦ elim (dec_lt t b) [
          | yes lt ↦ decision_at_constant c fires horizon ws k cur t allowed b at le (inr lt) near
          | no ge ↦
              let ahead : cur < b = decision_at_future c fires horizon ws k cur allowed b at nz in
              loop_constant n allowed earliest b b' r t p (inr (ground arith, ground arith)) rest
                (omega arith) before
                (InHorizon-mono horizon (t - b) (t - cur) ws (omega arith) near)
        ]
      ]

  loop_future :
      (n : ℕ) (allowed : Bool) (earliest now cur b : ℕ) (r : Bool × ℕ)
      → decision_at c ws cur ≡ ok (allowed, b)
      → now ≤ cur
      → (earliest ≡ 0) ⊎ (now < earliest)
      → decision_loop c n ws allowed earliest cur ≡ ok r
      → (r.1 ≡ 0) ⊎ (now < r.1)
  loop_future zero allowed earliest now cur b r at le f h = unfold decision_loop in ground arith
  loop_future (suc n) allowed earliest now cur b r at le f h =
      elim (round c n ws allowed allowed earliest cur b r at h) [
        | no_boundary z e ↦ ground arith
        | flips nz b' p e ↦
            inr (ground (arith, e, decision_at_future c fires horizon ws k cur allowed b at nz))
        | goes_on nz b' p rest ↦
            loop_future n allowed earliest now b b' r p
              (ground (arith, decision_at_future c fires horizon ws k cur allowed b at nz)) f rest
      ]

module _ (c : Cron) (fires : String → String → ℕ → Bool) (horizon : ℕ) where
  -- The answer of Decision is the aggregate decision at `now`, and it holds at every instant from
  -- `now` up to the reported next change, or for good where none is reported, as far as the search
  -- horizon of the cron library reaches, for windows whose schedules fire at fixed instants.
  pub decision_constant :
      (ws : List UpdateWindow) (k : HaveCalendars c fires horizon ws) (now t : ℕ) (allowed : Bool)
      (change : ℕ)
      → decision c ws now ≡ ok (allowed, change)
      → now ≤ t
      → (change ≡ 0) ⊎ (t < change)
      → InHorizon horizon (t - now) ws
      → (b : ℕ) × (decision_at c ws t ≡ ok (allowed, b))
  decision_constant [] k now t allowed change h le before near =
      (0, unfold decision decision_at tally in ground arith)
  decision_constant (w ∷ ws) k now t allowed change h le before near =
      let (a, b, at, loop) = start c w ws now (allowed, change) h in
      let same : allowed ≡ a = loop_allowed c _ (w ∷ ws) a b now b (allowed, change) at loop in
      rw same (
        loop_constant c fires horizon (w ∷ ws) k _ a b now b (allowed, change) t at
          (inl (omega arith, refl)) loop le before near)

  -- The next change that Decision reports lies in the future, and there the decision is the opposite,
  -- unless the walk gave up: then it is the first boundary.
  pub decision_changes :
      (ws : List UpdateWindow) (k : HaveCalendars c fires horizon ws) (now : ℕ) (allowed : Bool)
      (change : ℕ)
      → decision c ws now ≡ ok (allowed, change)
      → change ≢ 0
      → (now < change)
        × (((b : ℕ) × (decision_at c ws change ≡ ok (not allowed, b)))
            ⊎ (decision_at c ws now ≡ ok (allowed, change)))
  decision_changes [] k now allowed change h nz = absurd (unfold decision in ground arith)
  decision_changes (w ∷ ws) k now allowed change h nz =
      let (a, b, at, loop) = start c w ws now (allowed, change) h in
      let same : allowed ≡ a = loop_allowed c _ (w ∷ ws) a b now b (allowed, change) at loop in
      let ahead : (change ≡ 0) ⊎ (now < change) =
        loop_future c fires horizon (w ∷ ws) k _ a b now now b (allowed, change) at (omega arith)
          (ground (arith, decision_at_future c fires horizon (w ∷ ws) k now a b at)) loop in
      (
        ground arith,
        elim (loop_flips c _ (w ∷ ws) a b now b (allowed, change) at loop nz) [
          | inl first ↦ inr (rw (same, first) at)
          | inr (b', flip) ↦ inl (b', rw same flip)
        ],
      )
