-- ===== src/Window/Boundary.antt =====
-- internal/window/window.go, evalWindow and decisionAt: the answer of a window, and of all windows,
-- lasts until the boundary that is reported with it.
use stageset_controller.Prelude.{
  ℕ, zero, suc, ◌+◌, ◌-◌, ◌≤◌, ◌<◌, String, ◌≡◌, refl, sym, ◌∙◌, ◌≢◌, ◌⊎◌, Bool, true, Option, none,
  some, List, arith, All, ℤ, pos, negsuc, ok,
}
use stageset_controller.Window.{
  Cron, UpdateWindow, eval_window, eval_recurring, eval_absolute, cover, max_covering_starts,
}
use stageset_controller.Window.Covering.{IsSchedule, cover_constant, latest_start_bounds}

-- The schedule of a window, where the cron library accepts it, fires at fixed instants, as the five fields and
-- `@daily` do; `@every` does not, which counts from the instant that it is asked at.
abbrev pub HasCalendar : Cron → (String → String → ℕ → Bool) → ℕ → UpdateWindow → Type 0
HasCalendar c fires horizon w =
    c.parse_standard w.schedule ≡ true
    → IsSchedule (c.next w.schedule w.time_zone) (fires w.schedule w.time_zone) horizon

abbrev pub HaveCalendars : Cron → (String → String → ℕ → Bool) → ℕ → List UpdateWindow → Type 0
HaveCalendars c fires horizon = All (HasCalendar c fires horizon)

-- The length of a recurring window.
abbrev pub span : UpdateWindow → ℕ
span w = elim w.duration [ some (pos d) ↦ d | _ ↦ 0 ]

-- Over `ahead` nanoseconds no start of a window comes from beyond the search horizon.
abbrev pub InHorizon : ℕ → ℕ → List UpdateWindow → Type 0
InHorizon horizon ahead ws = All (λ w. ahead + span w ≤ horizon) ws

-- How a window that is not malformed is evaluated, at two instants.
data Shape (c : Cron) (w : UpdateWindow) (t u : ℕ) : Type 0 where
  absolute :
      eval_window c w t ≡ eval_absolute w.from w.to t
      → eval_window c w u ≡ eval_absolute w.from w.to u
      → Shape c w t u
  recurring :
      (d : ℕ)
      → span w ≡ suc d
      → c.parse_standard w.schedule ≡ true
      → eval_window c w t ≡ ok (cover (c.next w.schedule w.time_zone) (suc d) t)
      → eval_window c w u ≡ ok (cover (c.next w.schedule w.time_zone) (suc d) u)
      → Shape c w t u

module _ (c : Cron) where
  classify_at :
      (w : UpdateWindow) (t u : ℕ) (duration : Option ℤ) {p : Bool × ℕ}
      → w.duration ≡ duration
      → eval_window c w t ≡ ok p
      → Shape c w t u
  unfolding eval_window eval_recurring
  classify_at w t u none e h = absolute (ground arith) (ground arith)
  classify_at w t u (some (negsuc d)) e h = absurd (ground arith)
  classify_at w t u (some (pos zero)) e h = absurd (ground arith)
  classify_at w t u (some (pos (suc d))) e h =
      recurring d (rw e) (ground arith) (ground arith) (ground arith)

  classify : (w : UpdateWindow) (t u : ℕ) {p : Bool × ℕ} → eval_window c w t ≡ ok p → Shape c w t u
  classify w t u h = classify_at w t u w.duration refl h

absolute_constant :
    (from to : Option ℕ) (now t : ℕ) (active : Bool) (b : ℕ)
    → eval_absolute from to now ≡ ok (active, b)
    → now ≤ t
    → (b ≡ 0) ⊎ (t < b)
    → (b' : ℕ) × (eval_absolute from to t ≡ ok (active, b'))
unfolding eval_absolute
absolute_constant none to now t active b h le before = cc
absolute_constant (some f) none now t active b h le before = cc
absolute_constant (some f) (some e) now t active b h le before = (b, ground arith)

module _ (c : Cron) (fires : String → String → ℕ → Bool) (horizon : ℕ) (w : UpdateWindow)
    (k : HasCalendar c fires horizon w) where
  pub eval_window_constant :
      (now t : ℕ) (active : Bool) (b : ℕ)
      → eval_window c w now ≡ ok (active, b)
      → now ≤ t
      → (b ≡ 0) ⊎ (t < b)
      → (t - now) + span w ≤ horizon
      → (b' : ℕ) × (eval_window c w t ≡ ok (active, b'))
  eval_window_constant now t active b h le before near = constant (classify c w now t h)
    where
      constant : Shape c w now t → (b' : ℕ) × (eval_window c w t ≡ ok (active, b'))
      constant (absolute p q) =
          rw q (absolute_constant w.from w.to now t active b (sym p ∙ h) le before)
      constant (recurring d sp ps p q) =
          let same = cover_constant (k ps) (suc d) now t le in
          ((cover (c.next w.schedule w.time_zone) (suc d) t).1, ground (arith, p, q, h, same))

  cover_future :
      (now d : ℕ)
      → c.parse_standard w.schedule ≡ true
      → (cover (c.next w.schedule w.time_zone) (suc d) now).1 ≢ 0
      → now < (cover (c.next w.schedule w.time_zone) (suc d) now).1
  unfolding cover
  cover_future now d ps h =
      let s = k ps in
      let from = now - suc d in
      ground (
        arith,
        s.later from,
        s.activates from,
        latest_start_bounds s max_covering_starts now (c.next w.schedule w.time_zone from),
      )

  -- A boundary lies in the future.
  pub eval_window_future :
      (now : ℕ) (active : Bool) (b : ℕ) → eval_window c w now ≡ ok (active, b) → b ≢ 0 → now < b
  eval_window_future now active b h nz = future (classify c w now now h)
    where
      absolute_future : (from to : Option ℕ) → eval_absolute from to now ≡ ok (active, b) → now < b
      absolute_future none to e = unfold eval_absolute in cc
      absolute_future (some f) none e = unfold eval_absolute in cc
      absolute_future (some f) (some u) e = unfold eval_absolute in ground arith

      future : Shape c w now now → now < b
      future (absolute p q) = absolute_future w.from w.to (sym p ∙ h)
      future (recurring d sp ps p q) = ground (arith, p, h, cover_future now d ps)
