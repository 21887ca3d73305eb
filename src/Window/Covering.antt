-- ===== src/Window/Covering.antt =====
-- internal/window/window.go, evalRecurring: when a recurring window is open, and until when.
use stageset_controller.Prelude.{
  ℕ, zero, suc, ◌+◌, ◌-◌, ◌≤◌, ◌<◌, ◌≡◌, sym, ◌∙◌, ◌≢◌, ◌↔◌, ◌⊎◌, inl, inr, Bool, true, false,
  arith, Bool-cases,
}
use stageset_controller.Window.{latest_start, cover, max_covering_starts}

-- What the cron library documents of `Next`: it lies strictly after its argument, it is an
-- activation, none lies between, and one that comes within the search horizon is found.
pub record IsSchedule (next : ℕ → ℕ) (fires : ℕ → Bool) (horizon : ℕ) : Type 0 where
  pub later : (t : ℕ) → next t ≢ 0 → t < next t
  pub activates : (t : ℕ) → next t ≢ 0 → fires (next t) ≡ true
  pub least : (t u : ℕ) → next t ≢ 0 → t < u → fires u ≡ true → next t ≤ u
  pub found : (t u : ℕ) → t < u → u ≤ t + horizon → fires u ≡ true → next t ≢ 0

-- A start of the schedule whose window of length `dur` is open at `now`.
abbrev pub Covers : (ℕ → Bool) → ℕ → ℕ → ℕ → Type 0
Covers fires dur now u = (now - dur < u) × (u ≤ now) × (fires u ≡ true)

module _ {next : ℕ → ℕ} {fires : ℕ → Bool} {horizon : ℕ} (s : IsSchedule next fires horizon) where
  open s use {later, activates, least, found}

  -- The walk stays on activations, moves forward and never passes `now`.
  pub latest_start_bounds :
      (n now latest : ℕ)
      → latest ≤ now
      → fires latest ≡ true
      → (latest ≤ latest_start n next now latest)
        × (latest_start n next now latest ≤ now)
        × (fires (latest_start n next now latest) ≡ true)
  unfolding latest_start
  latest_start_bounds zero now latest h f = (omega arith, h, f)
  latest_start_bounds (suc n) now latest h f =
      ground (arith, activates latest, latest_start_bounds n now (next latest))

  -- Where the walk ends, no later activation lies before `now`, or it has passed `n` of them.
  pub latest_start_last :
      (n now latest u : ℕ)
      → latest_start n next now latest < u
      → u ≤ now
      → fires u ≡ true
      → u ≤ latest_start n next now latest + horizon
      → latest + n ≤ latest_start n next now latest
  unfolding latest_start
  latest_start_last zero now latest u h k f w = omega arith
  latest_start_last (suc n) now latest u h k f w =
      ground (
        arith,
        later latest,
        least latest u,
        found latest u,
        latest_start_last n now (next latest) u,
      )

  cover_sound :
      (dur now : ℕ) → (cover next dur now).0 ≡ true → Covers fires dur now (next (now - dur))
  unfolding cover
  cover_sound dur now h = ground (arith, later (now - dur), activates (now - dur))

  cover_complete :
      (dur now u : ℕ) → dur ≤ horizon → Covers fires dur now u → (cover next dur now).0 ≡ true
  unfolding cover
  cover_complete dur now u h c = ground (arith, found (now - dur) u, least (now - dur) u)

  -- A recurring window of positive duration is open exactly when one of its starts covers the
  -- instant, for a duration within the search horizon of the cron library.
  pub cover_iff :
      (dur now : ℕ)
      → dur ≤ horizon
      → ((cover next dur now).0 ≡ true) ↔ ((u : ℕ) × Covers fires dur now u)
  cover_iff dur now h =
      (λ e. (next (now - dur), cover_sound dur now e), λ (u, c). cover_complete dur now u h c)

  -- While open, the reported boundary is the end of a covering start.
  cover_boundary :
      (dur now : ℕ)
      → (cover next dur now).0 ≡ true
      → (u : ℕ) × Covers fires dur now u × ((cover next dur now).1 ≡ u + dur)
  unfolding cover
  cover_boundary dur now h = (
    latest_start max_covering_starts next now (next (now - dur)),
    ground (
      arith,
      later (now - dur),
      activates (now - dur),
      latest_start_bounds max_covering_starts now (next (now - dur)),
    ),
    ground arith,
  )

  cover_closed :
      (dur now u : ℕ)
      → (cover next dur now).0 ≡ false
      → now - dur < u
      → u ≤ now - dur + horizon
      → fires u ≡ true
      → ((cover next dur now).1 ≢ 0) × ((cover next dur now).1 ≤ u) × (now < (cover next dur now).1)
  unfolding cover
  cover_closed dur now u h k w f = ground (arith, found (now - dur) u, least (now - dur) u)

  -- The answer of a recurring window holds at every instant before its boundary, or for as long as
  -- the search horizon reaches where it has none.
  pub cover_constant :
      (dur now t : ℕ)
      → now ≤ t
      → ((cover next dur now).1 ≡ 0) ⊎ (t < (cover next dur now).1)
      → (t - now) + dur ≤ horizon
      → (cover next dur t).0 ≡ (cover next dur now).0
  cover_constant dur now t h k w = elim (Bool-cases (cover next dur now).0) [
    | inl on ↦ rw on (
        let (u, c, b) = cover_boundary dur now on in
        cover_complete dur t u (omega arith) (omega arith, omega arith, c.2))
    | inr off ↦ elim (Bool-cases (cover next dur t).0) [
      | inl on ↦ absurd (
          let (v, w', f) = cover_sound dur t on in
          omega (arith, cover_closed dur now (next (t - dur)) off))
      | inr off' ↦ off' ∙ sym off
    ]
  ]
