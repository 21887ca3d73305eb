-- ===== src/Fleet/Halt.antt =====
-- internal/controller/fleetrollout_controller.go, halt: what the pass after a halt finds.
use stageset_controller.Prelude.{
  ℕ, str_eq, ◌≡◌, refl, sym, ap, ◌∙◌, subst, Bool, true, false, not, ◌&&◌, Option, none, some, List,
  [], ◌∷◌, arith, if◌then◌else◌,
}
use stageset_controller.Metric.{MetricSource, Floats}
use stageset_controller.Fleet.{
  FleetRolloutSpec, FleetWaveStatus, halted, in_progress, FleetRolloutStatus, wave_status,
}
use stageset_controller.Fleet.Rollout.{
  rollback_member, Patch, Group, FleetOutcome, concat_map, soak_of, prior_status, settle_wave,
  gate_verdict, is_passed, is_regressed, soak_is_over, walk, approvals, halt, roll,
}
use stageset_controller.Fleet.Soak.{stamp-accepted}

unsettled :
    {L : Type 0} (spec : FleetRolloutSpec L) (prior : List FleetWaveStatus) (now : ℕ) (g : Group L)
    → is_regressed prior g (settle_wave spec prior now g) ≡ true
    → (wave_status spec g.wave.name g.members).settled ≡ false
unfolding is_regressed settle_wave
unsettled spec prior now g r = ground arith

module _ {L : Type 0} (spec : FleetRolloutSpec L) (prior : List FleetWaveStatus) (now : ℕ)
    (g : Group L) (not_done : (wave_status spec g.wave.name g.members).settled ≡ false) where
  settled-settle_wave : (settle_wave spec prior now g).settled ≡ false
  unfolding settle_wave
  settled-settle_wave = not_done

  soak-settle_wave : (settle_wave spec prior now g).soak_until ≡ none
  unfolding settle_wave
  soak-settle_wave = rw not_done

  prior-settle_wave : soak_of (prior_status g.wave.name (settle_wave spec prior now g ∷ [])) ≡ none
  unfolding prior_status
  prior-settle_wave = ground (arith, soak-settle_wave)

module _ {F : Type 0} (fl : Floats F) (querier : Option (MetricSource → Option F)) {L : Type 0}
    (spec : FleetRolloutSpec L) (prior : List FleetWaveStatus) (now : ℕ) (g : Group L) where
  walk-regressed :
      is_regressed prior g (settle_wave spec prior now g) ≡ true
      → ((walk fl querier spec prior now (g ∷ [])).halted_at ≡ some g)
        × ((walk fl querier spec prior now (g ∷ [])).waves ≡ settle_wave spec prior now g ∷ [])
  unfolding walk
  walk-regressed r = rw r (refl, refl)

  verdict-unsettled :
      (settle_wave spec prior now g).settled ≡ false
      → gate_verdict fl querier spec prior now g (settle_wave spec prior now g) ≡ none
  unfolding gate_verdict soak_is_over
  verdict-unsettled u = rw u

  is_passed-unsettled :
      (settle_wave spec prior now g).settled ≡ false
      → is_passed fl querier spec prior now g (settle_wave spec prior now g) ≡ false
  unfolding is_passed soak_is_over
  is_passed-unsettled u = ground (arith, verdict-unsettled u)

  is_regressed-unsettled :
      soak_of (prior_status g.wave.name prior) ≡ none
      → is_regressed prior g (settle_wave spec prior now g) ≡ false
  unfolding is_regressed
  is_regressed-unsettled n = rw n

  walk-unsettled :
      (settle_wave spec prior now g).settled ≡ false
      → soak_of (prior_status g.wave.name prior) ≡ none
      → ((walk fl querier spec prior now (g ∷ [])).halted_at ≡ none)
        × ((walk fl querier spec prior now (g ∷ [])).first_open ≡ some g)
  unfolding walk
  walk-unsettled u n =
      rw (is_regressed-unsettled n, verdict-unsettled u, is_passed-unsettled u) (refl, refl)

module _ {F : Type 0} (fl : Floats F) (querier : Option (MetricSource → Option F)) {L : Type 0}
    (spec : FleetRolloutSpec L) (accepts : Patch → Bool)
    (accepted : (p : Patch) → accepts p ≡ true) where
  halt-phase :
      (prior : List FleetWaveStatus) (now : ℕ) (status : FleetRolloutStatus)
      (waves : List FleetWaveStatus) (g : Group L)
      → ((halt fl querier spec prior now accepts status waves g).status.phase ≡ halted)
        × ((halt fl querier spec prior now accepts status waves g).status.waves ≡ waves)
  unfolding halt
  halt-phase prior now status waves g =
      let ps =
        if str_eq spec.on_regression "Rollback" && not (str_eq spec.previous_version "")
        then concat_map (rollback_member spec.previous_version) g.members
        else [] in
      rw (stamp-accepted accepts accepted ps) (refl, refl)

  roll-halted :
      (prior : List FleetWaveStatus) (now : ℕ) (status : FleetRolloutStatus) (gs : List (Group L))
      (g : Group L)
      → (walk fl querier spec prior now gs).halted_at ≡ some g
      → ((roll fl querier spec prior now accepts status gs).status.phase ≡ halted)
        × ((roll fl querier spec prior now accepts status gs).status.waves
            ≡ (walk fl querier spec prior now gs).waves)
  unfolding roll
  roll-halted prior now status gs g e =
      ground (arith, halt-phase prior now status (walk fl querier spec prior now gs).waves g)

  roll-progresses :
      (prior : List FleetWaveStatus) (now : ℕ) (status : FleetRolloutStatus) (gs : List (Group L))
      (g : Group L)
      → (walk fl querier spec prior now gs).halted_at ≡ none
      → (walk fl querier spec prior now gs).first_open ≡ some g
      → (roll fl querier spec prior now accepts status gs).status.phase ≡ in_progress
  unfolding roll
  roll-progresses prior now status gs g a b =
      let w = walk fl querier spec prior now gs in
      ground (
        arith,
        stamp-accepted accepts accepted (concat_map (approvals fl querier spec prior now) w.opened),
      )

  -- Where the API server takes every write, a rollout of one wave, some member of which regressed after
  -- the wave had begun to soak, is halted. But the next pass over the same members is not: it reports
  -- the rollout as in progress.
  pub halt_is_forgotten :
      (prior : List FleetWaveStatus) (now later : ℕ) (status : FleetRolloutStatus) (g : Group L)
      → is_regressed prior g (settle_wave spec prior now g) ≡ true
      → (first : FleetOutcome) → roll fl querier spec prior now accepts status (g ∷ []) ≡ first
      → (first.status.phase ≡ halted)
        × ((roll fl querier spec first.status.waves later accepts first.status
              (g ∷ [])).status.phase
            ≡ in_progress)
  halt_is_forgotten prior now later status g r first e =
      let (h, ws) = walk-regressed fl querier spec prior now g r in
      let (p, q) = roll-halted prior now status (g ∷ []) g h in
      let u = unsettled spec prior now g r in
      let stored = ap (λ o. o.status.waves) (sym e) ∙ q ∙ ws in
      let n =
        subst (λ x. soak_of (prior_status g.wave.name x) ≡ none) (sym stored)
          (prior-settle_wave spec prior now g u) in
      let v = settled-settle_wave spec first.status.waves later g u in
      let (a, b) = walk-unsettled fl querier spec first.status.waves later g v n in
      (
        ap (λ o. o.status.phase) (sym e) ∙ p,
        roll-progresses first.status.waves later first.status (g ∷ []) g a b,
      )
