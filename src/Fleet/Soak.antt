-- ===== src/Fleet/Soak.antt =====
-- internal/controller/fleetrollout_controller.go, reconcile: the soak over several passes.
use stageset_controller.Prelude.{
  ℕ, ◌+◌, ◌≤◌, ◌≡◌, refl, Bool, true, false, Option, none, some, List, [], ◌∷◌, arith, length,
  add_duration, pos, to_second, to_second_le, to_second_mono, to_second_stays, stored_time,
}
use stageset_controller.Fleet.{Health, FleetWave, FleetRolloutSpec, FleetWaveStatus, Member}
use stageset_controller.Fleet.Rollout.{
  with_health, Patch, stamp, soak_of, prior_status, zero_if_unset, settle_wave, soak_is_over,
}

pub stamp-accepted :
    (accepts : Patch → Bool)
    → ((p : Patch) → accepts p ≡ true)
    → (ps : List Patch) → (stamp accepts ps).failed ≡ false
unfolding stamp
stamp-accepted accepts h [] = refl
stamp-accepted accepts h (p ∷ ps) = rw (h p) (stamp-accepted accepts h ps)

module _ {L : Type 0} (spec : FleetRolloutSpec L) (wave : FleetWave L) where
  -- The statuses of a wave over passes in which it stays settled, from the pass at `since` that found it
  -- settled first. Between them only the verdict of the gate may be written.
  pub data Soaking : FleetWaveStatus → ℕ → Type 0 where
    settles :
        (members : List Member) (prior : List FleetWaveStatus) (now : ℕ) (v : Option Health)
        → soak_of (prior_status wave.name prior) ≡ none
        → (settle_wave spec prior now (record { wave = wave; members = members })).settled ≡ true
        → Soaking
            (with_health v (settle_wave spec prior now (record { wave = wave; members = members })))
            now
    stays :
        (members : List Member) (prior : List FleetWaveStatus) (now : ℕ) (v : Option Health)
        {ws : FleetWaveStatus} {since : ℕ}
        → Soaking ws since
        → prior_status wave.name prior ≡ some ws
        → (settle_wave spec prior now (record { wave = wave; members = members })).settled ≡ true
        → Soaking
            (with_health v (settle_wave spec prior now (record { wave = wave; members = members })))
            since

  abbrev EndsFrom : ℕ → Option ℕ → Type 0
  EndsFrom n none = ⊥
  EndsFrom n (some u) = n ≤ u

  EndsFrom-stored_time :
      (t : ℕ) (o : Option ℕ) → EndsFrom (to_second t) o → EndsFrom (to_second t) (stored_time o)
  EndsFrom-stored_time t none h = h
  EndsFrom-stored_time t (some u) h =
      ground (arith, to_second_mono (to_second t) u h, to_second_stays t)

  -- However often it is written and read, the deadline is no earlier than the whole second before the one that
  -- the first pass set.
  Soaking-EndsFrom :
      {ws : FleetWaveStatus} {since : ℕ}
      → Soaking ws since
      → EndsFrom (to_second (add_duration since (zero_if_unset wave.soak))) ws.soak_until
  unfolding settle_wave with_health
  Soaking-EndsFrom {since = since} (settles ms prior now v n h) =
      ground (arith, n, h, to_second_le (add_duration since (zero_if_unset wave.soak)))
  Soaking-EndsFrom {since = since} (stays ms prior now v {ws = ws} s e h) =
      let end = add_duration since (zero_if_unset wave.soak) in
      ground (arith, e, h, EndsFrom-stored_time end ws.soak_until (Soaking-EndsFrom s))

  -- The soak of a wave is over only once its whole length has passed, its end cut to the second, since
  -- the pass that first found the wave settled, however often the rollout was reconciled in between.
  pub soak_is_whole :
      {ws : FleetWaveStatus} {since : ℕ} (length now : ℕ)
      → wave.soak ≡ some (pos length)
      → Soaking ws since
      → soak_is_over now ws ≡ true
      → to_second (since + length) ≤ now
  unfolding soak_is_over
  soak_is_whole length now e s h = ground (arith, Soaking-EndsFrom s, e, h)
