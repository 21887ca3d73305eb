-- ===== src/Promotion/Gate/Soak.antt =====
-- internal/controller/promotion.go: over every history of passes at one revision, the soak is neither
-- skipped nor restarted by a hold that comes and goes.
use stageset_controller.Prelude.{
  ℕ, ◌+◌, ◌≤◌, String, str_eq, str_eq_refl, ◌≡◌, refl, sym, ◌∙◌, inl, inr, Bool, true, false,
  Option, none, some, arith, Bool-cases, Option-cases, is_some, to_second, to_second_le,
  to_second_mono, to_second_stays, stored_time,
}
use stageset_controller.Promotion.{
  in_phase, soaking, blocked, PromotionState, StagePromotion, StageStatus, Pass, Outcome, past_soak,
  carried, carry_soak_until, phase_since, same_phase,
}
use stageset_controller.Promotion.Gate.{
  Analysed, analyse, soak_length, is_past_soak, soak_since, fast_tracked, gate_manual,
  gate_analysis, gate_soak, gate_failure, gate_checks, gate_stage, gate_promotion, is_promoted,
  is_fresh,
}
use stageset_controller.Promotion.Gate.Lifecycle.{settle, stored_state, recorded_state}
use stageset_controller.Checks.{RestartObservation, adopted}

abbrev AtLeast : ℕ → Option ℕ → Type 0
AtLeast n none = Unit
AtLeast n (some u) = n ≤ u

AtLeast-stored_time :
    (t : ℕ) (o : Option ℕ) → AtLeast (to_second t) o → AtLeast (to_second t) (stored_time o)
AtLeast-stored_time t none h = tt
AtLeast-stored_time t (some u) h =
    ground (arith, to_second_mono (to_second t) u h, to_second_stays t)

is_some-stored_time : (o : Option ℕ) → is_some (stored_time o) ≡ is_some o
is_some-stored_time none = refl
is_some-stored_time (some u) = refl

-- What a pass over a revision leaves behind: no phase after the soak before the deadline, and no deadline
-- before that one.
abbrev pub Soaks : ℕ → ℕ → Option PromotionState → Type 0
Soaks deadline now none = Unit
Soaks deadline now (some s) =
    (past_soak s.phase ≡ true → deadline ≤ now)
    × AtLeast deadline s.soak_until
    × (same_phase s.phase soaking ≡ true → is_some s.soak_until ≡ true)

module _ (stage : String) (p : StagePromotion) (revision : String) where
  -- The passes over a revision, from the first, which finds another revision recorded, to one that
  -- leaves the status `s` at `now`. No token is fresh, and no rollback lands.
  pub data History (t0 : ℕ) : StageStatus → ℕ → Type 0 where
    arrives :
        (prior : StageStatus) (x : Pass) (restarts : Option RestartObservation)
        → str_eq prior.applied_revision revision ≡ false
        → is_fresh stage p prior x ≡ false
        → x.now ≡ t0
        → History t0
            (settle revision restarts (gate_promotion stage (some p) revision prior x) none)
            x.now
    again :
        {prior : StageStatus} {before : ℕ} (x : Pass) (restarts : Option RestartObservation)
        → History t0 prior before
        → is_fresh stage p prior x ≡ false
        → before ≤ x.now
        → History t0
            (settle revision restarts (gate_promotion stage (some p) revision prior x) none)
            x.now

  -- The deadline that the soak has from the first pass, to the second.
  abbrev pub deadline_of : ℕ → ℕ
  deadline_of t0 = to_second (t0 + soak_length p)

  soak_until_ge :
      (t0 before now : ℕ) (current : Option PromotionState)
      → Soaks (deadline_of t0) before current
      → t0 ≤ now
      → deadline_of t0 ≤ soak_since current (soak_length p) now + soak_length p
  unfolding soak_since
  soak_until_ge t0 before now none i le = omega (arith, to_second_le (t0 + soak_length p))
  soak_until_ge t0 before now (some s) i le = ground (arith, to_second_le (t0 + soak_length p))

  past_over :
      (t0 before : ℕ) (current : Option PromotionState)
      → Soaks (deadline_of t0) before current
      → is_past_soak current ≡ true
      → deadline_of t0 ≤ before
  past_over t0 before none i h = cc
  past_over t0 before (some s) i h = i.0 h

  module _ (t0 before : ℕ) (prior : StageStatus) (x : Pass) (le : before ≤ x.now)
      (from : t0 ≤ x.now) where
    gate_manual-Soaks :
        (current : Option PromotionState) (a : Analysed)
        → deadline_of t0 ≤ x.now
        → Soaks (deadline_of t0) x.now (gate_manual stage p prior x current a).state
    unfolding gate_manual
    gate_manual-Soaks current a over = ground arith

    gate_analysis-Soaks :
        (same : Bool) (a : Analysed)
        → deadline_of t0 ≤ x.now
        → Soaks (deadline_of t0) x.now (gate_analysis stage p prior x same a).state
    unfolding gate_analysis
    gate_analysis-Soaks same a over =
        ground (arith, gate_manual-Soaks (carried prior.promotion_state same) a over)

    gate_soak-Soaks :
        (same : Bool) (a : Analysed)
        → Soaks (deadline_of t0) before (carried prior.promotion_state same)
        → p.fast_track ≡ none
        → Soaks (deadline_of t0) x.now (gate_soak stage p prior x same a).state
    unfolding gate_soak fast_tracked
    gate_soak-Soaks same a i nf =
        let current = carried prior.promotion_state same in
        ground (
          arith,
          soak_until_ge t0 before x.now current i from,
          to_second_le (t0 + soak_length p),
          from,
          past_over t0 before current i,
          gate_analysis-Soaks same a,
        )

    held-Soaks :
        (s : PromotionState) (same : Bool)
        → s.phase ≡ blocked
        → s.soak_until ≡ none
        → Soaks (deadline_of t0) before (carried prior.promotion_state same)
        → Soaks (deadline_of t0) x.now (some (carry_soak_until s prior.promotion_state same))
    unfolding carry_soak_until
    held-Soaks s same b n i = held (carried prior.promotion_state same) i
      where
        held :
            (current : Option PromotionState)
            → Soaks (deadline_of t0) before current
            → Soaks (deadline_of t0) x.now (
                some (elim current [
                  | none ↦ s
                  | some q ↦ elim q.soak_until [
                    | none ↦ s
                    | some u ↦ record s { soak_until = some u }
                  ]
                ]))
        held none i = ground arith
        held (some q) i = ground arith

    gate_checks-Soaks :
        (same : Bool)
        → Soaks (deadline_of t0) before (carried prior.promotion_state same)
        → p.fast_track ≡ none
        → Soaks (deadline_of t0) x.now (gate_checks stage p prior x same).state
    unfolding gate_checks gate_failure
    gate_checks-Soaks same i nf = elim (Option-cases x.restart) [
      | inr (r, e) ↦ rw (e, gate_checks) (held-Soaks _ same refl refl i)
      | inl e ↦ elim (Option-cases x.event) [
        | inr (r, f) ↦ rw (e, gate_checks) (rw f (held-Soaks _ same refl refl i))
        | inl f ↦
            rw (e, gate_checks)
              (rw f (failure (analyse p.analysis x.verdict (carried prior.promotion_state same))))
      ]
    ]
      where
        failure :
            (a : Analysed)
            → Soaks (deadline_of t0) x.now (gate_failure stage p prior x same a).state
        failure a = ground (
          arith,
          held-Soaks (in_phase blocked (phase_since prior.promotion_state same blocked x.now)) same
              refl refl i,
          gate_soak-Soaks same a i nf,
        )

  -- One pass over the revision keeps what the passes before it left.
  pass-Soaks :
      (t0 before : ℕ) (prior : StageStatus) (x : Pass) (same : Bool)
      → same ≡ str_eq prior.applied_revision revision
      → Soaks (deadline_of t0) before (carried prior.promotion_state same)
      → before ≤ x.now
      → t0 ≤ x.now
      → p.fast_track ≡ none
      → is_fresh stage p prior x ≡ false
      → Soaks (deadline_of t0) x.now (gate_promotion stage (some p) revision prior x).state
  unfolding gate_promotion gate_stage
  pass-Soaks t0 before prior x same e i le from nf f =
      elim (Bool-cases (is_promoted (carried prior.promotion_state same))) [
        | inl done ↦ rw (← e) (rw (done) (kept same done i))
        | inr open_gate ↦
            rw (← e) (rw (open_gate) (rw f (gate_checks-Soaks t0 before prior x le from same i nf)))
      ]
    where
      later :
          (current : Option PromotionState)
          → Soaks (deadline_of t0) before current
          → Soaks (deadline_of t0) x.now current
      later none i = tt
      later (some s) (a, b, c) = (λ h. omega (arith, a h), b, c)

      kept :
          (same : Bool)
          → is_promoted (carried prior.promotion_state same) ≡ true
          → Soaks (deadline_of t0) before (carried prior.promotion_state same)
          → Soaks (deadline_of t0) x.now prior.promotion_state
      kept true done i = later prior.promotion_state i
      kept false done i = cc

  -- Writing the deadline in whole seconds does not bring it forward.
  stored_state-Soaks :
      (t0 now : ℕ) (state : Option PromotionState)
      → Soaks (deadline_of t0) now state
      → Soaks (deadline_of t0) now (stored_state state)
  unfolding stored_state
  stored_state-Soaks t0 now none i = tt
  stored_state-Soaks t0 now (some s) (a, b, c) = (
    a,
    AtLeast-stored_time (t0 + soak_length p) s.soak_until b,
    λ h. is_some-stored_time s.soak_until ∙ c h,
  )

  adopted-Soaks :
      (t0 now : ℕ) (restarts : Option RestartObservation) (advances : Bool)
      (state : Option PromotionState)
      → Soaks (deadline_of t0) now state
      → Soaks (deadline_of t0) now (adopted restarts advances state)
  adopted-Soaks t0 now none advances state i = i
  adopted-Soaks t0 now (some r) advances none i = i
  adopted-Soaks t0 now (some r) advances (some s) i = i

  recorded_state-Soaks :
      (t0 now : ℕ) (restarts : Option RestartObservation) (o : Outcome)
      → Soaks (deadline_of t0) now o.state
      → Soaks (deadline_of t0) now (recorded_state restarts o)
  recorded_state-Soaks t0 now restarts o i =
      stored_state-Soaks t0 now (adopted restarts o.advances o.state)
        (adopted-Soaks t0 now restarts o.advances o.state i)

  carried_self :
      (s : StageStatus)
      → s.applied_revision ≡ revision
      → carried s.promotion_state (str_eq s.applied_revision revision) ≡ s.promotion_state
  carried_self s e = rw e (rw (str_eq_refl revision))

  History-Soaks :
      (t0 : ℕ) {s : StageStatus} {now : ℕ}
      → p.fast_track ≡ none
      → History t0 s now
      → (t0 ≤ now) × (s.applied_revision ≡ revision) × Soaks (deadline_of t0) now s.promotion_state
  unfolding settle
  History-Soaks t0 nf (arrives prior x restarts new f at) = (
    omega arith,
    refl,
    recorded_state-Soaks t0 x.now restarts (gate_promotion stage (some p) revision prior x)
        (pass-Soaks t0 x.now prior x false (sym new) tt (omega arith) (omega arith) nf f),
  )
  History-Soaks t0 nf (again {prior = prior} {before = before} x restarts h f le) =
      let (from, r, i) = History-Soaks t0 nf h in
      (
        omega arith,
        refl,
        recorded_state-Soaks t0 x.now restarts (gate_promotion stage (some p) revision prior x) (
            pass-Soaks t0 before prior x (str_eq prior.applied_revision revision) refl
              (rw (carried_self prior r) i) le (omega arith) nf f),
      )

  -- Without fast-track and without a token, over passes that each read the record of the gate of the one
  -- before, a stage is promoted at a revision only once the soak has passed since the first pass over that
  -- revision, its end cut to the second, whatever the restart, event and analysis gates blocked and
  -- released in between.
  pub History-promoted :
      (t0 : ℕ) {s : StageStatus} {now : ℕ}
      → p.fast_track ≡ none
      → History t0 s now
      → is_promoted s.promotion_state ≡ true
      → to_second (t0 + soak_length p) ≤ now
  History-promoted t0 {s = s} {now = now} nf h done =
      over s.promotion_state (History-Soaks t0 nf h).2 done
    where
      over :
          (current : Option PromotionState)
          → Soaks (deadline_of t0) now current
          → is_promoted current ≡ true
          → to_second (t0 + soak_length p) ≤ now
      over none i d = cc
      over (some s) i d = i.0 (ground arith)
