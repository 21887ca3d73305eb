-- ===== src/Fleet/Order.antt =====
-- internal/controller/fleetrollout_controller.go, reconcile's second pass: waves open in their order.
use stageset_controller.Prelude.{
  ℕ, str_eq, str_eq_iff, ◌≡◌, refl, subst, inl, inr, Bool, true, false, not, ◌&&◌, ◌||◌, Option,
  none, some, List, [], ◌∷◌, ◌++◌, arith, if◌then◌else◌, Bool-cases, Option-cases, All, All-append,
  Elem, All-Elem,
}
use mathlib.Core.List.{append_assoc}
use stageset_controller.Metric.{MetricSource, Floats}
use stageset_controller.Fleet.{
  FleetRolloutSpec, FleetWaveStatus, FleetRolloutStatus, Member, fleet_approval_version,
}
use stageset_controller.Fleet.Rollout.{
  Patch, approve_version, roll_back_to, Group, stamp, concat_map, approve, rollback_member,
  settle_wave, gate_verdict, is_passed, is_regressed, is_failing, walk, approvals, halt, roll,
}

module _ {F : Type 0} (fl : Floats F) (querier : Option (MetricSource → Option F)) where
  module _ {L : Type 0} (spec : FleetRolloutSpec L) (prior : List FleetWaveStatus) (now : ℕ) where
    abbrev pub passes : Group L → Bool
    passes g = is_passed fl querier spec prior now g (settle_wave spec prior now g)

    abbrev pub stops : Group L → Bool
    stops g =
        is_regressed prior g (settle_wave spec prior now g)
        || is_failing (gate_verdict fl querier spec prior now g (settle_wave spec prior now g))

    -- Every wave of a list of waves passes.
    abbrev pub AllPass : List (Group L) → Type 0
    AllPass gs = All (λ g. passes g ≡ true) gs

    -- What a write of a pass may be. An approval is of a member of a wave, all earlier waves of which
    -- pass at this instant. A rollback is of a member of a wave that regressed or failed its gate.
    pub data IsPermitted (gs : List (Group L)) : Patch → Type 0 where
      approves :
          (before : List (Group L)) (g : Group L) (after : List (Group L)) (m : Member)
          → gs ≡ before ++ (g ∷ after)
          → AllPass before
          → Elem m g.members
          → IsPermitted gs (approve_version m.namespace m.name (fleet_approval_version spec m))
      rolls_back :
          (g : Group L) (m : Member)
          → Elem g gs
          → stops g ≡ true
          → Elem m g.members
          → spec.on_regression ≡ "Rollback"
          → IsPermitted gs (roll_back_to m.namespace m.name spec.previous_version)

    All-concat_map {ℓ κ} :
        {A : Type ℓ} (P : Patch → Type κ) (f : A → List Patch) (xs : List A)
        → All (λ x. All P (f x)) xs
        → All P (concat_map f xs)
    unfolding concat_map
    All-concat_map P f [] h = tt
    All-concat_map P f (x ∷ xs) (p, h) =
        All-append P (f x) (concat_map f xs) p (All-concat_map P f xs h)

    All-stamp {κ} :
        (P : Patch → Type κ) (accepts : Patch → Bool) (ps : List Patch)
        → All P ps
        → All P (stamp accepts ps).patches
    unfolding stamp
    All-stamp P accepts [] h = tt
    All-stamp P accepts (x ∷ xs) (p, h) = elim (Bool-cases (accepts x)) [
      | inl e ↦ rw e (p, All-stamp P accepts xs h)
      | inr e ↦ rw e tt
    ]

    All-snoc :
        (gs : List (Group L)) (g : Group L)
        → AllPass gs
        → passes g ≡ true
        → AllPass (gs ++ (g ∷ []))
    All-snoc gs g h e = All-append _ gs (g ∷ []) h (e, tt)

    -- A wave of `all` with the waves before it, which all pass.
    abbrev IsReached : List (Group L) → Group L → Type 0
    IsReached everything g =
        (before : List (Group L)) × (after : List (Group L)) × (everything ≡ before ++ (g ∷ after))
        × AllPass before

    walk-IsReached :
        (before gs : List (Group L))
        → AllPass before
        → All (IsReached (before ++ gs)) (walk fl querier spec prior now gs).opened
    unfolding walk
    walk-IsReached before [] h = tt
    walk-IsReached before (g ∷ gs) h =
        let ws = settle_wave spec prior now g in
        let verdict = gate_verdict fl querier spec prior now g ws in
        elim (Bool-cases (is_regressed prior g ws)) [
          | inl e ↦ rw (All, e) tt
          | inr e ↦ elim (Bool-cases (is_failing verdict)) [
            | inl k ↦ rw (All, e, k) tt
            | inr k ↦ elim (Bool-cases (passes g)) [
              | inr n ↦ rw (All, e, k, n) ((before, gs, refl, h), tt)
              | inl p ↦
                  let rest =
                    subst
                      (λ everything.
                        All (IsReached everything) (walk fl querier spec prior now gs).opened)
                      (append_assoc before (g ∷ []) gs)
                      (walk-IsReached (before ++ (g ∷ [])) gs (All-snoc before g h p)) in
                  rw (All, e, k, p) ((before, gs, refl, h), rest)
            ]
          ]
        ]

    -- A wave that stops the walk, if there is one.
    abbrev IsStopped : List (Group L) → Option (Group L) → Type 0
    IsStopped gs none = Unit
    IsStopped gs (some g) = (stops g ≡ true) × Elem g gs

    IsStopped-cons :
        (g : Group L) (gs : List (Group L)) (o : Option (Group L))
        → IsStopped gs o
        → IsStopped (g ∷ gs) o
    IsStopped-cons g gs none h = tt
    IsStopped-cons g gs (some x) (h, e) = (h, inr e)

    walk-IsStopped :
        (gs : List (Group L)) → IsStopped gs (walk fl querier spec prior now gs).halted_at
    unfolding walk
    walk-IsStopped [] = tt
    walk-IsStopped (x ∷ gs) =
        let ws = settle_wave spec prior now x in
        let verdict = gate_verdict fl querier spec prior now x ws in
        elim (Bool-cases (is_regressed prior x ws)) [
          | inl e ↦ rw (IsStopped, e) (ground arith, inl refl)
          | inr e ↦ elim (Bool-cases (is_failing verdict)) [
            | inl k ↦ rw (IsStopped, e, k) (ground arith, inl refl)
            | inr k ↦ rw (IsStopped, e, k) (IsStopped-cons x gs _ (walk-IsStopped gs))
          ]
        ]

    -- No write, or one that is permitted.
    All-unless {κ} :
        (P : Patch → Type κ) (b : Bool) (p : Patch) → P p → All P (if b then [] else p ∷ [])
    All-unless P true p h = tt
    All-unless P false p h = (h, tt)

    IsPermitted-approvals :
        (gs : List (Group L)) (g : Group L)
        → IsReached gs g
        → All (IsPermitted gs) (approvals fl querier spec prior now g)
    unfolding approve
    IsPermitted-approvals gs g (before, after, e, h) =
        All-concat_map (IsPermitted gs) (λ m. approve (fleet_approval_version spec m) m) g.members
          (All-Elem _ g.members
            (λ m k. All-unless (IsPermitted gs) _ _ (approves before g after m e h k)))

    IsPermitted-opened :
        (gs os : List (Group L))
        → All (IsReached gs) os
        → All (λ g. All (IsPermitted gs) (approvals fl querier spec prior now g)) os
    IsPermitted-opened gs [] h = tt
    IsPermitted-opened gs (o ∷ os) (p, h) =
        (IsPermitted-approvals gs o p, IsPermitted-opened gs os h)

    IsPermitted-rollbacks :
        (gs : List (Group L)) (g : Group L)
        → IsStopped gs (some g)
        → All (IsPermitted gs) (
            if str_eq spec.on_regression "Rollback" && not (str_eq spec.previous_version "")
            then concat_map (rollback_member spec.previous_version) g.members
            else [])
    unfolding rollback_member
    IsPermitted-rollbacks gs g (h, k) = elim (Bool-cases (str_eq spec.on_regression "Rollback")) [
      | inr e ↦ rw (All, e) tt
      | inl e ↦
          let all =
            All-concat_map (IsPermitted gs) (rollback_member spec.previous_version) g.members (
              All-Elem _ g.members (λ m n.
                All-unless (IsPermitted gs) _ _ (rolls_back g m k h n ((str_eq_iff _ _).0 e)))) in
          elim (Bool-cases (str_eq spec.previous_version "")) [
            | inl f ↦ rw (All, e, f) tt
            | inr f ↦ rw (All, e, f) all
          ]
    ]

    module _ (accepts : Patch → Bool) (status : FleetRolloutStatus) where
      halt-IsPermitted :
          (gs : List (Group L)) (waves : List FleetWaveStatus) (g : Group L)
          → IsStopped gs (some g)
          → All (IsPermitted gs) (halt fl querier spec prior now accepts status waves g).patches
      unfolding halt
      halt-IsPermitted gs waves g h =
          let ps =
            if str_eq spec.on_regression "Rollback" && not (str_eq spec.previous_version "")
            then concat_map (rollback_member spec.previous_version) g.members
            else [] in
          let done = All-stamp (IsPermitted gs) accepts ps (IsPermitted-rollbacks gs g h) in
          elim (Bool-cases (stamp accepts ps).failed) [
            | inl e ↦ rw (All, e) done
            | inr e ↦ rw (All, e) done
          ]

      -- Every write that a pass issues is permitted: it approves a member of a wave, all earlier waves
      -- of which pass at this instant, or it rolls back a member of a wave that regressed or failed its
      -- gate, where the spec asks for it.
      pub roll-IsPermitted :
          (gs : List (Group L))
          → All (IsPermitted gs) (roll fl querier spec prior now accepts status gs).patches
      unfolding roll
      roll-IsPermitted gs =
          let w = walk fl querier spec prior now gs in
          let ps = concat_map (approvals fl querier spec prior now) w.opened in
          let done = All-stamp (IsPermitted gs) accepts ps (
            All-concat_map (IsPermitted gs) (approvals fl querier spec prior now) w.opened
              (IsPermitted-opened gs w.opened (walk-IsReached [] gs tt))) in
          elim (Option-cases w.halted_at) [
            | inr (g, e) ↦
                rw (All, e)
                  (halt-IsPermitted gs w.waves g (subst (IsStopped gs) e (walk-IsStopped gs)))
            | inl e ↦ elim (Bool-cases (stamp accepts ps).failed) [
              | inl f ↦ rw (All, e, f) done
              | inr f ↦ elim (Option-cases w.first_open) [
                | inl o ↦ rw (All, e, f, o) done
                | inr (g, o) ↦ rw (All, e, f, o) done
              ]
            ]
          ]
