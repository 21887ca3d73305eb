-- ===== src/Deferral/Holding.antt =====
-- internal/controller/windows.go, gateUpdateWindows: which passes it defers, and until when.
use stageset_controller.Prelude.{
  ℕ, ◌-◌, ◌≤◌, ◌<◌, String, str_eq, ◌≡◌, refl, ap, ◌∙◌, subst, ◌≢◌, ◌↔◌, ◌⊎◌, inl, inr, Bool, true,
  false, not, ◌&&◌, ◌||◌, none, some, List, [], ◌∷◌, arith, ◌==◌, if◌then◌else◌, length, any, ℤ,
  Result-cases, error_of, ok, err,
}
use stageset_controller.Window.{Cron, UpdateWindow, WindowError, decision_at, decision, validate}
use stageset_controller.Window.Policy.{permits, decision_at-permits}
use stageset_controller.Window.Validity.{error_of-decision}
use stageset_controller.Window.Boundary.{HaveCalendars, InHorizon}
use stageset_controller.Window.Change.{
  decision_constant, decision_changes, decision-decision_at, decision_at-decision,
}
use stageset_controller.Deferral.{
  Rollout, Resolved, DeliveryStatus, revisions_of, fresh_override, is_new, defer, decided,
  after_decision, gate_update_windows,
}

-- The windows apply to the pass: it brings a new revision, or the scope is All.
abbrev pub is_subject : Rollout → List Resolved → DeliveryStatus → Bool
is_subject r resolved s = any (is_new s) resolved || str_eq r.window_scope "All"

-- The windows are malformed, or they permit nothing now and apply to the pass.
abbrev pub IsHeld : Cron → Rollout → List Resolved → ℕ → DeliveryStatus → Type 0
IsHeld c r resolved now s =
    ((e : WindowError) × (decision c r.update_windows now ≡ err e))
    ⊎ ((permits c now r.update_windows ≡ false) × (is_subject r resolved s ≡ true))

permits-none :
    (c : Cron) (now : ℕ) (ws : List UpdateWindow)
    → (length ws == 0) ≡ true
    → permits c now ws ≡ true
permits-none c now [] e = refl
permits-none c now (w ∷ ws) e = absurd (ground arith)

bad_windows :
    (c : Cron) (now : ℕ) (ws : List UpdateWindow) (e : WindowError)
    → decision c ws now ≡ err e
    → (length ws == 0) ≡ false
bad_windows c now [] e h = absurd (cc (none_bad, ap error_of h))
  where
    none_bad : error_of (decision c [] now) ≡ none
    none_bad = error_of-decision c [] now now ∙ unfold validate in refl
bad_windows c now (w ∷ ws) e h = ground arith

module _ (c : Cron) (r : Rollout) (resolved : List Resolved) (retry : ℤ) where
  -- The result where the windows can be evaluated.
  deferred-decided :
      (now later : ℕ) (s : DeliveryStatus) (a : Bool) (n : ℕ)
      → decision c r.update_windows now ≡ ok (a, n)
      → (gate_update_windows r resolved retry c now later s).deferred ≡ (
          not (fresh_override r s)
          && (not (length r.update_windows == 0) && (not a && is_subject r resolved s)))
  unfolding gate_update_windows after_decision decided defer
  deferred-decided now later s a n d = ground (arith, d)

  -- The gate defers a pass exactly when no new override is set and the windows are malformed, or permit
  -- nothing at the instant, and the pass brings a new revision or the scope is All.
  pub deferred_iff :
      (now later : ℕ) (s : DeliveryStatus)
      → ((gate_update_windows r resolved retry c now later s).deferred ≡ true)
        ↔ ((fresh_override r s ≡ false) × IsHeld c r resolved now s)
  unfolding gate_update_windows after_decision decided defer
  deferred_iff now later s = elim (Result-cases (decision c r.update_windows now)) [
    | inr (e, d) ↦ (
      λ h. (ground (arith, h), inl (e, d)),
      λ h. ground (arith, h, d, bad_windows c now r.update_windows e d),
    )
    | inl ((a, n), d) ↦
        let (b, at) = decision-decision_at c r.update_windows now (a, n) d in
        let p = decision_at-permits c r.update_windows now at in
        let some_windows = permits-none c now r.update_windows in
        let e = deferred-decided now later s a n d in
        (
          λ h. (ground (arith, e, h), inr (ground (arith, e, h, p), ground (arith, e, h))),
          λ h. elim h.1 [
            | inl (bad, d') ↦ absurd (cc (d, d'))
            | inr (q, u) ↦ ground (arith, e, h.0, p, q, u, some_windows)
          ],
        )
  ]

  -- The status that a deferral writes names the next change, and holds what the gate reads.
  deferral_status :
      (now later : ℕ) (s : DeliveryStatus) (a : Bool) (change : ℕ)
      → decision c r.update_windows now ≡ ok (a, change)
      → (gate_update_windows r resolved retry c now later s).deferred ≡ true
      → (gate_update_windows r resolved retry c now later s).status
        ≡ (defer r resolved retry change (any (is_new s) resolved) later s).status
  unfolding gate_update_windows after_decision decided defer
  deferral_status now later s a change d h = ground (arith, d, h)

  -- The gate of a later pass on that status, where the windows decide `a'`.
  next_pass :
      (now later : ℕ) (s : DeliveryStatus) (a : Bool) (change t later' : ℕ) (a' : Bool) (n : ℕ)
      → decision c r.update_windows now ≡ ok (a, change)
      → (gate_update_windows r resolved retry c now later s).deferred ≡ true
      → decision c r.update_windows t ≡ ok (a', n)
      → (gate_update_windows r resolved retry c t later'
          (gate_update_windows r resolved retry c now later s).status).deferred
        ≡ not a'
  unfolding defer
  next_pass now later s a change t later' a' n d h d' =
      let e = deferred-decided now later s a change d in
      rw (deferral_status now later s a change d h) (
        deferred-decided t later'
          (defer r resolved retry change (any (is_new s) resolved) later s).status a' n d'
        ∙ ground (arith, e, h))

  -- Where a pass is deferred, its windows are well formed and it names a next change, every pass over the
  -- same revisions is deferred up to that instant, and the pass at the instant proceeds, unless the
  -- change is just the first boundary; all as far as the search horizon of the cron library reaches, for
  -- windows whose schedules fire at fixed instants.
  pub held_until_change :
      (fires : String → String → ℕ → Bool) (horizon : ℕ)
      → HaveCalendars c fires horizon r.update_windows
      → (now later : ℕ) (s : DeliveryStatus) (a : Bool) (change : ℕ) (t later' : ℕ)
      → decision c r.update_windows now ≡ ok (a, change)
      → (gate_update_windows r resolved retry c now later s).deferred ≡ true
      → change ≢ 0
      → now ≤ t
      → t < change
      → InHorizon horizon (t - now) r.update_windows
      → let held = (gate_update_windows r resolved retry c now later s).status in
        (held.pending_update
          ≡ some (record {
            revisions = if any (is_new s) resolved then revisions_of resolved else [];
            next_window_opens = some change;
          }))
        × ((gate_update_windows r resolved retry c t later' held).deferred ≡ true)
        × (((gate_update_windows r resolved retry c change later' held).deferred ≡ false)
            ⊎ (decision_at c r.update_windows now ≡ ok (false, change)))
  unfolding defer
  held_until_change fires horizon k now later s a change t later' d h nz le before near =
      let shut : a ≡ false = ground (arith, deferred-decided now later s a change d, h) in
      let (b, at) =
        decision_constant c fires horizon r.update_windows k now t a change d le (inr before)
          near in
      let (n, d') = decision_at-decision c r.update_windows t a b at in
      (
        rw (deferral_status now later s a change d h) (ground (arith, nz)),
        next_pass now later s a change t later' a n d h d' ∙ rw shut refl,
        elim (decision_changes c fires horizon r.update_windows k now a change d nz).1 [
          | inl (b', at') ↦
              let (n', d'') = decision_at-decision c r.update_windows change (not a) b' at' in
              inl (next_pass now later s a change change later' (not a) n' d h d'' ∙ rw shut refl)
          | inr same ↦
              inr (subst (λ x. decision_at c r.update_windows now ≡ ok (x, change)) shut same)
        ],
      )
