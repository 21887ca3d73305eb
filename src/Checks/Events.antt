-- ===== src/Checks/Events.antt =====
-- internal/controller/eventgate.go: when the event checks leave a stage alone, and which events count.
use stageset_controller.Prelude.{
  String, ◌≡◌, refl, ◌↔◌, inl, inr, Bool, false, ◌&&◌, none, some, List, [], ◌∷◌, map, arith,
  Bool-cases, keep_if, All, contains, ℤ, ltb_ℤ, max_ℤ, add_int32, pos, Result-cases, ok,
}
use stageset_controller.Checks.{
  sum_int32, Event, EventCheck, EventGate, Target, sum_events, pod_warning_event_total,
  first_breach, evaluate_event_checks,
}

-- The events of a pod on the list with a reason on the list.
abbrev counts : List String → List String → Event → Bool
counts uids reasons e = contains e.uid uids && contains e.reason reasons

-- The tally is the sum over those events, one at least for each.
pub sum_events-sum_int32 :
    (uids reasons : List String) (total : ℤ) (es : List Event)
    → sum_events uids reasons total es
      ≡ sum_int32 total (map (λ e. max_ℤ e.count (pos 1)) (keep_if (counts uids reasons) es))
unfolding sum_events
sum_events-sum_int32 uids reasons total [] = refl
sum_events-sum_int32 uids reasons total (e ∷ es) = elim (Bool-cases (counts uids reasons e)) [
  | inl p ↦ rw p (sum_events-sum_int32 uids reasons (add_int32 total (max_ℤ e.count (pos 1))) es)
  | inr p ↦ rw p (sum_events-sum_int32 uids reasons total es)
]

module _ {S : Type 0} (t : Target S) where
  -- The events of a check's pods can be read, and are at most its maximum.
  pub record IsWithin (c : EventCheck S) : Type 0 where
    total : ℤ
    is_read : pod_warning_event_total t c.selector c.reasons ≡ ok total
    bounded : ltb_ℤ c.max_events total ≡ false

  first_breach-none :
      (gate : EventGate S) (cs : List (EventCheck S))
      → first_breach t gate cs ≡ ok none
      → All IsWithin cs
  unfolding first_breach
  first_breach-none gate [] h = tt
  first_breach-none gate (c ∷ cs) h =
      elim (Result-cases (pod_warning_event_total t c.selector c.reasons)) [
        | inr (e, p) ↦ absurd (ground (arith, p, h))
        | inl (total, p) ↦ elim (Bool-cases (ltb_ℤ c.max_events total)) [
          | inl q ↦ absurd (ground (arith, p, q, h))
          | inr q ↦ (
            record { total = total; is_read = p; bounded = q },
            first_breach-none gate cs (ground (arith, p, q, h)),
          )
        ]
      ]

  none-first_breach :
      (gate : EventGate S) (cs : List (EventCheck S))
      → All IsWithin cs
      → first_breach t gate cs ≡ ok none
  unfolding first_breach
  none-first_breach gate [] w = refl
  none-first_breach gate (c ∷ cs) (w, ws) =
      rw (first_breach, w.is_read) (rw w.bounded (none-first_breach gate cs ws))

  -- The event gate finds nothing exactly when the events of each check can be read and are within its
  -- maximum.
  pub evaluate_event_checks-IsWithin :
      (gate : EventGate S)
      → (evaluate_event_checks t (some gate) ≡ ok none) ↔ All IsWithin gate.checks
  unfolding evaluate_event_checks
  evaluate_event_checks-IsWithin gate =
      (first_breach-none gate gate.checks, none-first_breach gate gate.checks)
