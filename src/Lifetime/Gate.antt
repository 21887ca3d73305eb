-- ===== src/Lifetime/Gate.antt =====
-- internal/actionplan/actionplan.go, EvaluateLifetimeGate: which completions of a stage hold.
use stageset_controller.Prelude.{
  String, str_eq, str_eq_refl, ◌≡◌, refl, sym, ap, ◌∙◌, subst, inl, inr, Bool, true, false, not,
  ◌&&◌, List, [], ◌∷◌, map, arith, if◌then◌else◌, Bool-cases, keep_if, All, contains, Elem,
  All-Elem,
}
use stageset_controller.Lifetime.{
  AnchorWitness, LedgerCompletion, AnchorRead, AnchorState, anchor_ok, anchor_gone,
  anchor_unreadable, LifetimeGate, add_completion, state_of, evaluate_lifetime_gate,
  drop_completions,
}

abbrev pub is_gone : AnchorState → Bool
is_gone anchor_gone = true
is_gone _ = false

module _ (read : AnchorWitness → AnchorRead) (stage : String) where
  -- The completions of the stage whose witness is confirmed gone.
  abbrev pub gone : LedgerCompletion → Bool
  gone c = str_eq c.stage stage && is_gone (state_of read c)

  abbrev pub held : LedgerCompletion → Bool
  held c = str_eq c.stage stage && not (is_gone (state_of read c))

  add_completion-lem :
      (a : String) (s : AnchorState) (g : LifetimeGate)
      → ((add_completion a s g).done ≡ (if is_gone s then g.done else a ∷ g.done))
        × ((add_completion a s g).invalidated
            ≡ (if is_gone s then a ∷ g.invalidated else g.invalidated))
  unfolding add_completion
  add_completion-lem a anchor_ok g = (refl, refl)
  add_completion-lem a anchor_gone g = (refl, refl)
  add_completion-lem a anchor_unreadable g = (refl, refl)

  -- The gate takes as done the completions of the stage that are not confirmed gone, and invalidates the
  -- others.
  pub gate_splits_completions :
      (cs : List LedgerCompletion)
      → let g = evaluate_lifetime_gate read cs stage in
        (g.done ≡ map (λ c. c.action) (keep_if held cs))
        × (g.invalidated ≡ map (λ c. c.action) (keep_if gone cs))
  unfolding evaluate_lifetime_gate
  gate_splits_completions [] = (refl, refl)
  gate_splits_completions (c ∷ cs) =
      let g = evaluate_lifetime_gate read cs stage in
      let (d, i) = gate_splits_completions cs in
      let (x, y) = add_completion-lem c.action (state_of read c) g in
      elim (Bool-cases (str_eq c.stage stage)) [
        | inr e ↦ (rw (e) d, rw (e) i)
        | inl e ↦ elim (Bool-cases (is_gone (state_of read c))) [
          | inl k ↦ (rw (e, k) (x ∙ rw (k) d), rw (e, k) (y ∙ rw (k) (ap (λ l. c.action ∷ l) i)))
          | inr k ↦ (rw (e, k) (x ∙ rw (k) (ap (λ l. c.action ∷ l) d)), rw (e, k) (y ∙ rw (k) i))
        ]
      ]

  gone-contained :
      (cs : List LedgerCompletion) (c : LedgerCompletion)
      → Elem c cs
      → gone c ≡ true
      → contains c.action (map (λ c. c.action) (keep_if gone cs)) ≡ true
  gone-contained [] c e h = absurd e.lower
  gone-contained (x ∷ cs) c (inl p) h = rw (sym p, h) (ground (arith, str_eq_refl c.action))
  gone-contained (x ∷ cs) c (inr e) h =
      let later = gone-contained cs c e h in
      elim (Bool-cases (gone x)) [ inl k ↦ rw (k, later) (ground arith) | inr k ↦ rw (k) later ]

  module _ (dropped : List String) where
    abbrev stays : LedgerCompletion → Bool
    stays c = not (str_eq c.stage stage && contains c.action dropped)

    -- Where every completion that is gone is dropped, none is left.
    gone-stays :
        (cs : List LedgerCompletion)
        → All (λ c. gone c ≡ true → contains c.action dropped ≡ true) cs
        → keep_if gone (keep_if stays cs) ≡ []
    gone-stays [] h = refl
    gone-stays (c ∷ cs) (p, h) = elim (Bool-cases (stays c)) [
      | inr e ↦ rw (e) (gone-stays cs h)
      | inl e ↦ elim (Bool-cases (gone c)) [
        | inl k ↦ ground (arith, e, k, p k)
        | inr k ↦ rw (e, k) (gone-stays cs h)
      ]
    ]

    held-stays :
        (cs : List LedgerCompletion)
        → map (λ c. c.action) (keep_if held (keep_if stays cs))
          ≡ keep_if (λ a. not (contains a dropped)) (map (λ c. c.action) (keep_if held cs))
    held-stays [] = refl
    held-stays (c ∷ cs) = elim (Bool-cases (held c)) [
      | inr k ↦ elim (Bool-cases (stays c)) [
        | inl e ↦ rw (e, k) (held-stays cs)
        | inr e ↦ rw (e, k) (held-stays cs)
      ]
      | inl k ↦ elim (Bool-cases (contains c.action dropped)) [
        | inl n ↦ let e : stays c ≡ false = ground (arith, k, n) in rw (e, k, n) (held-stays cs)
        | inr n ↦
            let e : stays c ≡ true = ground (arith, n) in
            rw (e, k, n) (ap (λ l. c.action ∷ l) (held-stays cs))
      ]
    ]

  -- Once the invalidated completions are dropped, a gate on the same reads invalidates nothing more, and of
  -- the actions that were done exactly those stay done that no completion invalidated.
  pub drop_completions-settles :
      (cs : List LedgerCompletion)
      → let g = evaluate_lifetime_gate read cs stage in
        let after = evaluate_lifetime_gate read (drop_completions cs stage g.invalidated) stage in
        (after.invalidated ≡ [])
        × (after.done ≡ keep_if (λ a. not (contains a g.invalidated)) g.done)
  unfolding drop_completions
  drop_completions-settles cs =
      let g = evaluate_lifetime_gate read cs stage in
      let (d, i) = gate_splits_completions cs in
      let (d', i') = gate_splits_completions (keep_if (stays g.invalidated) cs) in
      let all_dropped : All (λ c. gone c ≡ true → contains c.action g.invalidated ≡ true) cs =
        All-Elem (λ c. gone c ≡ true → contains c.action g.invalidated ≡ true) cs
          (λ c e h. subst (λ l. contains c.action l ≡ true) (sym i) (gone-contained cs c e h)) in
      (
        i' ∙ ap (map (λ c. c.action)) (gone-stays g.invalidated cs all_dropped),
        d'
            ∙ held-stays g.invalidated cs
            ∙ ap (keep_if (λ a. not (contains a g.invalidated))) (sym d),
      )
