-- ===== src/Actions/Retry.antt =====
-- internal/actions/actions.go, Run and exec: what is dispatched, and how often.
use stageset_controller.Prelude.{
  ℕ, zero, suc, ◌+◌, ◌≤◌, ◌<◌, String, ◌≡◌, refl, inl, inr, Bool, false, ◌||◌, List, [], ◌∷◌, arith,
  Bool-cases, Option-cases, contains, Elem,
}
use stageset_controller.Ladder.{Action}
use stageset_controller.Actions.{Dispatcher, is_terminal, retries_of, attempt, exec, run}

module _ {W : Type 0} (d : Dispatcher W) where
  module _ (count : W → ℕ)
      (counts : (a : Action) (w : W) → count (d.dispatch a w).1 ≡ count w + 1) where
    attempt-count :
        (left : ℕ) (a : Action) (w : W)
        → (count w < count (attempt d left a w).1)
          × (count (attempt d left a w).1 ≤ count w + left + 1)
    unfolding attempt
    attempt-count zero a w = (omega (arith, counts a w), omega (arith, counts a w))
    attempt-count (suc left) a w =
        let (l, u) = attempt-count left a (d.dispatch a w).1 in
        (ground (arith, l, u, counts a w), ground (arith, l, u, counts a w))

    -- For any count that each dispatch raises by one, an action is dispatched at least once, and at most
    -- once more than the retries it asks for.
    pub exec_attempts :
        (a : Action) (w : W)
        → (count w < count (exec d a w).1)
          × (count (exec d a w).1 ≤ count w + retries_of a.retries + 1)
    unfolding exec
    exec_attempts a w = attempt-count (retries_of a.retries) a w

  module _ {ℓ} (P : W → Type ℓ) where
    attempt-keeps :
        (left : ℕ) (a : Action) (w : W)
        → ((w : W) → P w → P (d.dispatch a w).1)
        → P w
        → P (attempt d left a w).1
    unfolding attempt
    attempt-keeps zero a w f h = f w h
    attempt-keeps (suc left) a w f h =
        let again = attempt-keeps left a (d.dispatch a w).1 f (f w h) in
        elim (Option-cases (d.dispatch a w).0) [
          | inl e ↦ rw (attempt, e) (f w h)
          | inr (x, e) ↦ elim (Bool-cases (is_terminal x || d.is_done (d.dispatch a w).1)) [
            | inl t ↦ rw (attempt, e, t) (f w h)
            | inr t ↦ rw (attempt, e, t) again
          ]
        ]

    -- What holds of the state, and is kept by each dispatch of an action of the list that is not done yet,
    -- holds after the run: a done action is never dispatched.
    pub run_skips_done :
        (takes : String → Bool) (finished : List String) (acts : List Action) (w : W)
        → ((a : Action)
            → Elem a acts
            → contains a.name finished ≡ false
            → (w : W) → P w
            → P (d.dispatch a w).1)
        → P w
        → P (run d takes finished acts w).state
    unfolding run exec
    run_skips_done takes finished [] w f h = h
    run_skips_done takes finished (a ∷ acts) w f h =
        let g = λ (b : Action) (e : Elem b acts). f b (inr e) in
        elim (Bool-cases (contains a.name finished)) [
          | inl c ↦ rw c (run_skips_done takes finished acts w g h)
          | inr c ↦
              let tried = attempt-keeps (retries_of a.retries) a w (f a (inl refl) c) h in
              let rest = run_skips_done takes finished acts (exec d a w).1 g tried in
              elim (Option-cases (exec d a w).0) [
                | inr (x, e) ↦ rw (c, e) tried
                | inl e ↦ elim (Bool-cases (takes a.name)) [
                  | inl t ↦ rw (c, e, t) rest
                  | inr t ↦ rw (c, e, t) tried
                ]
              ]
        ]
