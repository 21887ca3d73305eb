-- ===== src/Actions/Ledger.antt =====
-- internal/actions/actions.go, Run, and internal/controller/actionledger.go: what a run records, and where
-- the next run resumes.
use stageset_controller.Prelude.{
  String, str_eq, str_eq_iff, str_eq_refl, ◌≡◌, refl, sym, ap, ◌∙◌, subst, inl, inr, Bool, true,
  false, ◌||◌, Option, none, some, List, [], ◌∷◌, ◌++◌, map, arith, if◌then◌else◌, Bool-cases,
  Option-cases, contains,
}
use mathlib.Core.List.{append-nil}
use stageset_controller.Ladder.{Action}
use stageset_controller.Actions.{
  ActionError, Dispatcher, exec, RunError, failed, not_recorded, RunOutcome, run, ActionLedger,
  done_set, record_name, record_all,
}

-- The names that are still to be run, in order.
abbrev pub pending : List String → List Action → List String
pending finished [] = []
pending finished (a ∷ acts) =
    if contains a.name finished then pending finished acts else a.name ∷ pending finished acts

-- The name that a run stopped at, with what follows it.
abbrev pub stopped_at : Option RunError → List String → List String
stopped_at none rest = []
stopped_at (some (failed n x)) rest = n ∷ rest
stopped_at (some (not_recorded n)) rest = n ∷ rest

-- No two actions of a list have one name.
abbrev pub HasUniqueNames : List Action → Type 0
HasUniqueNames [] = Unit
HasUniqueNames (a ∷ acts) = (contains a.name (map (λ b. b.name) acts) ≡ false) × HasUniqueNames acts

pub contains-append :
    (n : String) (xs ys : List String) → contains n (xs ++ ys) ≡ (contains n xs || contains n ys)
contains-append n [] ys = refl
contains-append n (x ∷ xs) ys = ground (arith, contains-append n xs ys)

pending-same :
    (f g : List String) (acts : List Action)
    → ((n : String) → contains n f ≡ contains n g)
    → pending f acts ≡ pending g acts
pending-same f g [] h = refl
pending-same f g (a ∷ acts) h = ground (arith, h a.name, pending-same f g acts h)

str_eq_comm : (a b : String) → str_eq a b ≡ str_eq b a
str_eq_comm a b = elim (Bool-cases (str_eq a b)) [
  | inl e ↦ e ∙ sym (subst (λ x. str_eq b x ≡ true) (sym ((str_eq_iff a b).0 e)) (str_eq_refl b))
  | inr e ↦ elim (Bool-cases (str_eq b a)) [
    | inr f ↦ e ∙ sym f
    | inl f ↦
        let same = subst (λ x. str_eq a x ≡ true) (sym ((str_eq_iff b a).0 f)) (str_eq_refl a) in
        absurd (ground (arith, same))
  ]
]

pending-other :
    (n : String) (f r : List String) (acts : List Action)
    → contains n (map (λ b. b.name) acts) ≡ false
    → pending (f ++ (n ∷ r)) acts ≡ pending (f ++ r) acts
pending-other n f r [] h = refl
pending-other n f r (a ∷ acts) h = ground (
  arith,
  contains-append a.name f (n ∷ r),
  contains-append a.name f r,
  pending-other n f r acts,
  str_eq_comm n a.name,
)

-- What is pending before a run is what it records, followed by the action it stops at and the rest, and
-- what is pending after it is that action and the rest.
abbrev pub Resumes : List String → List Action → List String → Option RunError → Type 0
Resumes finished acts recorded error =
    (rest : List String) × (pending finished acts ≡ recorded ++ stopped_at error rest)
    × (pending (finished ++ recorded) acts ≡ stopped_at error rest)

module _ {W : Type 0} (d : Dispatcher W) (takes : String → Bool) where
  abbrev Goes : List String → List Action → RunOutcome d → Type 0
  Goes finished acts r = Resumes finished acts r.recorded r.error

  Resumes-skipped :
      (finished recorded : List String) (error : Option RunError) (a : Action) (acts : List Action)
      → contains a.name finished ≡ true
      → Resumes finished acts recorded error
      → Resumes finished (a ∷ acts) recorded error
  Resumes-skipped finished recorded error a acts c (x, p, q) =
      let k : contains a.name (finished ++ recorded) ≡ true =
        ground (arith, contains-append a.name finished recorded) in
      (x, rw c p, rw k q)

  Resumes-stopped :
      (finished : List String) (error : Option RunError) (a : Action) (acts : List Action)
      → contains a.name finished ≡ false
      → stopped_at error (pending finished acts) ≡ a.name ∷ pending finished acts
      → Resumes finished (a ∷ acts) [] error
  Resumes-stopped finished error a acts c s =
      let same : pending finished (a ∷ acts) ≡ stopped_at error (pending finished acts) =
        rw c (sym s) in
      (pending finished acts, same, ap (λ f. pending f (a ∷ acts)) (append-nil finished) ∙ same)

  Resumes-recorded :
      (finished recorded : List String) (error : Option RunError) (a : Action) (acts : List Action)
      → contains a.name finished ≡ false
      → contains a.name (map (λ b. b.name) acts) ≡ false
      → Resumes finished acts recorded error
      → Resumes finished (a ∷ acts) (a.name ∷ recorded) error
  Resumes-recorded finished recorded error a acts c n (x, p, q) =
      let k : contains a.name (finished ++ (a.name ∷ recorded)) ≡ true =
        ground (arith, contains-append a.name finished (a.name ∷ recorded), str_eq_refl a.name) in
      (x, rw c (ap (λ l. a.name ∷ l) p), rw k (pending-other a.name finished recorded acts n ∙ q))

  module _ (finished : List String) (a : Action) (acts : List Action) (w : W) where
    run-skipped :
        contains a.name finished ≡ true
        → run d takes finished (a ∷ acts) w ≡ run d takes finished acts w
    unfolding run
    run-skipped c = rw c refl

    module _ (c : contains a.name finished ≡ false) where
      run-failed :
          (x : ActionError)
          → (exec d a w).0 ≡ some x
          → run d takes finished (a ∷ acts) w
            ≡ record { error = some (failed a.name x); recorded = []; state = (exec d a w).1 }
      unfolding run
      run-failed x e = rw (c, e) refl

      run-rejected :
          (exec d a w).0 ≡ none
          → takes a.name ≡ false
          → run d takes finished (a ∷ acts) w
            ≡ record { error = some (not_recorded a.name); recorded = []; state = (exec d a w).1 }
      unfolding run
      run-rejected e t = rw (c, e, t) refl

      run-recorded :
          (exec d a w).0 ≡ none
          → takes a.name ≡ true
          → run d takes finished (a ∷ acts) w ≡ record {
            error = (run d takes finished acts (exec d a w).1).error;
            recorded = a.name ∷ (run d takes finished acts (exec d a w).1).recorded;
            state = (run d takes finished acts (exec d a w).1).state;
          }
      unfolding run
      run-recorded e t = rw (c, e, t) refl

  -- Where no two actions of the list have one name, a run records the pending actions in order up to the
  -- one it stops at, and a run after it over the ledger with these names resumes at exactly that action:
  -- nothing is run twice and nothing is left out. It stops at none only where all have been recorded.
  pub run-Resumes :
      (finished : List String) (acts : List Action) (w : W)
      → HasUniqueNames acts
      → Resumes finished acts
          (run d takes finished acts w).recorded
          (run d takes finished acts w).error
  unfolding run
  run-Resumes finished [] w u = ([], refl, refl)
  run-Resumes finished (a ∷ acts) w (n, u) =
      let goal = Goes finished (a ∷ acts) in
      elim (Bool-cases (contains a.name finished)) [
        | inl c ↦
            subst goal (sym (run-skipped finished a acts w c))
              (Resumes-skipped finished _ _ a acts c (run-Resumes finished acts w u))
        | inr c ↦ elim (Option-cases (exec d a w).0) [
          | inr (x, e) ↦
              subst goal (sym (run-failed finished a acts w c x e))
                (Resumes-stopped finished (some (failed a.name x)) a acts c refl)
          | inl e ↦ elim (Bool-cases (takes a.name)) [
            | inr t ↦
                subst goal (sym (run-rejected finished a acts w c e t))
                  (Resumes-stopped finished (some (not_recorded a.name)) a acts c refl)
            | inl t ↦ subst goal (sym (run-recorded finished a acts w c e t)) (
                Resumes-recorded finished _ _ a acts c n
                  (run-Resumes finished acts (exec d a w).1 u))
          ]
        ]
      ]

contains-record_name :
    (scope_of : String → String) (k n : String) (l : ActionLedger)
    → contains k (done_set (record_name scope_of n l)) ≡ (contains k (done_set l) || str_eq n k)
unfolding record_name done_set
contains-record_name scope_of k n l =
    let a = contains-append k l.executed (l.versioned ++ l.lifetime_done) in
    let b = contains-append k l.versioned l.lifetime_done in
    elim (Bool-cases (str_eq (scope_of n) "Version")) [
      | inl e ↦
          let x = contains-append k l.executed ((l.versioned ++ (n ∷ [])) ++ l.lifetime_done) in
          let y = contains-append k (l.versioned ++ (n ∷ [])) l.lifetime_done in
          let z = contains-append k l.versioned (n ∷ []) in ground (arith, a, b, x, y, z)
      | inr e ↦
          let x = contains-append k (l.executed ++ (n ∷ [])) (l.versioned ++ l.lifetime_done) in
          let y = contains-append k l.executed (n ∷ []) in ground (arith, a, b, x, y)
    ]

contains-record_all :
    (scope_of : String → String) (k : String) (ns : List String) (l : ActionLedger)
    → contains k (done_set (record_all scope_of ns l)) ≡ (contains k (done_set l) || contains k ns)
unfolding record_all
contains-record_all scope_of k [] l = ground arith
contains-record_all scope_of k (n ∷ ns) l = ground (
  arith,
  contains-record_all scope_of k ns (record_name scope_of n l),
  contains-record_name scope_of k n l,
)

module _ {W : Type 0} (d : Dispatcher W) (takes : String → Bool) (scope_of : String → String) where
  -- Where no two actions of the list have one name, a run over a ledger records the pending actions in
  -- order up to the one it stops at. Once their names are in the ledger, each in the part that its scope
  -- selects, what is pending is exactly the action that the run stopped at and those after it: nothing is
  -- run twice and nothing is left out.
  pub ledger_resumes :
      (l : ActionLedger) (acts : List Action) (w : W)
      → HasUniqueNames acts
      → (rest : List String) × (pending (done_set l) acts
          ≡ (run d takes (done_set l) acts w).recorded
            ++ stopped_at (run d takes (done_set l) acts w).error rest)
        × (pending
              (done_set (record_all scope_of (run d takes (done_set l) acts w).recorded l))
              acts
            ≡ stopped_at (run d takes (done_set l) acts w).error rest)
  ledger_resumes l acts w u =
      let (rest, p, q) = run-Resumes d takes (done_set l) acts w u in
      let r = run d takes (done_set l) acts w in
      let same =
        pending-same (done_set (record_all scope_of r.recorded l)) (done_set l ++ r.recorded) acts
          (λ k.
            contains-record_all scope_of k r.recorded l
            ∙ sym (contains-append k (done_set l) r.recorded)) in
      (rest, p, same ∙ q)
