-- ===== src/Stages/Loop/Order.antt =====
-- internal/controller/stageset_controller.go, the loop over the stages: a stage is reached only behind
-- stages that advanced in the same pass, and the stages that a pass did not reach keep their records.
use stageset_controller.Prelude.{
  String, str_eq, ◌≡◌, refl, sym, ap, subst, ◌⊎◌, inl, inr, Bool, true, false, Option, none, some,
  List, [], ◌∷◌, ◌++◌, arith, Bool-cases, Option-cases, contains,
}
use stageset_controller.Stages.{PlannedVersion, Stage, StageStatus, index_of, merge_stage_statuses}
use stageset_controller.Stages.Outside.{StageEnd, advanced, invalid_spec, Outside, Request}
use stageset_controller.Stages.Pass.{run_stage}
use stageset_controller.Stages.Merge.{index_of-merge_stage_statuses}
use stageset_controller.Stages.Loop.{
  LoopOutcome, is_advanced, appended, run_stages, names_of, Finish, Status, settle_loop,
  write_merged,
}
use stageset_controller.Stages.Loop.Advance.{IsNamed, run_stage-Named}

-- An end that counts as an advance is one.
is_advanced-advanced : (e : StageEnd) → is_advanced e ≡ true → e ≡ advanced
is_advanced-advanced e h = ground (arith, h)

-- The ends after which the loop returns no error.
abbrev pub returns_nil : StageEnd → Bool
returns_nil advanced = true
returns_nil invalid_spec = true
returns_nil _ = false

index_of-append :
    (n : String) (es : List StageStatus) (e : StageStatus)
    → index_of n es ≡ none
    → str_eq e.name n ≡ false
    → index_of n (es ++ (e ∷ [])) ≡ none
unfolding index_of
index_of-append n [] e h k = ground (arith, k)
index_of-append n (x ∷ es) e h k = elim (Option-cases (index_of n es)) [
  | inl f ↦ ground (arith, f, h, index_of-append n es e f k)
  | inr (y, f) ↦ ground (arith, f, h)
]

module _ {W : Type 0} (o : Outside W) (r : Request) where
  -- The entry of another stage leaves a name without one.
  unnamed-appended :
      (n : String) (s : Stage) (revision : String) (w : W) (es : List StageStatus)
      → index_of n es ≡ none
      → str_eq s.name n ≡ false
      → index_of n (appended (run_stage o r s revision w).entry es) ≡ none
  unnamed-appended n s revision w es h k =
      go (run_stage o r s revision w).entry (run_stage-Named o r s revision w).is_named
    where
      go :
          (entry : Option StageStatus)
          → IsNamed o r s revision entry
          → index_of n (appended entry es) ≡ none
      go none u = h
      go (some e) u = index_of-append n es e h (subst (λ x. str_eq x n ≡ false) (sym u) k)

  -- Stage after stage, each advances from the state that the one before it left.
  pub data Advances
      : List (Stage × String) → List StageStatus → W → List StageStatus → W → Type 0 where
    at_end : {es : List StageStatus} {w : W} → Advances [] es w es w
    then_stage :
        {s : Stage} {revision : String} {rest : List (Stage × String)} {es es' : List StageStatus}
        {w w' : W}
        → (run_stage o r s revision w).end ≡ advanced
        → Advances rest
            (appended (run_stage o r s revision w).entry es)
            (run_stage o r s revision w).state
            es'
            w'
        → Advances ((s, revision) ∷ rest) es w es' w'

  -- The stage that stopped the loop: those before it advanced, and the loop ends as it ended.
  pub record Stopped (stages : List (Stage × String)) (es : List StageStatus) (w : W)
      (l : LoopOutcome W) : Type 0 where
    pub before : List (Stage × String)
    pub stage : Stage
    pub revision : String
    pub after : List (Stage × String)
    pub entries : List StageStatus
    pub reached_at : W
    pub split : stages ≡ before ++ ((stage, revision) ∷ after)
    pub reached : Advances before es w entries reached_at
    pub stops : is_advanced (run_stage o r stage revision reached_at).end ≡ false
    pub ends : l.end ≡ (run_stage o r stage revision reached_at).end
    pub recorded : l.entries ≡ appended (run_stage o r stage revision reached_at).entry entries
    pub left : l.state ≡ (run_stage o r stage revision reached_at).state

  pub stages_advance_in_order :
      (stages : List (Stage × String)) (es : List StageStatus) (w : W)
      → let l = run_stages o r stages es w in
        ((l.end ≡ advanced) × Advances stages es w l.entries l.state) ⊎ Stopped stages es w l
  unfolding run_stages
  stages_advance_in_order [] es w = inl (refl, at_end)
  stages_advance_in_order ((s, revision) ∷ rest) es w =
      let here = run_stage o r s revision w in
      elim (Bool-cases (is_advanced here.end)) [
        | inr e ↦ inr (
            rw (e) (record {
              before = [];
              stage = s;
              revision = revision;
              after = rest;
              entries = es;
              reached_at = w;
              split = refl;
              reached = at_end;
              stops = e;
              ends = refl;
              recorded = refl;
              left = refl;
            }))
        | inl e ↦ elim (stages_advance_in_order rest (appended here.entry es) here.state) [
          | inl (a, b) ↦ inl (rw (e) (a, then_stage (is_advanced-advanced here.end e) b))
          | inr x ↦ inr (
              rw (e) (record {
                before = (s, revision) ∷ x.before;
                stage = x.stage;
                revision = x.revision;
                after = x.after;
                entries = x.entries;
                reached_at = x.reached_at;
                split = ap (λ l. (s, revision) ∷ l) x.split;
                reached = then_stage (is_advanced-advanced here.end e) x.reached;
                stops = x.stops;
                ends = x.ends;
                recorded = x.recorded;
                left = x.left;
              }))
        ]
      ]

  unnamed-Advances :
      (n : String) {stages : List (Stage × String)} {es es' : List StageStatus} {w w' : W}
      → Advances stages es w es' w'
      → contains n (names_of stages) ≡ false
      → index_of n es ≡ none
      → index_of n es' ≡ none
  unnamed-Advances n at_end k h = h
  unnamed-Advances n (then_stage {s} {revision} {rest} {es} {es'} {w} {w'} a rest_advances) k h =
      unnamed-Advances n rest_advances (ground (arith, k))
        (unnamed-appended n s revision w es h (ground (arith, k)))

  -- Where the loop returned an error, the status keeps its stages, or merges the entries over them.
  settle_loop-stages :
      (f : Finish W) (plan : PlannedVersion) (names : List String) (l : LoopOutcome W) (st : Status)
      → returns_nil l.end ≡ false
      → ((settle_loop f plan names l st).stages ≡ st.stages)
        ⊎ ((settle_loop f plan names l st).stages ≡ merge_stage_statuses names st.stages l.entries)
  unfolding settle_loop write_merged
  settle_loop-stages f plan names l st h = ground (arith, h)

  -- A record that no entry replaces is kept by the write.
  kept_by_write :
      (f : Finish W) (plan : PlannedVersion) (stages : List (Stage × String)) (l : LoopOutcome W)
      (st : Status) (n : String)
      → returns_nil l.end ≡ false
      → contains n (names_of stages) ≡ true
      → index_of n l.entries ≡ none
      → index_of n (settle_loop f plan (names_of stages) l st).stages ≡ index_of n st.stages
  kept_by_write f plan stages l st n h k u =
      elim (settle_loop-stages f plan (names_of stages) l st h) [
        | inl e ↦ rw (e)
        | inr e ↦
            let m = index_of-merge_stage_statuses st.stages l.entries n (names_of stages) in
            rw (e) (ground (arith, m, k, u))
      ]

  -- Where the loop returns an error, one stage stopped it: those before it advanced, and each stage of
  -- another name keeps its record.
  pub unreached_stages_keep_records :
      (f : Finish W) (plan : PlannedVersion) (stages : List (Stage × String)) (st : Status) (w : W)
      → returns_nil (run_stages o r stages [] w).end ≡ false
      → (x : Stopped stages [] w (run_stages o r stages [] w)) × ((n : String)
          → contains n (names_of stages) ≡ true
          → contains n (names_of x.before) ≡ false
          → str_eq x.stage.name n ≡ false
          → index_of n (settle_loop f plan (names_of stages) (run_stages o r stages [] w) st).stages
            ≡ index_of n st.stages)
  unfolding index_of
  unreached_stages_keep_records f plan stages st w h = elim (stages_advance_in_order stages [] w) [
    | inl (e, a) ↦ ground (arith, e, h)
    | inr x ↦ (
      x,
      λ n k b c. kept_by_write f plan stages (run_stages o r stages [] w) st n h k (
          rw (x.recorded) (
            unnamed-appended n x.stage x.revision x.reached_at x.entries
              (unnamed-Advances n x.reached b refl) c)),
    )
  ]
