-- ===== src/Inventory/Plan.antt =====
-- internal/inventory/plan.go, ComputePlan: what the plan of a pass deletes.
use stageset_controller.Prelude.{
  String, str_eq, str_eq_iff, ◌≡◌, refl, sym, ◌∙◌, subst, inl, inr, Bool, true, false, not, ◌&&◌,
  ◌||◌, Option, none, some, List, [], ◌∷◌, arith, Bool-cases, Option-cases, any, keep_if, insert_by,
  sort_by,
}
use mathlib.Core.Option
use stageset_controller.Inventory.{
  ObjectRef, ref_id, StageRecord, DeletionPlan, id_less, filter_refs, has_id, claimed,
  desired_entries, teardown_order, plan_stage, plan_stages, is_empty, compute_plan,
}

module _ {A : Type 0} (p : A → Bool) where
  any-insert_by :
      (less : A → A → Bool) (x : A) (ys : List A) → any p (insert_by less x ys) ≡ (p x || any p ys)
  unfolding insert_by
  any-insert_by less x [] = refl
  any-insert_by less x (y ∷ ys) = elim (Bool-cases (less y x)) [
    | inl e ↦ rw (e, any-insert_by less x ys) (ground arith)
    | inr e ↦ rw (e)
  ]

  any-sort_by : (less : A → A → Bool) (xs : List A) → any p (sort_by less xs) ≡ any p xs
  unfolding sort_by
  any-sort_by less [] = refl
  any-sort_by less (x ∷ xs) = rw (any-insert_by less x (sort_by less xs), any-sort_by less xs)

-- An identifier is kept exactly where it is among the entries and passes the test.
has_id-keep_if :
    (keep : String → Bool) (i : String) (refs : List ObjectRef)
    → has_id i (keep_if (λ r. keep (ref_id r)) refs) ≡ (has_id i refs && keep i)
has_id-keep_if keep i [] = refl
has_id-keep_if keep i (r ∷ refs) = elim (Bool-cases (str_eq (ref_id r) i)) [
  | inl e ↦ elim (Bool-cases (keep (ref_id r))) [
    | inl k ↦ rw (k, e, subst (λ x. keep x ≡ true) ((str_eq_iff (ref_id r) i).0 e) k)
    | inr k ↦
        let gone : keep i ≡ false = subst (λ x. keep x ≡ false) ((str_eq_iff (ref_id r) i).0 e) k in
        rw (k, e, gone) (ground (arith, has_id-keep_if keep i refs, gone))
  ]
  | inr e ↦ elim (Bool-cases (keep (ref_id r))) [
    | inl k ↦ rw (k, e) (has_id-keep_if keep i refs)
    | inr k ↦ rw (k, e) (has_id-keep_if keep i refs)
  ]
]

has_id-filter_refs :
    (keep : String → Bool) (i : String) (refs : List ObjectRef)
    → has_id i (filter_refs keep refs) ≡ (has_id i refs && keep i)
unfolding filter_refs
has_id-filter_refs keep i refs =
    any-sort_by (λ r. str_eq (ref_id r) i) id_less (keep_if (λ r. keep (ref_id r)) refs)
    ∙ has_id-keep_if keep i refs

-- What a stage of the spec desires is claimed.
desired_entries-claimed :
    (i n : String) (desired : List StageRecord) (refs : List ObjectRef)
    → desired_entries n desired ≡ some refs
    → has_id i refs ≡ true
    → claimed desired i ≡ true
unfolding desired_entries
desired_entries-claimed i n [] refs h k = ground (arith, h)
desired_entries-claimed i n (s ∷ ss) refs h k = elim (Option-cases (desired_entries n ss)) [
  | inl e ↦ elim (Bool-cases (str_eq s.name n)) [
    | inl f ↦
        let same : s.entries ≡ refs =
          Option.some-injective s.entries refs (sym (rw (e, f) refl) ∙ h) in
        let here : has_id i s.entries ≡ true = rw (same) k in rw (here)
    | inr f ↦ ground (arith, e, f, h)
  ]
  | inr (t, e) ↦
      let later = desired_entries-claimed i n ss refs (ground (arith, e, h)) k in
      rw (later) (ground arith)
]

-- Whether a plan deletes the object of an identifier, and whether an inventory recorded it.
abbrev pub deletes : DeletionPlan → String → Bool
deletes plan i =
    any (λ p. has_id i p.1) plan.prune_per_stage
    || any (λ s. has_id i s.entries) plan.removed_stages

has_id-is_empty :
    (i : String) (refs : List ObjectRef) → is_empty refs ≡ true → has_id i refs ≡ false
has_id-is_empty i [] h = refl
has_id-is_empty i (r ∷ refs) h = ground (arith, h)

-- What a stage that survives loses: its entries that no stage claims.
plan_stage-deletes :
    (prev : StageRecord) (o : Option (List ObjectRef)) (desired : List StageRecord)
    (rest : DeletionPlan) (i : String)
    → desired_entries prev.name desired ≡ o
    → deletes (plan_stage prev o desired rest) i
      ≡ (has_id i prev.entries && not (claimed desired i) || deletes rest i)
unfolding plan_stage
plan_stage-deletes prev none desired rest i e =
    rw (has_id-filter_refs (λ j. not (claimed desired j)) i prev.entries) (ground arith)
plan_stage-deletes prev (some refs) desired rest i e =
    let keep : String → Bool = λ j. not (has_id j refs) && not (claimed desired j) in
    let prune = filter_refs keep prev.entries in
    let f = has_id-filter_refs keep i prev.entries in
    let c = desired_entries-claimed i prev.name desired refs e in
    let g : has_id i prune ≡ (has_id i prev.entries && not (claimed desired i)) =
      f ∙ ground (arith, c) in
    elim (Bool-cases (is_empty prune)) [
      | inl n ↦ rw (n) (ground (arith, sym g ∙ has_id-is_empty i prune n))
      | inr n ↦ rw (n) (ground (arith, g))
    ]

plan_stages-deletes :
    (previous desired : List StageRecord) (i : String)
    → deletes (plan_stages previous desired) i ≡ (claimed previous i && not (claimed desired i))
unfolding plan_stages
plan_stages-deletes [] desired i = refl
plan_stages-deletes (prev ∷ previous) desired i =
    plan_stage-deletes prev (desired_entries prev.name desired) desired
      (plan_stages previous desired) i refl
    ∙ rw (plan_stages-deletes previous desired i) (ground arith)

-- A plan deletes an object exactly where some recorded stage holds it and no desired stage claims it.
pub plan_deletes_exactly_unclaimed :
    (previous desired : List StageRecord) (i : String)
    → deletes (compute_plan previous desired) i ≡ (claimed previous i && not (claimed desired i))
unfolding compute_plan
plan_deletes_exactly_unclaimed previous desired i =
    rw
      (any-sort_by (λ s. has_id i s.entries) teardown_order
        (plan_stages previous desired).removed_stages)
      (plan_stages-deletes previous desired i)
