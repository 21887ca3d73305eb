-- ===== src/Stages/Merge.antt =====
-- internal/controller/stageset_controller.go, mergeStageStatuses: what each stage's record is after a
-- pass that ended early.
use stageset_controller.Prelude.{
  String, str_eq, str_eq_iff, str_eq_refl, ◌≡◌, refl, sym, ap, ◌∙◌, subst, inl, inr, true, false,
  Option, none, some, List, [], ◌∷◌, map, arith, if◌then◌else◌, Bool-cases, Option-cases, is_some,
  keep_if, contains,
}
use stageset_controller.Stages.{StageStatus, index_of, merge_stage_statuses}

-- An entry of a list carries the name that it is looked up by.
pub index_of-name :
    (n : String) (ss : List StageStatus) (s : StageStatus)
    → index_of n ss ≡ some s
    → str_eq s.name n ≡ true
unfolding index_of
index_of-name n [] s h = ground (arith, h)
index_of-name n (t ∷ ss) s h = elim (Option-cases (index_of n ss)) [
  | inl e ↦ ground (arith, e, h)
  | inr (u, e) ↦ index_of-name n ss s (ground (arith, e, h))
]

-- mergeStageStatuses' entry of a name.
abbrev pub entry_of : String → List StageStatus → List StageStatus → Option StageStatus
entry_of n prior processed = elim (index_of n processed) [
  | some e ↦ some e
  | none ↦ index_of n prior
]

entry_of-name :
    (n : String) (prior processed : List StageStatus) (s : StageStatus)
    → entry_of n prior processed ≡ some s
    → str_eq s.name n ≡ true
entry_of-name n prior processed s h = elim (Option-cases (index_of n processed)) [
  | inl e ↦ index_of-name n prior s (ground (arith, e, h))
  | inr (t, e) ↦ index_of-name n processed s (ground (arith, e, h))
]

merge-cons-none :
    (m : String) (names : List String) (prior processed : List StageStatus)
    → entry_of m prior processed ≡ none
    → merge_stage_statuses (m ∷ names) prior processed ≡ merge_stage_statuses names prior processed
unfolding merge_stage_statuses
merge-cons-none m names prior processed h = elim (Option-cases (index_of m processed)) [
  | inl e ↦ ground (arith, e, h)
  | inr (t, e) ↦ ground (arith, e, h)
]

merge-cons-some :
    (m : String) (names : List String) (prior processed : List StageStatus) (s : StageStatus)
    → entry_of m prior processed ≡ some s
    → merge_stage_statuses (m ∷ names) prior processed
      ≡ s ∷ merge_stage_statuses names prior processed
unfolding merge_stage_statuses
merge-cons-some m names prior processed s h = elim (Option-cases (index_of m processed)) [
  | inl e ↦ ground (arith, e, h)
  | inr (t, e) ↦ ground (arith, e, h)
]

-- Behind an entry of another name, a record is looked up as before.
index_of-other :
    (n m : String) (s : StageStatus) (ss : List StageStatus)
    → str_eq s.name m ≡ true
    → str_eq m n ≡ false
    → index_of n (s ∷ ss) ≡ index_of n ss
unfolding index_of
index_of-other n m s ss h k =
    let other : str_eq s.name n ≡ false =
      subst (λ x. str_eq x n ≡ false) (sym ((str_eq_iff s.name m).0 h)) k in
    elim (Option-cases (index_of n ss)) [ inl e ↦ rw (e, other) | inr (t, e) ↦ rw (e) ]

module _ (prior processed : List StageStatus) where
  abbrev merged : List String → List StageStatus
  merged names = merge_stage_statuses names prior processed

  abbrev Keeps : String → List String → Type 0
  Keeps n names =
      index_of n (merged names) ≡ (if contains n names then entry_of n prior processed else none)

  Keeps-head : (n : String) (names : List String) → Keeps n names → Keeps n (n ∷ names)
  unfolding index_of
  Keeps-head n names ih = elim (Option-cases (entry_of n prior processed)) [
    | inl e ↦ ground (arith, ih, e, merge-cons-none n names prior processed e, str_eq_refl n)
    | inr (s, e) ↦ ground (
      arith,
      ih,
      e,
      merge-cons-some n names prior processed s e,
      str_eq_refl n,
      entry_of-name n prior processed s e,
    )
  ]

  Keeps-tail :
      (n m : String) (names : List String)
      → str_eq m n ≡ false
      → Keeps n names
      → Keeps n (m ∷ names)
  Keeps-tail n m names k ih = elim (Option-cases (entry_of m prior processed)) [
    | inl e ↦ rw (merge-cons-none m names prior processed e, k) ih
    | inr (s, e) ↦
        rw (merge-cons-some m names prior processed s e, k)
          (index_of-other n m s (merged names) (entry_of-name m prior processed s e) k ∙ ih)
  ]

  -- A merged record of a stage in the spec is its entry of the pass, else its persisted one; a stage that
  -- the spec does not name has none.
  pub index_of-merge_stage_statuses : (n : String) (names : List String) → Keeps n names
  unfolding merge_stage_statuses index_of
  index_of-merge_stage_statuses n [] = refl
  index_of-merge_stage_statuses n (m ∷ names) = elim (Bool-cases (str_eq m n)) [
    | inl k ↦
        subst (λ x. Keeps n (x ∷ names)) (sym ((str_eq_iff m n).0 k))
          (Keeps-head n names (index_of-merge_stage_statuses n names))
    | inr k ↦ Keeps-tail n m names k (index_of-merge_stage_statuses n names)
  ]

  -- The merged records follow the order of the spec.
  merged_in_spec_order :
      (names : List String)
      → map (λ s. s.name) (merge_stage_statuses names prior processed)
        ≡ keep_if (λ n. is_some (entry_of n prior processed)) names
  unfolding merge_stage_statuses
  merged_in_spec_order [] = refl
  merged_in_spec_order (m ∷ names) = elim (Option-cases (entry_of m prior processed)) [
    | inl e ↦ rw (merge-cons-none m names prior processed e, e) (merged_in_spec_order names)
    | inr (s, e) ↦
        rw
          (
            merge-cons-some m names prior processed s e,
            e,
            (str_eq_iff s.name m).0 (entry_of-name m prior processed s e),
          )
          (ap (λ ns. m ∷ ns) (merged_in_spec_order names))
  ]
