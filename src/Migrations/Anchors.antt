-- ===== src/Migrations/Anchors.antt =====
-- internal/controller/migrations.go, resolveAnchors: the migrations of each stage are the pending ones
-- whose anchor is that stage.
use stageset_controller.Prelude.{
  String, str_eq, str_eq_iff, ◌≡◌, refl, sym, ◌∙◌, inl, inr, Bool, true, false, none, some, List,
  [], ◌∷◌, ◌++◌, arith, if◌then◌else◌, Bool-cases, any, keep_if, lookup, error_of, ok,
}
use mathlib.Core.List.{append-nil, append_assoc}
use stageset_controller.Ladder.{Migration}
use stageset_controller.Migrations.{
  AnchoredStage, append_at, for_stage, resolve_anchors, anchor_stage, refused,
  migration_stage_not_found,
}

-- A text equal to one of two different texts is not the other.
str_eq-else : (a b s : String) → str_eq a b ≡ false → str_eq a s ≡ true → str_eq b s ≡ false
str_eq-else a b s e f = grind (arith, str_eq_iff a b, str_eq_iff a s, str_eq_iff b s)

-- An appended migration is listed last under its stage, and no other stage's list changes.
for_stage-append_at :
    (stage : String) (m : Migration) (by : List (String × List Migration)) (s : String)
    → for_stage (append_at stage m by) s
      ≡ (if str_eq stage s then for_stage by s ++ (m ∷ []) else for_stage by s)
unfolding append_at
for_stage-append_at stage m [] s = ground arith
for_stage-append_at stage m ((k, ms) ∷ rest) s = elim (Bool-cases (str_eq k stage)) [
  | inl e ↦ elim (Bool-cases (str_eq k s)) [
    | inl f ↦ rw (e, f, sym ((str_eq_iff k stage).0 e), f, lookup)
    | inr f ↦ rw (e, f, sym ((str_eq_iff k stage).0 e), f, lookup)
  ]
  | inr e ↦ elim (Bool-cases (str_eq k s)) [
    | inl f ↦ rw (e, f, str_eq-else k stage s e f)
    | inr f ↦ rw (e, f, for_stage-append_at stage m rest s)
  ]
]

module _ (stages : List AnchoredStage) where
  abbrev pub anchored_at : String → Migration → Bool
  anchored_at s m = str_eq (anchor_stage stages m.stage) s

  for_stage-step :
      (m : Migration) (ms : List Migration) (so_far : List (String × List Migration)) (s : String)
      → for_stage (append_at (anchor_stage stages m.stage) m so_far) s ++ keep_if (anchored_at s) ms
        ≡ for_stage so_far s ++ keep_if (anchored_at s) (m ∷ ms)
  for_stage-step m ms so_far s = elim (Bool-cases (anchored_at s m)) [
    | inl e ↦
        let assoc : (for_stage so_far s ++ (m ∷ [])) ++ keep_if (anchored_at s) ms
            ≡ for_stage so_far s ++ (m ∷ keep_if (anchored_at s) ms) =
          append_assoc (for_stage so_far s) (m ∷ []) (keep_if (anchored_at s) ms) in
        rw (for_stage-append_at (anchor_stage stages m.stage) m so_far s, e) assoc
    | inr e ↦ rw (for_stage-append_at (anchor_stage stages m.stage) m so_far s, e)
  ]

  resolve_anchors-from :
      (ms : List Migration) (so_far by : List (String × List Migration)) (s : String)
      → resolve_anchors stages ms so_far ≡ ok by
      → for_stage by s ≡ for_stage so_far s ++ keep_if (anchored_at s) ms
  unfolding resolve_anchors
  resolve_anchors-from [] so_far by s h = grind (arith, append-nil (for_stage so_far s))
  resolve_anchors-from (m ∷ ms) so_far by s h =
      elim (Bool-cases (str_eq (anchor_stage stages m.stage) "")) [
        | inl e ↦ ground (arith, h)
        | inr e ↦
            resolve_anchors-from ms (append_at (anchor_stage stages m.stage) m so_far) by s
              (sym (rw (e) refl) ∙ h)
            ∙ for_stage-step m ms so_far s
      ]

  -- When every anchor resolves, the migrations run before a stage are the pending ones anchored to it,
  -- in their order.
  pub for_stage-resolve_anchors :
      (ms : List Migration) (by : List (String × List Migration)) (s : String)
      → resolve_anchors stages ms [] ≡ ok by
      → for_stage by s ≡ keep_if (anchored_at s) ms
  for_stage-resolve_anchors ms by s h = resolve_anchors-from ms [] by s h

  -- Anchoring fails exactly when the anchor of some migration names no stage.
  pub resolve_anchors-fails :
      (ms : List Migration) (so_far : List (String × List Migration))
      → error_of (resolve_anchors stages ms so_far)
        ≡ (if any (anchored_at "") ms then some (refused migration_stage_not_found) else none)
  unfolding resolve_anchors
  resolve_anchors-fails [] so_far = refl
  resolve_anchors-fails (m ∷ ms) so_far = elim (Bool-cases (anchored_at "" m)) [
    | inl e ↦ rw (e)
    | inr e ↦ rw (e) (resolve_anchors-fails ms (append_at (anchor_stage stages m.stage) m so_far))
  ]
