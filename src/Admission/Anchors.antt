-- ===== src/Admission/Anchors.antt =====
-- internal/controller/webhook.go, validateMigrations, and internal/controller/migrations.go, resolveAnchors:
-- the anchors of an accepted ladder resolve.
use stageset_controller.Prelude.{
  String, str_eq, str_eq_iff, ◌≡◌, refl, sym, ◌∙◌, ◌≢◌, ◌⊎◌, inl, inr, Bool, true, false, none,
  List, [], ◌∷◌, map, arith, Bool-cases, any, All, contains, error_of, ok,
}
use stageset_controller.Ladder.{Migration}
use stageset_controller.Migrations.{
  AnchoredStage, first_name, anchor_stage, append_at, resolve_anchors,
}
use stageset_controller.Admission.{SpecStage}
use stageset_controller.Admission.Spec.{anchor_keys}

-- What the plan reads of the stages of a spec.
abbrev pub anchored_stages : {S : Type 0} → List (SpecStage S) → List AnchoredStage
anchored_stages = map (λ s. record { name = s.name; migration_anchor = s.migration_anchor })

abbrev pub IsNamed : AnchoredStage → Type 0
IsNamed s = s.name ≢ ""

first_name-named :
    (p : AnchoredStage → Bool) (ss : List AnchoredStage)
    → All IsNamed ss
    → any p ss ≡ true
    → first_name p ss ≢ ""
unfolding first_name
first_name-named p [] n h = λ e. cc
first_name-named p (s ∷ ss) (n, ns) h = elim (Bool-cases (p s)) [
  | inl q ↦ λ e. n (sym (rw (first_name, q) refl) ∙ e)
  | inr q ↦ λ e. first_name-named p ss ns (ground (arith, q, h)) (sym (rw (first_name, q) refl) ∙ e)
]

-- The key is the anchor of a stage, or its name.
abbrev pub Anchors : String → List AnchoredStage → Type 0
Anchors k ss =
    (any (λ x. str_eq x.migration_anchor k) ss ≡ true) ⊎ (any (λ x. str_eq x.name k) ss ≡ true)

pub anchor_stage-named :
    (s : AnchoredStage) (ss : List AnchoredStage) (k : String)
    → All IsNamed (s ∷ ss)
    → (k ≡ "") ⊎ Anchors k (s ∷ ss)
    → anchor_stage (s ∷ ss) k ≢ ""
unfolding anchor_stage
anchor_stage-named s ss k n a = elim (Bool-cases (str_eq k "")) [
  | inl e ↦ λ h. n.0 (sym (rw (anchor_stage, e) refl) ∙ h)
  | inr e ↦ elim (Bool-cases (any (λ x. str_eq x.migration_anchor k) (s ∷ ss))) [
    | inl f ↦ λ h.
        first_name-named (λ x. str_eq x.migration_anchor k) (s ∷ ss) n f
          (sym (rw (anchor_stage, e, f) refl) ∙ h)
    | inr f ↦ λ h.
        first_name-named (λ x. str_eq x.name k) (s ∷ ss) n (by_name e f a)
          (sym (rw (anchor_stage, e, f) refl) ∙ h)
  ]
]
  where
    by_name :
        str_eq k "" ≡ false
        → any (λ x. str_eq x.migration_anchor k) (s ∷ ss) ≡ false
        → (k ≡ "") ⊎ Anchors k (s ∷ ss)
        → any (λ x. str_eq x.name k) (s ∷ ss) ≡ true
    by_name e f (inl g) = absurd (ground (arith, str_eq_iff k "", e, g))
    by_name e f (inr (inl g)) = absurd (cc (f, g))
    by_name e f (inr (inr g)) = g

-- A key of the loop's result was there before, or anchors a stage.
pub anchor_keys-Anchors :
    {S : Type 0} (ss : List (SpecStage S)) (keys done : List String) (k : String)
    → anchor_keys keys ss ≡ ok done
    → contains k done ≡ true
    → (contains k keys ≡ true) ⊎ Anchors k (anchored_stages ss)
unfolding anchor_keys
anchor_keys-Anchors [] keys done k h c = inl (ground (arith, h, c))
anchor_keys-Anchors (s ∷ ss) keys done k h c = elim (Bool-cases (str_eq s.migration_anchor "")) [
  | inl e ↦
      let a = anchor_keys-Anchors ss (s.name ∷ keys) done k (ground (arith, e, h)) c in
      ground (arith, a)
  | inr e ↦
      let a =
        anchor_keys-Anchors ss (s.migration_anchor ∷ s.name ∷ keys) done k (ground (arith, e, h))
          c in
      ground (arith, a)
]

pub resolve_anchors-ok :
    (stages : List AnchoredStage) (ms : List Migration) (by : List (String × List Migration))
    → All (λ m. anchor_stage stages m.stage ≢ "") ms
    → error_of (resolve_anchors stages ms by) ≡ none
unfolding resolve_anchors
resolve_anchors-ok stages [] by a = refl
resolve_anchors-ok stages (m ∷ ms) by (a, rest) =
    let e : str_eq (anchor_stage stages m.stage) "" ≡ false =
      ground (arith, str_eq_iff (anchor_stage stages m.stage) "", a) in
    rw e (resolve_anchors-ok stages ms (append_at (anchor_stage stages m.stage) m by) rest)
