-- ===== src/Rollback/Tests.antt =====
-- internal/controller/rollback.go on two recorded stages, with a store that holds one of them. The state
-- is the list of the objects that were applied.
use stageset_controller.Prelude.{
  String, str_eq, ◌≡◌, refl, subst, inl, inr, Bool, true, false, ◌||◌, none, some, List, [], ◌∷◌,
  arith, if◌then◌else◌, Bool-cases, all, ok,
}
use stageset_controller.Rollback.{
  StageArtifactRef, terminal, previous_revision_unavailable, image_unverified, store_miss, stored,
  Machinery, position_of, verified_rollback_objects, rebuild, from_store, rollback_stage_objects,
  restore_stage, restore_all, attempt_rollback, reverted, find_ref, revert_to,
  rollback_stage_to_snapshot,
}
use stageset_controller.Rollback.Restored.{
  IsVerified, attempt_rollback_verified, PutsBack, restore_all-PutsBack,
}

abbrev machinery : Bool → String → Machinery String String String (List String)
machinery accepts fetched = record {
  has_store = true;
  store_get = λ ref. if str_eq ref.stage "data" then stored "data-1" else store_miss;
  decode = λ d. some d;
  fetch = λ ref. some fetched;
  decryptor = none;
  decrypt = λ f. ok f;
  vars = λ s. some "v";
  substitution_digest = λ v. "sha-v";
  build = λ s f v. some f;
  verify_images = λ s o.
      if str_eq o "data-1"
      then some "data-1@sha"
      else if str_eq o "web-1"
      then some "web-1@sha"
      else none;
  connects = λ s. true;
  stamp_label = λ s o. o;
  apply = λ o w. (accepts, o ∷ w);
  write_inventory = λ s i o w. (true, w);
}

abbrev at_one : String → String → StageArtifactRef
at_one stage digest = record {
  stage = stage;
  url = "";
  digest = "";
  revision = "r1";
  substitution_digest = digest;
}

abbrev snapshot : List StageArtifactRef
snapshot = at_one "data" "sha-old" ∷ at_one "gone" "" ∷ at_one "web" "sha-v" ∷ []

abbrev stages : List String
stages = "data" ∷ "web" ∷ []

program : Unit {0}
unfolding position_of verified_rollback_objects rebuild from_store rollback_stage_objects
    restore_stage restore_all attempt_rollback find_ref revert_to rollback_stage_to_snapshot
program = tt

put_back_both :
    attempt_rollback (machinery true "web-1") stages snapshot []
    ≡ (none, "web-1@sha" ∷ "data-1@sha" ∷ [])
unfolding program
put_back_both = refl

-- An unverified image stops the rollback behind the stage before it.
stops_at_bad :
    attempt_rollback (machinery true "bad") stages snapshot []
    ≡ (some (terminal image_unverified), "data-1@sha" ∷ [])
unfolding program
stops_at_bad = refl

-- Any failure of the API server on the way back is terminal.
refused_apply :
    (attempt_rollback (machinery false "web-1") stages snapshot []).0
    ≡ some (terminal previous_revision_unavailable)
unfolding program
refused_apply = refl

-- Changed substitution variables are refused where the objects are built anew.
not_reproducible :
    (attempt_rollback (machinery true "web-1") stages (at_one "web" "sha-old" ∷ []) []).0
    ≡ some (terminal previous_revision_unavailable)
unfolding program
not_reproducible = refl

one_stage :
    rollback_stage_to_snapshot (machinery true "web-1") "web" 1 snapshot []
    ≡ (reverted "r1", "web-1@sha" ∷ [])
unfolding program
one_stage = refl

abbrev is_pinned : String → Bool
is_pinned o = str_eq o "data-1@sha" || str_eq o "web-1@sha"

applied-pinned :
    (ref : StageArtifactRef) (o : String) (w : List String)
    → IsVerified (machinery true "bad") ref o
    → all is_pinned w ≡ true
    → all is_pinned (o ∷ w) ≡ true
applied-pinned ref o w (raw, v) p = elim (Bool-cases (str_eq raw "data-1")) [
  | inl e ↦
      let same : "data-1@sha" ≡ o = ground (arith, e, v) in
      subst (λ x. all is_pinned (x ∷ w) ≡ true) same p
  | inr e ↦ elim (Bool-cases (str_eq raw "web-1")) [
    | inl f ↦
        let same : "web-1@sha" ≡ o = ground (arith, e, f, v) in
        subst (λ x. all is_pinned (x ∷ w) ≡ true) same p
    | inr f ↦ absurd (ground (arith, e, f, v))
  ]
]

-- Only pinned objects are in the state.
attempt_rollback_verified_example :
    all is_pinned (attempt_rollback (machinery true "bad") stages snapshot []).1 ≡ true
unfolding program
attempt_rollback_verified_example =
    attempt_rollback_verified (machinery true "bad") (λ w. all is_pinned w ≡ true) applied-pinned
      (λ s i o w p. p) stages snapshot [] refl

restore_all-PutsBack_example :
    PutsBack
      (machinery true "web-1")
      stages
      snapshot
      []
      (restore_all (machinery true "web-1") stages snapshot []).1
unfolding program
restore_all-PutsBack_example = restore_all-PutsBack (machinery true "web-1") stages snapshot [] refl
