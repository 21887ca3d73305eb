-- ===== src/Rollback/Restored.antt =====
-- internal/controller/rollback.go: what a rollback applies, and what its success means.
use stageset_controller.Prelude.{
  ℕ, String, ◌≡◌, refl, subst, inl, inr, Bool, true, none, some, List, [], ◌∷◌, arith, Bool-cases,
  Option-cases, Result-cases, ok,
}
use stageset_controller.Rollback.{
  StageArtifactRef, StoreRead, store_outage, store_miss, stored, Machinery, position_of,
  verified_rollback_objects, rebuild, from_store, rollback_stage_objects, restore_stage,
  restore_all, attempt_rollback,
}

module _ {O F V W : Type 0} (m : Machinery O F V W) where
  -- What the verification of images has left of some objects, pinned to their digests.
  abbrev pub IsVerified : StageArtifactRef → O → Type 0
  IsVerified ref objects = (raw : O) × (m.verify_images ref.stage raw ≡ some objects)

  verified_rollback_objects-IsVerified :
      (ref : StageArtifactRef) (o objects : O)
      → verified_rollback_objects m ref.stage o ≡ ok objects
      → IsVerified ref objects
  unfolding verified_rollback_objects
  verified_rollback_objects-IsVerified ref o objects h =
      elim (Option-cases (m.verify_images ref.stage o)) [
        | inl e ↦ absurd (ground (arith, e, h))
        | inr (pinned, e) ↦ (o, ground (arith, e, h))
      ]

  rebuild-IsVerified :
      (ref : StageArtifactRef) (objects : O) → rebuild m ref ≡ ok objects → IsVerified ref objects
  unfolding rebuild
  rebuild-IsVerified ref objects h = elim (Option-cases (m.fetch ref)) [
    | inl e1 ↦ absurd (ground (arith, e1, h))
    | inr (f, e1) ↦ elim (Result-cases (m.decrypt f)) [
      | inr (x, e2) ↦ absurd (ground (arith, e1, e2, h))
      | inl (files, e2) ↦ elim (Option-cases (m.vars ref.stage)) [
        | inl e3 ↦ absurd (ground (arith, e1, e2, e3, h))
        | inr (v, e3) ↦ elim (Option-cases (m.build ref.stage files v)) [
          | inl e4 ↦ absurd (ground (arith, e1, e2, e3, e4, h))
          | inr (o, e4) ↦
              verified_rollback_objects-IsVerified ref o objects (ground (arith, e1, e2, e3, e4, h))
        ]
      ]
    ]
  ]

  from_store-IsVerified :
      (ref : StageArtifactRef) (read : StoreRead) (objects : O)
      → from_store m ref read ≡ ok objects
      → IsVerified ref objects
  unfolding from_store
  from_store-IsVerified ref store_outage objects h = absurd (cc h)
  from_store-IsVerified ref store_miss objects h = rebuild-IsVerified ref objects h
  from_store-IsVerified ref (stored d) objects h = elim (Option-cases (m.decode d)) [
    | inl e ↦ rebuild-IsVerified ref objects (ground (arith, e, h))
    | inr (o, e) ↦ verified_rollback_objects-IsVerified ref o objects (ground (arith, e, h))
  ]

  -- The objects that a rollback finds for a stage have passed the verification of images.
  rollback_stage_objects-IsVerified :
      (ref : StageArtifactRef) (objects : O)
      → rollback_stage_objects m ref ≡ ok objects
      → IsVerified ref objects
  unfolding rollback_stage_objects
  rollback_stage_objects-IsVerified ref objects h = elim (Bool-cases m.has_store) [
    | inl e ↦ from_store-IsVerified ref (m.store_get ref) objects (ground (arith, e, h))
    | inr e ↦ rebuild-IsVerified ref objects (ground (arith, e, h))
  ]

  -- What every application of verified objects, and every write of an inventory, keeps.
  record Keeps (P : W → Type 0) : Type 0 where
    by_apply :
        (ref : StageArtifactRef) (o : O) (w : W)
        → IsVerified ref o
        → P w
        → P (m.apply (m.stamp_label ref.stage o) w).1
    by_inventory :
        (stage : String) (i : ℕ) (o : O) (w : W) → P w → P (m.write_inventory stage i o w).1

  restore_stage-keeps :
      (P : W → Type 0) (k : Keeps P) (ref : StageArtifactRef) (i : ℕ) (o : O) (w : W)
      → IsVerified ref o
      → P w
      → P (restore_stage m ref i o w).1
  unfolding restore_stage
  restore_stage-keeps P k ref i o w v p =
      let labelled = m.stamp_label ref.stage o in
      let p1 = k.by_apply ref o w v p in
      let p2 = k.by_inventory ref.stage i labelled (m.apply labelled w).1 p1 in
      elim (Bool-cases (m.connects ref.stage)) [
        | inr e ↦ rw e p
        | inl e ↦ elim (Bool-cases (m.apply labelled w).0) [
          | inr f ↦ rw (e, f) p1
          | inl f ↦
              elim (Bool-cases (m.write_inventory ref.stage i labelled (m.apply labelled w).1).0) [
                | inr g ↦ rw (e, f, g) p2
                | inl g ↦ rw (e, f, g) p2
              ]
        ]
      ]

  restore_all-keeps :
      (P : W → Type 0) (k : Keeps P) (stages : List String) (refs : List StageArtifactRef) (w : W)
      → P w
      → P (restore_all m stages refs w).1
  unfolding restore_all
  restore_all-keeps P k stages [] w p = p
  restore_all-keeps P k stages (ref ∷ refs) w p =
      elim (Option-cases (position_of ref.stage 0 stages)) [
        | inl e ↦ rw (restore_all, e) (restore_all-keeps P k stages refs w p)
        | inr (i, e) ↦ elim (Result-cases (rollback_stage_objects m ref)) [
          | inr (x, f) ↦ rw (restore_all, e, f) p
          | inl (o, f) ↦
              let p1 =
                restore_stage-keeps P k ref i o w (rollback_stage_objects-IsVerified ref o f) p in
              elim (Option-cases (restore_stage m ref i o w).0) [
                | inr (x, g) ↦ rw (restore_all, e, f, g) p1
                | inl g ↦
                    rw (restore_all, e, f, g)
                      (restore_all-keeps P k stages refs (restore_stage m ref i o w).1 p1)
              ]
        ]
      ]

  -- What holds of the state, and is kept by each application of objects as the verification of images
  -- pins them and by each write of an inventory, holds after a rollback, whatever its end: a rollback
  -- applies no object but those that the verification has passed and pinned.
  pub attempt_rollback_verified :
      (P : W → Type 0)
      → ((ref : StageArtifactRef) (o : O) (w : W)
          → IsVerified ref o
          → P w
          → P (m.apply (m.stamp_label ref.stage o) w).1)
      → ((stage : String) (i : ℕ) (o : O) (w : W) → P w → P (m.write_inventory stage i o w).1)
      → (stages : List String) (snapshot : List StageArtifactRef) (w : W) → P w
      → P (attempt_rollback m stages snapshot w).1
  unfolding attempt_rollback
  attempt_rollback_verified P a i stages [] w p = p
  attempt_rollback_verified P a i stages (ref ∷ refs) w p = elim (Option-cases m.decryptor) [
    | inr (x, e) ↦ rw e p
    | inl e ↦
        rw e
          (restore_all-keeps P (record { by_apply = a; by_inventory = i }) stages (ref ∷ refs) w p)
  ]

  -- A stage put back: its objects applied, and its inventory rewritten to them.
  abbrev put_back : StageArtifactRef → ℕ → O → W → W
  put_back ref i o w =
      (m.write_inventory ref.stage i (m.stamp_label ref.stage o)
        (m.apply (m.stamp_label ref.stage o) w).1).1

  -- Whether the write of the inventory after the application succeeds.
  abbrev pub writes : StageArtifactRef → ℕ → O → W → Bool
  writes ref i o w =
      (m.write_inventory ref.stage i (m.stamp_label ref.stage o)
        (m.apply (m.stamp_label ref.stage o) w).1).0

  -- The stages of a snapshot that the spec still names, put back in its order, with verified objects.
  pub data PutsBack (stages : List String) : List StageArtifactRef → W → W → Type 0 where
    all_back : (w : W) → PutsBack stages [] w w
    gone :
        (ref : StageArtifactRef) {refs : List StageArtifactRef} {w w' : W}
        → position_of ref.stage 0 stages ≡ none
        → PutsBack stages refs w w'
        → PutsBack stages (ref ∷ refs) w w'
    put :
        (ref : StageArtifactRef) {refs : List StageArtifactRef} {w w' : W} (i : ℕ) (o : O)
        → position_of ref.stage 0 stages ≡ some i
        → rollback_stage_objects m ref ≡ ok o
        → IsVerified ref o
        → m.connects ref.stage ≡ true
        → (m.apply (m.stamp_label ref.stage o) w).0 ≡ true
        → writes ref i o w ≡ true
        → PutsBack stages refs (put_back ref i o w) w'
        → PutsBack stages (ref ∷ refs) w w'

  restore_stage-done :
      (ref : StageArtifactRef) (i : ℕ) (o : O) (w : W)
      → (restore_stage m ref i o w).0 ≡ none
      → ((restore_stage m ref i o w).1 ≡ put_back ref i o w)
        × (m.connects ref.stage ≡ true)
        × ((m.apply (m.stamp_label ref.stage o) w).0 ≡ true)
        × (writes ref i o w ≡ true)
  unfolding restore_stage
  restore_stage-done ref i o w h =
      let labelled = m.stamp_label ref.stage o in
      elim (Bool-cases (m.connects ref.stage)) [
        | inr e ↦ absurd (ground (arith, e, h))
        | inl e ↦ elim (Bool-cases (m.apply labelled w).0) [
          | inr f ↦ absurd (ground (arith, e, f, h))
          | inl f ↦
              elim (Bool-cases (m.write_inventory ref.stage i labelled (m.apply labelled w).1).0) [
                | inr g ↦ absurd (ground (arith, e, f, g, h))
                | inl g ↦ (rw (e, f, g) refl, e, f, g)
              ]
        ]
      ]

  -- A rollback that ends without a stop has put back every stage of the snapshot that the spec still
  -- names, in the snapshot's order: the objects that it finds for the stage, as the verification of images
  -- pins them, have been applied without an error, and then the inventory rewritten to them without one.
  pub restore_all-PutsBack :
      (stages : List String) (snapshot : List StageArtifactRef) (w : W)
      → (restore_all m stages snapshot w).0 ≡ none
      → PutsBack stages snapshot w (restore_all m stages snapshot w).1
  unfolding restore_all
  restore_all-PutsBack stages [] w h = all_back w
  restore_all-PutsBack stages (ref ∷ refs) w h =
      elim (Option-cases (position_of ref.stage 0 stages)) [
        | inl e ↦
            gone ref e
              (rw (restore_all, e) (restore_all-PutsBack stages refs w (ground (arith, e, h))))
        | inr (i, e) ↦ elim (Result-cases (rollback_stage_objects m ref)) [
          | inr (x, f) ↦ absurd (ground (arith, e, f, h))
          | inl (o, f) ↦ elim (Option-cases (restore_stage m ref i o w).0) [
            | inr (x, g) ↦ absurd (ground (arith, e, f, g, h))
            | inl g ↦
                let (back, connected, applied, written) = restore_stage-done ref i o w g in
                put ref i o e f (rollback_stage_objects-IsVerified ref o f) connected applied
                  written
                  (rw (restore_all, e, f, g)
                    (subst
                      (λ x.
                        PutsBack stages refs x
                          (restore_all m stages refs (restore_stage m ref i o w).1).1)
                      back
                      (restore_all-PutsBack stages refs (restore_stage m ref i o w).1
                        (ground (arith, e, f, g, h)))))
          ]
        ]
      ]
