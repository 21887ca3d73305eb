-- ===== src/Rollback.antt =====
-- internal/controller/rollback.go: attemptRollback with the objects that it restores, and
-- rollbackStageToSnapshot of internal/controller/analysis.go. The store, the fetch, the decryption, the
-- build, the verification of images and the API server are the record `Machinery`, over the rendered
-- objects `O` of a stage, the files `F` of an artifact, the variables `V` and the state `W` outside.
pub mod Restored
mod Tests
use stageset_controller.Prelude.{
  ℕ, ◌+◌, String, str_eq, Bool, not, ◌||◌, Option, none, some, List, [], ◌∷◌, if◌then◌else◌, Result,
  ◌>>=◌, ◌>>◌, ok, err,
}

pub record StageArtifactRef : Type 0 where
  pub stage : String
  pub url : String
  pub digest : String
  pub revision : String
  pub substitution_digest : String

pub data RollbackReason : Type 0 where
  previous_revision_unavailable image_unverified : RollbackReason

-- A terminal reason, or a failure that the next pass may not meet.
pub data RollbackStop : Type 0 where
  terminal : RollbackReason → RollbackStop
  transient : RollbackStop

pub data StoreRead : Type 0 where
  store_outage store_miss : StoreRead
  stored : String → StoreRead

-- Whether a failure is one that isTransientDecryptError recognises.
pub data DecryptFault : Type 0 where
  throttled denied : DecryptFault

pub record Machinery (O F V W : Type 0) : Type 0 where
  pub has_store : Bool
  pub store_get : StageArtifactRef → StoreRead
  pub decode : String → Option O
  pub fetch : StageArtifactRef → Option F
  pub decryptor : Option DecryptFault  -- the error of buildDecryptor, if it has one
  pub decrypt : F → Result DecryptFault F
  pub vars : String → Option V  -- the substitution variables of a stage
  pub substitution_digest : V → String
  pub build : String → F → V → Option O
  -- verifyStageImages: the objects with their images pinned to the verified digests, or a refusal
  pub verify_images : String → O → Option O
  pub connects : String → Bool
  pub stamp_label : String → O → O
  pub apply : O → W → Bool × W
  pub write_inventory : String → ℕ → O → W → Bool × W

abbrev unavailable : RollbackStop
unavailable = terminal previous_revision_unavailable

abbrev stop_of : DecryptFault → RollbackStop
stop_of throttled = transient
stop_of denied = unavailable

abbrev or_stop {ℓ} : {A : Type ℓ} → RollbackStop → Option A → Result RollbackStop A
or_stop e none = err e
or_stop e (some a) = ok a

abbrev decrypted {ℓ} : {A : Type ℓ} → Result DecryptFault A → Result RollbackStop A
decrypted (ok a) = ok a
decrypted (err e) = err (stop_of e)

-- The position of a stage in the spec, the last one of the name, if it is there.
unfoldable pub position_of : String → ℕ → List String → Option ℕ
position_of name i [] = none
position_of name i (n ∷ ns) = elim (position_of name (i + 1) ns) [
  | some j ↦ some j
  | none ↦ if str_eq n name then some i else none
]

module _ {O F V W : Type 0} (m : Machinery O F V W) where
  unfoldable pub verified_rollback_objects : String → O → Result RollbackStop O
  verified_rollback_objects stage objects =
      or_stop (terminal image_unverified) (m.verify_images stage objects)

  -- The recorded digest is empty, or that of the variables.
  abbrev reproduces : StageArtifactRef → V → Bool
  reproduces ref vars =
      str_eq ref.substitution_digest ""
      || str_eq (m.substitution_digest vars) ref.substitution_digest

  -- The part of rollbackStageObjects after the store: fetch and build anew.
  unfoldable pub rebuild : StageArtifactRef → Result RollbackStop O
  unfolding verified_rollback_objects
  rebuild ref = do
    fetched ← or_stop unavailable (m.fetch ref)
    files ← decrypted (m.decrypt fetched)
    vars ← or_stop unavailable (m.vars ref.stage)
    (if reproduces ref vars then ok tt else err unavailable)
    objects ← or_stop unavailable (m.build ref.stage files vars)
    verified_rollback_objects ref.stage objects

  unfoldable pub from_store : StageArtifactRef → StoreRead → Result RollbackStop O
  unfolding rebuild verified_rollback_objects
  from_store ref store_outage = err transient
  from_store ref store_miss = rebuild ref
  from_store ref (stored data_) = elim (m.decode data_) [
    | some objects ↦ verified_rollback_objects ref.stage objects
    | none ↦ rebuild ref
  ]

  unfoldable pub rollback_stage_objects : StageArtifactRef → Result RollbackStop O
  unfolding rebuild from_store
  rollback_stage_objects ref = if m.has_store then from_store ref (m.store_get ref) else rebuild ref

  -- Apply the objects of a stage and rewrite its inventory.
  unfoldable pub restore_stage : StageArtifactRef → ℕ → O → W → Option RollbackStop × W
  restore_stage ref position objects w =
      let labelled = m.stamp_label ref.stage objects in
      let (applied, w1) = m.apply labelled w in
      let (written, w2) = m.write_inventory ref.stage position labelled w1 in
      if not (m.connects ref.stage)
      then (some transient, w)
      else if not applied
      then (some unavailable, w1)
      else if not written
      then (some transient, w2)
      else (none, w2)

  -- The loop over the snapshot, for the names of the spec's stages.
  unfoldable pub restore_all : List String → List StageArtifactRef → W → Option RollbackStop × W
  unfolding position_of rollback_stage_objects restore_stage
  restore_all stages [] w = (none, w)
  restore_all stages (ref ∷ refs) w = elim (position_of ref.stage 0 stages) [
    | none ↦ restore_all stages refs w
    | some position ↦ elim (rollback_stage_objects ref) [
      | err stop ↦ (some stop, w)
      | ok objects ↦
          let (stop, w') = restore_stage ref position objects w in
          let rest = restore_all stages refs w' in elim stop [ some e ↦ (some e, w') | none ↦ rest ]
    ]
  ]

  unfoldable pub attempt_rollback :
      List String → List StageArtifactRef → W → Option RollbackStop × W
  unfolding restore_all
  attempt_rollback stages [] w = (none, w)
  attempt_rollback stages (ref ∷ refs) w = elim m.decryptor [
    | some fault ↦ (some (stop_of fault), w)
    | none ↦ restore_all stages (ref ∷ refs) w
  ]

  -- rollbackStageToSnapshot: the revision restored, that it cannot be, or an error.
  pub data Reverted : Type 0 where
    reverted : String → Reverted
    cannot_revert revert_error : Reverted

  unfoldable pub find_ref : String → List StageArtifactRef → Option StageArtifactRef
  find_ref stage [] = none
  find_ref stage (ref ∷ refs) =
      let rest = find_ref stage refs in if str_eq ref.stage stage then some ref else rest

  -- The revert after the objects of the snapshot are found.
  unfoldable pub revert_to : StageArtifactRef → ℕ → O → W → Reverted × W
  revert_to ref position objects w =
      let labelled = m.stamp_label ref.stage objects in
      let (applied, w1) = m.apply labelled w in
      let (written, w2) = m.write_inventory ref.stage position labelled w1 in
      if not applied
      then (revert_error, w1)
      else if not written
      then (revert_error, w2)
      else (reverted ref.revision, w2)

  unfoldable pub rollback_stage_to_snapshot : String → ℕ → List StageArtifactRef → W → Reverted × W
  unfolding find_ref rollback_stage_objects revert_to
  rollback_stage_to_snapshot stage position snapshot w = elim (find_ref stage snapshot) [
    | none ↦ (cannot_revert, w)
    | some ref ↦ elim m.decryptor [
      | some fault ↦ (revert_error, w)
      | none ↦ elim (rollback_stage_objects ref) [
        | err transient ↦ (revert_error, w)
        | err (terminal _) ↦ (cannot_revert, w)
        | ok objects ↦ revert_to ref position objects w
      ]
    ]
  ]
