-- ===== src/Inventory.antt =====
-- internal/inventory/plan.go, ref.go and shard.go: the deletions of a pass, from the recorded and the
-- desired inventories of the stages, and the shards that a stage's inventory is stored in.
mod Plan
mod Shard
mod Id
mod Tests
use stageset_controller.Prelude.{
  ℕ, zero, suc, String, str_eq, Bool, true, false, not, ◌&&◌, Option, none, some, List, [], ◌∷◌,
  ltb, if◌then◌else◌, length, any, keep_if, ℤ, pos, negsuc, sort_by,
}
use Prim.Native.String.{compare, ◌++◌ as str_append}
use text.Mathlib.Text.{is_lt}

pub record ObjectRef : Type 0 where
  pub group : String
  pub kind : String
  pub namespace : String
  pub name : String
  pub version : String

-- ID
unfoldable pub ref_id : ObjectRef → String
ref_id r = str_append r.namespace (
    str_append "_"
      (str_append r.name (str_append "_" (str_append r.group (str_append "_" r.kind)))))

pub record StageRecord : Type 0 where
  pub name : String
  pub position : ℕ
  pub entries : List ObjectRef

-- The recorded stages carry the names of a map's keys, so no list of prunePerStage replaces another.
pub record DeletionPlan : Type 0 where
  pub prune_per_stage : List (String × List ObjectRef)
  pub removed_stages : List StageRecord

abbrev pub id_less : ObjectRef → ObjectRef → Bool
id_less a b = is_lt (compare (ref_id a) (ref_id b))

unfoldable pub filter_refs : (String → Bool) → List ObjectRef → List ObjectRef
filter_refs keep refs = sort_by id_less (keep_if (λ r. keep (ref_id r)) refs)

-- Whether an identifier is among the entries, as a set made of them answers.
abbrev pub has_id : String → List ObjectRef → Bool
has_id i refs = any (λ r. str_eq (ref_id r) i) refs

abbrev pub claimed : List StageRecord → String → Bool
claimed desired i = any (λ s. has_id i s.entries) desired

abbrev is_empty : List ObjectRef → Bool
is_empty [] = true
is_empty (r ∷ refs) = false

-- desiredByName[name]: the entries of the last stage of that name.
unfoldable pub desired_entries : String → List StageRecord → Option (List ObjectRef)
desired_entries n [] = none
desired_entries n (s ∷ ss) = elim (desired_entries n ss) [
  | some refs ↦ some refs
  | none ↦ if str_eq s.name n then some s.entries else none
]

abbrev teardown_order : StageRecord → StageRecord → Bool
teardown_order a b =
    if ltb b.position a.position
    then true
    else if ltb a.position b.position
    then false
    else is_lt (compare a.name b.name)

-- The loop's body: a surviving stage is pruned, another one removed.
unfoldable pub plan_stage :
    StageRecord → Option (List ObjectRef) → List StageRecord → DeletionPlan → DeletionPlan
unfolding filter_refs
plan_stage prev none desired rest = record rest {
  removed_stages =
      (record prev { entries = filter_refs (λ i. not (claimed desired i)) prev.entries })
      ∷ rest.removed_stages;
}
plan_stage prev (some refs) desired rest =
    let prune = filter_refs (λ i. not (has_id i refs) && not (claimed desired i)) prev.entries in
    if is_empty prune
    then rest
    else record rest { prune_per_stage = (prev.name, prune) ∷ rest.prune_per_stage }

-- The loop of ComputePlan, before the removed stages are sorted.
unfoldable pub plan_stages : List StageRecord → List StageRecord → DeletionPlan
unfolding plan_stage desired_entries
plan_stages [] desired = record { prune_per_stage = []; removed_stages = [] }
plan_stages (prev ∷ previous) desired =
    plan_stage prev (desired_entries prev.name desired) desired (plan_stages previous desired)

unfoldable pub compute_plan : List StageRecord → List StageRecord → DeletionPlan
unfolding plan_stages
compute_plan previous desired =
    let plan = plan_stages previous desired in
    record plan { removed_stages = sort_by teardown_order plan.removed_stages }

abbrev pub take : ℕ → List ObjectRef → List ObjectRef
take zero xs = []
take (suc n) [] = []
take (suc n) (x ∷ xs) = x ∷ take n xs

abbrev pub drop : ℕ → List ObjectRef → List ObjectRef
drop zero xs = xs
drop (suc n) [] = []
drop (suc n) (x ∷ xs) = drop n xs

-- The loop of PlanShards over the sorted entries, with their number as fuel.
unfoldable pub shards_from : ℕ → ℕ → List ObjectRef → List (List ObjectRef)
shards_from fuel capacity [] = []
shards_from zero capacity (x ∷ xs) = []
shards_from (suc fuel) capacity (x ∷ xs) =
    take capacity (x ∷ xs) ∷ shards_from fuel capacity (drop capacity (x ∷ xs))

-- No entry gives one empty shard.
unfoldable pub shards_of : ℕ → List ObjectRef → List (List ObjectRef)
unfolding shards_from
shards_of capacity [] = [] ∷ []
shards_of capacity (x ∷ xs) = shards_from (length (x ∷ xs)) capacity (x ∷ xs)

-- PlanShards, whose error is that the capacity is not positive.
unfoldable pub plan_shards : List ObjectRef → ℤ → Option (List (List ObjectRef))
unfolding shards_of
plan_shards entries (negsuc n) = none
plan_shards entries (pos zero) = none
plan_shards entries (pos (suc n)) = some (shards_of (suc n) (sort_by id_less entries))
