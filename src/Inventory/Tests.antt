-- ===== src/Inventory/Tests.antt =====
-- internal/inventory/plan.go and shard.go on two stages, of which one is gone from the spec.
use stageset_controller.Prelude.{
  ℕ, String, ◌≡◌, refl, ◌⊎◌, not, ◌&&◌, some, List, [], ◌∷◌, All, pos, ok, err, insert_by, sort_by,
}
use stageset_controller.Inventory.{
  ObjectRef, ref_id, StageRecord, id_less, claimed, filter_refs, desired_entries, plan_stage,
  plan_stages, compute_plan, shards_from, shards_of, plan_shards,
}
use stageset_controller.Inventory.Id.{
  split_id, malformed_parts, empty_name, empty_kind, of_parts, parse_id, parse_id-ref_id,
}
use stageset_controller.Inventory.Plan.{deletes, plan_deletes_exactly_unclaimed}
use stageset_controller.Inventory.Shard.{concat, Fits, plan_shards-partitions}

abbrev object : String → ObjectRef
object name = record {
  group = "apps";
  kind = "Deployment";
  namespace = "shop";
  name = name;
  version = "v1";
}

abbrev stage : String → ℕ → List ObjectRef → StageRecord
stage name position entries = record { name = name; position = position; entries = entries }

abbrev recorded : List StageRecord
recorded =
    stage "db" 0 (object "pg" ∷ object "old" ∷ [])
    ∷ stage "web" 1 (object "site" ∷ object "cache" ∷ [])
    ∷ []

abbrev desired : List StageRecord
desired = stage "db" 0 (object "pg" ∷ object "cache" ∷ []) ∷ []

program : Unit {0}
unfolding ref_id filter_refs desired_entries plan_stage plan_stages compute_plan shards_from
    shards_of plan_shards sort_by insert_by
program = tt

moved_object_stays : compute_plan recorded desired ≡ record {
  prune_per_stage = ("db", object "old" ∷ []) ∷ [];
  removed_stages = stage "web" 1 (object "site" ∷ []) ∷ [];
}
unfolding program
moved_object_stays = refl

plan_deletes_exactly_unclaimed_example :
    deletes (compute_plan recorded desired) (ref_id (object "cache")) ≡ (
      claimed recorded (ref_id (object "cache")) && not (claimed desired (ref_id (object "cache"))))
plan_deletes_exactly_unclaimed_example =
    plan_deletes_exactly_unclaimed recorded desired (ref_id (object "cache"))

plan_shards-partitions_example :
    let entries = object "b" ∷ object "c" ∷ object "a" ∷ [] in
    (shards : List (List ObjectRef)) × (plan_shards entries (pos 2) ≡ some shards)
    × (concat shards ≡ sort_by id_less entries)
    × (All (Fits 2) shards ⊎ ((shards ≡ [] ∷ []) × (entries ≡ [])))
plan_shards-partitions_example =
    plan_shards-partitions (object "b" ∷ object "c" ∷ object "a" ∷ []) 1

ids : Unit {0}
unfolding ref_id split_id of_parts parse_id
ids = tt

malformed_ids :
    (parse_id "shop_site_apps" "v1" ≡ err (malformed_parts 3))
    × (parse_id "shop__apps_Deployment" "v1" ≡ err empty_name)
    × (parse_id "_site__" "v1" ≡ err empty_kind)
unfolding ids
malformed_ids = (refl, refl, refl)

parse_id-ref_id_example : parse_id "shop_site_apps_Deployment" "v1" ≡ ok (object "site")
unfolding ids
parse_id-ref_id_example = parse_id-ref_id (object "site") refl refl refl refl refl refl
