-- ===== src/Fleet/Tests.antt =====
-- internal/controller/fleetrollout_controller.go on a fleet of two waves.
use stageset_controller.Prelude.{
  ℕ, ◌+◌, ◌≤◌, String, str_eq, ◌≡◌, refl, inl, inr, Bool, true, false, Option, none, some, [], ◌∷◌,
  ltb, if◌then◌else◌, keep_if, All, lookup, pos, ok, to_second,
}
use stageset_controller.Metric.{threshold_satisfied, MetricSource, Floats}
use stageset_controller.Fleet.{
  fleet_approval_version, FleetWave, FleetWaveGate, FleetRolloutSpec, FleetWaveStatus, halted,
  in_progress, not_started, FleetRolloutStatus, FleetRollout, Member, wave_status,
}
use stageset_controller.Fleet.Rollout.{
  Patch, approve_version, roll_back_to, Group, settle_wave, is_regressed, soak_is_over, with_health,
  prior_status, roll, halt, walk, stamp, concat_map,
}
use stageset_controller.Fleet.Reconcile.{
  Cluster, Labels, members, claims, contested_members, reconcile_members, reconcile, wave_selectors,
}
use stageset_controller.Fleet.Order.{IsPermitted, roll-IsPermitted}
use stageset_controller.Fleet.Soak.{Soaking, settles, stays, soak_is_whole}
use stageset_controller.Fleet.Halt.{halt_is_forgotten}
use stageset_controller.Fleet.Exclusive.{contested_writes_nothing}

-- Whole numbers for the floating point ones.
abbrev floats : Floats ℕ
floats = record {
  parse_float = λ s. lookup s (("1", 1) ∷ ("5", 5) ∷ []);
  less = ltb;
  format_float = λ n. "";
}

abbrev querier : Option (MetricSource → Option ℕ)
querier = some (λ s. some 3)

abbrev gate : FleetWaveGate
gate = record {
  source = record {
    prometheus = some (record { address = "p"; query = "q"; secret_ref = none });
    webhook = none;
  };
  threshold = record { min = some "1"; max = some "5" };
}

-- A selector is the tier it asks for.
abbrev wave : String → String → FleetWave String
wave name tier = record {
  name = name;
  selector = tier;
  soak = some (pos 100000000000);
  gate = some gate;
}

abbrev spec : FleetRolloutSpec String
spec = record {
  target_version = "2";
  selector = "";
  namespace_selector = none;
  waves = wave "canary" "early" ∷ wave "rest" "late" ∷ [];
  on_regression = "Rollback";
  previous_version = "1";
}

abbrev member : String → String → String → Bool → Member
member name tier version is_ready = record {
  namespace = "apps";
  name = name;
  labels = ("tier", tier) ∷ [];
  generation = 3;
  observed_generation = 3;
  is_ready = is_ready;
  pending_revisions = 0;
  version = version;
  pending_version = "";
  approved_version = "";
  rollback_to = "";
}

abbrev status : FleetRolloutStatus
status = record {
  observed_generation = 1;
  phase = not_started;
  current_wave = "";
  waves = [];
  ready = none;
}

abbrev accepts : Patch → Bool
accepts p = true

abbrev canary : String → Bool → Group String
canary version is_ready = record {
  wave = wave "canary" "early";
  members = member "a" "early" version is_ready ∷ [];
}

abbrev rest : Group String
rest = record { wave = wave "rest" "late"; members = member "b" "late" "1" true ∷ [] }

program : Unit {0}
unfolding fleet_approval_version threshold_satisfied roll halt walk stamp concat_map settle_wave
    is_regressed soak_is_over with_health to_second prior_status wave_status members claims
    contested_members reconcile_members reconcile wave_selectors
program = tt

-- Only the canary is approved first.
first_pass :
    (roll floats querier spec [] 1000500000000 accepts status (canary "1" true ∷ rest ∷ [])).patches
    ≡ approve_version "apps" "a" "2" ∷ []
unfolding program
first_pass = refl

abbrev settled : FleetRolloutStatus
settled =
    (roll floats querier spec [] 1000500000000 accepts status (canary "2" true ∷ rest ∷ [])).status

-- The rest follows once the canary has soaked.
second_pass :
    (roll floats querier spec settled.waves 1100500000000 accepts settled
      (canary "2" true ∷ rest ∷ [])).patches
    ≡ approve_version "apps" "a" "2" ∷ approve_version "apps" "b" "2" ∷ []
unfolding program
second_pass = refl

too_early :
    (roll floats querier spec settled.waves 1099 accepts settled
      (canary "2" true ∷ rest ∷ [])).patches
    ≡ approve_version "apps" "a" "2" ∷ []
unfolding program
too_early = refl

regressed :
    (roll floats querier spec settled.waves 1050500000000 accepts settled
      (canary "2" false ∷ rest ∷ [])).patches
    ≡ roll_back_to "apps" "a" "1" ∷ []
unfolding program
regressed = refl

roll-IsPermitted_example :
    All
      (IsPermitted floats querier spec settled.waves 1100500000000 (canary "2" true ∷ rest ∷ []))
      (roll floats querier spec settled.waves 1100500000000 accepts settled
        (canary "2" true ∷ rest ∷ [])).patches
roll-IsPermitted_example =
    roll-IsPermitted floats querier spec settled.waves 1100500000000 accepts settled
      (canary "2" true ∷ rest ∷ [])

-- The canary's status after the pass at 1000.5 s and after the one at 1100.5 s.
abbrev begun : FleetWaveStatus
begun = with_health none (settle_wave spec [] 1000500000000 (canary "2" true))

abbrev later : FleetWaveStatus
later = with_health none (settle_wave spec (begun ∷ []) 1100500000000 (canary "2" true))

Soaking-later : Soaking spec (wave "canary" "early") later 1000500000000
unfolding program
Soaking-later =
    stays (member "a" "early" "2" true ∷ []) (begun ∷ []) 1100500000000 none
      (settles (member "a" "early" "2" true ∷ []) [] 1000500000000 none refl refl) refl refl

soak_is_over-later : soak_is_over 1100500000000 later ≡ true
unfolding program
soak_is_over-later = refl

soak_is_whole_example : to_second (1000500000000 + 100000000000) ≤ 1100500000000
soak_is_whole_example =
    soak_is_whole spec (wave "canary" "early") 100000000000 1100500000000 refl Soaking-later
      soak_is_over-later

is_regressed-canary :
    is_regressed settled.waves
      (canary "2" false)
      (settle_wave spec settled.waves 1050500000000 (canary "2" false))
    ≡ true
unfolding program
is_regressed-canary = refl

halt_is_forgotten_example :
    ((roll floats querier spec settled.waves 1050500000000 accepts settled
        (canary "2" false ∷ [])).status.phase
      ≡ halted)
    × ((roll floats querier spec
          (roll floats querier spec settled.waves 1050500000000 accepts settled
            (canary "2" false ∷ [])).status.waves
          1060
          accepts
          (roll floats querier spec settled.waves 1050500000000 accepts settled
            (canary "2" false ∷ [])).status
          (canary "2" false ∷ [])).status.phase
        ≡ in_progress)
halt_is_forgotten_example =
    halt_is_forgotten floats querier spec accepts (λ p. refl) settled.waves 1050500000000 1060
      settled (canary "2" false) is_regressed-canary
      (roll floats querier spec settled.waves 1050500000000 accepts settled (canary "2" false ∷ []))
      refl

abbrev labelled : Labels → String → Bool
labelled ls tier =
    if str_eq tier ""
    then true
    else elim (lookup "tier" ls) [ none ↦ false | some t ↦ str_eq t tier ]

abbrev fleet : String → String → FleetRollout String
fleet name tier = record {
  name = name;
  generation = 1;
  spec = record {
    target_version = "2";
    selector = tier;
    namespace_selector = none;
    waves = wave "canary" "early" ∷ wave "rest" "late" ∷ [];
    on_regression = "Halt";
    previous_version = "";
  };
  status = status;
}

abbrev early : Member
early = member "a" "early" "1" true

abbrev late : Member
late = member "b" "late" "1" true

-- Two rollouts, one over every StageSet and one over the late ones.
abbrev cluster : Cluster String
cluster = record {
  as_selector = λ tier. some (λ ls. labelled ls tier);
  stage_sets = λ sel. some (keep_if (λ m. sel m.labels) (early ∷ late ∷ []));
  namespaces = λ sel. some ("apps" ∷ []);
  fleet_rollouts = some (fleet "all" "" ∷ fleet "late" "late" ∷ []);
}

members-all : members cluster (fleet "all" "").spec ≡ ok (early ∷ late ∷ [])
unfolding program
members-all = refl

members-late : members cluster (fleet "late" "late").spec ≡ ok (late ∷ [])
unfolding program
members-late = refl

contested_writes_nothing_example :
    ((reconcile cluster floats querier 1000500000000 accepts (fleet "all" "")).patches ≡ [])
    × ((reconcile cluster floats querier 1000500000000 accepts (fleet "late" "late")).patches ≡ [])
contested_writes_nothing_example =
    contested_writes_nothing cluster floats querier 1000500000000 accepts (fleet "all" "")
      (fleet "late" "late") (fleet "all" "" ∷ fleet "late" "late" ∷ []) (early ∷ late ∷ [])
      (late ∷ []) late late refl (inl refl) (inr (inl refl)) refl members-all members-late
      (inr (inl refl)) (inl refl) refl
