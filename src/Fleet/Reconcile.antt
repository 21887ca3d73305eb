-- ===== src/Fleet/Reconcile.antt =====
-- internal/controller/fleetrollout_controller.go: members, contestedMembers and reconcile with its
-- guards. What the API server and the label selectors answer is the record `Cluster`.
use stageset_controller.Prelude.{
  ℕ, String, str_eq, Bool, false, not, ◌||◌, Option, none, some, List, [], ◌∷◌, ◌++◌, map,
  if◌then◌else◌, is_some, any, keep_if, contains, lookup, Result, ◌>>=◌, ok, err,
}
use Prim.Native.String.{◌++◌ as str_append}
use stageset_controller.Metric.{MetricSource, MetricEndpoint, Floats}
use stageset_controller.Fleet.{
  FleetWaveGate, FleetWave, FleetRolloutSpec, FleetRollout, FleetReason, members_unassigned,
  invalid_selector, members_contested, gate_unsupported, FleetRolloutStatus, Member,
  fleet_requeue_interval,
}
use stageset_controller.Fleet.Rollout.{
  Patch, Group, Requeue, no_requeue, requeue_after, failed_call, FleetOutcome, concat_map, roll,
}

abbrev pub Labels : Type 0
Labels = List (String × String)

-- metav1.LabelSelectorAsSelector and the reads of the cluster, with `none` for an error.
pub record Cluster (L : Type 0) : Type 0 where
  pub as_selector : L → Option (Labels → Bool)
  pub stage_sets : (Labels → Bool) → Option (List Member)
  pub namespaces : (Labels → Bool) → Option (List String)
  pub fleet_rollouts : Option (List (FleetRollout L))

pub data MembersError : Type 0 where
  bad_selector list_failed bad_namespace_selector namespaces_failed : MembersError

-- m.Namespace + "/" + m.Name
abbrev pub key : Member → String
key m = str_append m.namespace (str_append "/" m.name)

abbrev pub or_error {ℓ} : {A : Type ℓ} → MembersError → Option A → Result MembersError A
or_error e none = err e
or_error e (some a) = ok a

abbrev is_set : Option MetricEndpoint → Bool
is_set none = false
is_set (some e) = is_some e.secret_ref

-- Whether gateSecretRef names a secret.
unfoldable pub has_secret_ref : Option FleetWaveGate → Bool
has_secret_ref none = false
has_secret_ref (some g) = is_set g.source.prometheus || is_set g.source.webhook

module _ {L : Type 0} (cluster : Cluster L) where
  unfoldable pub members : FleetRolloutSpec L → Result MembersError (List Member)
  members spec = do
    sel ← or_error bad_selector (cluster.as_selector spec.selector)
    list ← or_error list_failed (cluster.stage_sets sel)
    elim spec.namespace_selector [
      | none ↦ ok list
      | some ns ↦ (do
        ns_sel ← or_error bad_namespace_selector (cluster.as_selector ns)
        in_scope ← or_error namespaces_failed (cluster.namespaces ns_sel)
        ok (keep_if (λ m. contains m.namespace in_scope) list))
    ]

  -- claimedBy, from the entries so far: a member belongs to the first rollout that names it. A rollout
  -- whose members cannot be read is skipped.
  unfoldable pub claims : String → List (FleetRollout L) → List (String × String)
  unfolding members
  claims name [] = []
  claims name (o ∷ os) =
      let rest = claims name os in
      if str_eq o.name name
      then rest
      else elim (members o.spec) [ err e ↦ rest | ok ms ↦ map (λ m. (key m, o.name)) ms ++ rest ]

  -- The entry of a member that is claimed.
  abbrev pub conflict : List (String × String) → Member → List (String × String)
  conflict claimed m = elim (lookup (key m) claimed) [ none ↦ [] | some o ↦ (key m, o) ∷ [] ]

  -- The members that another rollout selects, each with that rollout.
  unfoldable pub contested_members : FleetRollout L → List Member → Option (List (String × String))
  unfolding claims concat_map
  contested_members fr ms = elim cluster.fleet_rollouts [
    | none ↦ none
    | some others ↦ some (concat_map (conflict (claims fr.name others)) ms)
  ]

  -- The loop over the waves' selectors and gates.
  unfoldable pub wave_selectors :
      List (FleetWave L) → Result FleetReason (List (FleetWave L × (Labels → Bool)))
  unfolding has_secret_ref
  wave_selectors [] = ok []
  wave_selectors (w ∷ ws) = elim (cluster.as_selector w.selector) [
    | none ↦ err invalid_selector
    | some sel ↦
        let rest = wave_selectors ws in
        if has_secret_ref w.gate then err gate_unsupported else (rest >>= λ r. ok ((w, sel) ∷ r))
  ]

  abbrev pub group : List Member → FleetWave L × (Labels → Bool) → Group L
  group ms (w, sel) = record { wave = w; members = keep_if (λ m. sel m.labels) ms }

  abbrev pub is_assigned : List (FleetWave L × (Labels → Bool)) → Member → Bool
  is_assigned waves m = any (λ (w, sel). sel m.labels) waves

  module _ {F : Type 0} (fl : Floats F) (querier : Option (MetricSource → Option F)) (now : ℕ)
      (accepts : Patch → Bool) where
    abbrev pub refused : FleetRolloutStatus → FleetReason → Requeue → FleetOutcome
    refused status reason requeue = record {
      status = record {
        observed_generation = status.observed_generation;
        phase = status.phase;
        current_wave = status.current_wave;
        waves = status.waves;
        ready = some (record { is_true = false; reason = reason });
      };
      patches = [];
      requeue = requeue;
    }

    abbrev pub observed : FleetRollout L → FleetRolloutStatus
    observed fr = record {
      observed_generation = fr.generation;
      phase = fr.status.phase;
      current_wave = fr.status.current_wave;
      waves = fr.status.waves;
      ready = fr.status.ready;
    }

    -- reconcile from the partition of the members into waves on.
    unfoldable pub reconcile_members :
        FleetRollout L → FleetRolloutStatus → List Member → FleetOutcome
    unfolding wave_selectors roll
    reconcile_members fr status ms = elim (wave_selectors fr.spec.waves) [
      | err reason ↦ refused status reason no_requeue
      | ok waves ↦
          if any (λ m. not (is_assigned waves m)) ms
          then refused status members_unassigned (requeue_after fleet_requeue_interval)
          else roll fl querier fr.spec status.waves now accepts status (map (group ms) waves)
    ]

    unfoldable pub reconcile : FleetRollout L → FleetOutcome
    unfolding members contested_members reconcile_members
    reconcile fr =
        let status = observed fr in
        elim (members fr.spec) [
          | err e ↦ refused status invalid_selector no_requeue
          | ok ms ↦ elim (contested_members fr ms) [
            | none ↦ record { status = status; patches = []; requeue = failed_call }
            | some [] ↦ reconcile_members fr status ms
            | some (c ∷ cs) ↦
                refused status members_contested (requeue_after fleet_requeue_interval)
          ]
        ]
