-- ===== src/Fleet/Exclusive.antt =====
-- internal/controller/fleetrollout_controller.go, contestedMembers: a StageSet that two rollouts select is
-- written by neither.
use stageset_controller.Prelude.{
  ℕ, String, str_eq, str_eq_iff, str_eq_refl, ◌≡◌, refl, sym, subst, inl, inr, Bool, true, false,
  Option, some, List, [], ◌∷◌, ◌++◌, map, arith, Bool-cases, Option-cases, is_some, any, lookup,
  Elem, Result-cases, ok,
}
use stageset_controller.Metric.{MetricSource, Floats}
use stageset_controller.Fleet.{FleetRollout, Member}
use stageset_controller.Fleet.Rollout.{Patch, concat_map}
use stageset_controller.Fleet.Reconcile.{
  conflict, Cluster, key, members, claims, contested_members, reconcile,
}

-- Whether an association list has an entry of the key.
abbrev has_key : String → List (String × String) → Bool
has_key k xs = any (λ p. str_eq p.0 k) xs

lookup-has_key :
    (k : String) (xs : List (String × String)) → has_key k xs ≡ true → is_some (lookup k xs) ≡ true
lookup-has_key k [] h = absurd (ground arith)
lookup-has_key k ((j, v) ∷ xs) h = ground (arith, lookup-has_key k xs)

has_key-left :
    (k : String) (xs ys : List (String × String))
    → has_key k xs ≡ true
    → has_key k (xs ++ ys) ≡ true
has_key-left k [] ys h = absurd (ground arith)
has_key-left k (x ∷ xs) ys h = ground (arith, has_key-left k xs ys)

has_key-right :
    (k : String) (xs ys : List (String × String))
    → has_key k ys ≡ true
    → has_key k (xs ++ ys) ≡ true
has_key-right k [] ys h = h
has_key-right k (x ∷ xs) ys h = ground (arith, has_key-right k xs ys h)

has_key-members :
    (name k : String) (o : Member) (os : List Member)
    → Elem o os
    → str_eq (key o) k ≡ true
    → has_key k (map (λ m. (key m, name)) os) ≡ true
has_key-members name k o (x ∷ os) (inl e) h = rw (sym e, h) refl
has_key-members name k o (x ∷ os) (inr e) h = ground (arith, has_key-members name k o os e h)
has_key-members name k o [] e h = absurd e.lower

module _ {L : Type 0} (cluster : Cluster L) where
  has_key-claims :
      (name k : String) (other : FleetRollout L) (others : List (FleetRollout L)) (os : List Member)
      → Elem other others
      → str_eq other.name name ≡ false
      → members cluster other.spec ≡ ok os
      → has_key k (map (λ m. (key m, other.name)) os) ≡ true
      → has_key k (claims cluster name others) ≡ true
  unfolding claims
  has_key-claims name k other [] os e n m h = absurd e.lower
  has_key-claims name k other (x ∷ xs) os (inl e) n m h =
      let same = subst (λ o. has_key k (claims cluster name (o ∷ xs)) ≡ true) e in
      same (rw (n, m) (has_key-left k _ (claims cluster name xs) h))
  has_key-claims name k other (x ∷ xs) os (inr e) n m h =
      let rest = has_key-claims name k other xs os e n m h in
      elim (Bool-cases (str_eq x.name name)) [
        | inl s ↦ rw s rest
        | inr s ↦ elim (Result-cases (members cluster x.spec)) [
          | inl (ms, q) ↦ rw (s, q) (has_key-right k _ (claims cluster name xs) rest)
          | inr (w, q) ↦ rw (s, q) rest
        ]
      ]

  contested :
      (claimed : List (String × String)) (m : Member) (ms : List Member)
      → Elem m ms
      → is_some (lookup (key m) claimed) ≡ true
      → (c : String × String) × (cs : List (String × String)) × (concat_map
            (conflict cluster claimed)
            ms
          ≡ c ∷ cs)
  unfolding concat_map
  contested claimed m [] e h = absurd e.lower
  contested claimed m (x ∷ ms) (inl e) h = elim (Option-cases (lookup (key m) claimed)) [
    | inl n ↦ absurd (ground arith)
    | inr (o, n) ↦
        (subst
          (λ y.
            (c : String × String) × (cs : List (String × String)) × (concat_map
                (conflict cluster claimed) (y ∷ ms)
              ≡ c ∷ cs))
          e ((key m, o), concat_map (conflict cluster claimed) ms, rw (n, conflict) refl))
  ]
  contested claimed m (x ∷ ms) (inr e) h =
      let (c, cs, q) = contested claimed m ms e h in
      elim (Option-cases (lookup (key x) claimed)) [
        | inl n ↦ (c, cs, rw (n, conflict) q)
        | inr (o, n) ↦ ((key x, o), concat_map (conflict cluster claimed) ms, rw (n, conflict) refl)
      ]

  str_eq-sym : (a b : String) → str_eq a b ≡ false → str_eq b a ≡ false
  str_eq-sym a b h = elim (Bool-cases (str_eq b a)) [
    | inr e ↦ e
    | inl e ↦ absurd (
        ground
          (arith, h, subst (λ x. str_eq a x ≡ true) (sym ((str_eq_iff b a).0 e)) (str_eq_refl a)))
  ]

  writes_nothing :
      {F : Type 0} (fl : Floats F) (querier : Option (MetricSource → Option F)) (now : ℕ)
      (accepts : Patch → Bool) (fr other : FleetRollout L) (everyone : List (FleetRollout L))
      (ms os : List Member) (m o : Member)
      → cluster.fleet_rollouts ≡ some everyone
      → Elem other everyone
      → str_eq other.name fr.name ≡ false
      → members cluster fr.spec ≡ ok ms
      → members cluster other.spec ≡ ok os
      → Elem m ms
      → Elem o os
      → key m ≡ key o
      → (reconcile cluster fl querier now accepts fr).patches ≡ []
  unfolding reconcile contested_members
  writes_nothing fl querier now accepts fr other everyone ms os m o c g n p q e k same =
      let named = subst (λ x. str_eq x (key m) ≡ true) same (str_eq_refl (key m)) in
      let claimed =
        has_key-claims fr.name (key m) other everyone os g n q
          (has_key-members other.name (key m) o os k named) in
      let (x, xs, found) =
        contested (claims cluster fr.name everyone) m ms e (lookup-has_key (key m) _ claimed) in
      ground (arith, found)

  -- A rollout writes to no StageSet in a pass where another rollout of the cluster, of another name and
  -- with readable members, also selects one of its members: neither of the two rollouts does.
  pub contested_writes_nothing :
      {F : Type 0} (fl : Floats F) (querier : Option (MetricSource → Option F)) (now : ℕ)
      (accepts : Patch → Bool) (fr other : FleetRollout L) (everyone : List (FleetRollout L))
      (ms os : List Member) (m o : Member)
      → cluster.fleet_rollouts ≡ some everyone
      → Elem fr everyone
      → Elem other everyone
      → str_eq other.name fr.name ≡ false
      → members cluster fr.spec ≡ ok ms
      → members cluster other.spec ≡ ok os
      → Elem m ms
      → Elem o os
      → key m ≡ key o
      → ((reconcile cluster fl querier now accepts fr).patches ≡ [])
        × ((reconcile cluster fl querier now accepts other).patches ≡ [])
  contested_writes_nothing fl querier now accepts fr other everyone ms os m o c f g n p q e k same =
      (
        writes_nothing fl querier now accepts fr other everyone ms os m o c g n p q e k same,
        writes_nothing fl querier now accepts other fr everyone os ms o m c f (str_eq-sym _ _ n) q p
            k e (sym same),
      )
