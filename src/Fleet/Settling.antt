-- ===== src/Fleet/Settling.antt =====
-- internal/controller/fleetrollout_controller.go, waveStatus: when a wave has settled.
use stageset_controller.Prelude.{
  ℕ, suc, ◌+◌, ◌≤◌, String, ◌≡◌, refl, inl, inr, Bool, ◌&&◌, List, [], ◌∷◌, arith, ◌==◌,
  if◌then◌else◌, Bool-cases, length, all, max_int32, pos,
}
use stageset_controller.Fleet.{
  FleetRolloutSpec, Member, member_progress, count_if, wave_status, to_int32, eq_ℤ,
}

abbrev count : (Member → Bool) → List Member → ℕ
count p [] = 0
count p (m ∷ ms) = if p m then suc (count p ms) else count p ms

count-bounded : (p : Member → Bool) (ms : List Member) → count p ms ≤ length ms
count-bounded p [] = omega arith
count-bounded p (m ∷ ms) = ground (arith, count-bounded p ms)

count-all : (p : Member → Bool) (ms : List Member) → (count p ms == length ms) ≡ all p ms
count-all p [] = refl
count-all p (m ∷ ms) = ground (arith, count-all p ms, count-bounded p ms)

count_if-count :
    (p : Member → Bool) (ms : List Member) (n : ℕ)
    → n + length ms ≤ max_int32
    → count_if p ms (pos n) ≡ pos (n + count p ms)
unfolding count_if
count_if-count p [] n h = ground arith
count_if-count p (m ∷ ms) n h = elim (Bool-cases (p m)) [
  | inl e ↦ ground (arith, count_if-count p ms (n + 1))
  | inr e ↦ ground (arith, count_if-count p ms n)
]

count_if-zero :
    (p : Member → Bool) (ms : List Member)
    → length ms ≤ max_int32
    → count_if p ms (pos 0) ≡ pos (count p ms)
count_if-zero p ms h = ground (arith, count_if-count p ms 0)

to_int32-pos : (n : ℕ) → n ≤ max_int32 → to_int32 n ≡ pos n
to_int32-pos n h = ground arith

all-and :
    (p q : Member → Bool) (ms : List Member)
    → (eq_ℤ (pos (count p ms)) (pos (length ms)) && eq_ℤ (pos (count q ms)) (pos (length ms)))
      ≡ all (λ m. p m && q m) ms
all-and p q [] = refl
all-and p q (m ∷ ms) = ground (arith, all-and p q ms, count-bounded p ms, count-bounded q ms)

module _ {L : Type 0} (spec : FleetRolloutSpec L) where
  abbrev pub is_done : Member → Bool
  is_done m = (member_progress spec m).0 && (member_progress spec m).1

  -- A wave of fewer than 2^31 members has settled exactly when each of its members has adopted the
  -- version it is to have and is ready: so an empty wave has settled.
  pub wave_settles :
      (name : String) (ms : List Member)
      → length ms ≤ max_int32
      → (wave_status spec name ms).settled ≡ all is_done ms
  unfolding wave_status
  wave_settles name ms h =
      let adopted = λ (m : Member). (member_progress spec m).0 in
      let ready = λ (m : Member). (member_progress spec m).1 in
      rw (count_if-zero adopted ms h, count_if-zero ready ms h, to_int32-pos (length ms) h)
        (all-and adopted ready ms)
