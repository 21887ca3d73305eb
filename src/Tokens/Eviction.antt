-- ===== src/Tokens/Eviction.antt =====
-- internal/controller/token.go: what Forget promises, over every interleaving of the sections.
use stageset_controller.Prelude.{
  ℕ, ◌≤◌, ◌<◌, String, str_eq, str_eq_iff, str_eq_refl, ◌≡◌, refl, Bool, false, Option, none, some,
  List, [], ◌∷◌, arith, any,
}
use stageset_controller.Tokens.{
  lookup_token, forget, store_minted, Flight, minting, System, Section, time_passes, enters,
  rechecks, captures, fails, forgets, stores, enter, recheck, capture, mint_fails, mint_succeeds,
  step, run_sections, fresh_system,
}

-- The epoch that a mint in flight has captured is not ahead of the key's, or behind it.
abbrev pub IsCaptured : Option Flight → ℕ → Type 0
IsCaptured (some (minting e)) n = e ≤ n
IsCaptured _ n = Unit

abbrev IsOutdated : Option Flight → ℕ → Type 0
IsOutdated (some (minting e)) n = e < n
IsOutdated _ n = Unit

abbrev Captured : String → System → Type 0
Captured key s = IsCaptured (s.flights key) (s.cache.epochs key)

-- Nothing is cached for the key, and no mint in flight may write.
record Evicted (key : String) (s : System) : Type 0 where
  uncached : s.cache.tokens key ≡ none
  outdated : IsOutdated (s.flights key) (s.cache.epochs key)

step-Captured : (key : String) (e : Section) (s : System) → Captured key s → Captured key (step e s)
unfolding step enter recheck capture mint_fails mint_succeeds forget store_minted
step-Captured key (time_passes n) s h = h
step-Captured key (enters k) s h = ground (arith, h, str_eq_iff key k)
step-Captured key (rechecks k) s h = ground (arith, h, str_eq_iff key k)
step-Captured key (captures k) s h = ground (arith, h, str_eq_iff key k)
step-Captured key (fails k) s h = ground (arith, h, str_eq_iff key k)
step-Captured key (stores k m) s h = ground (arith, h, str_eq_iff key k)
step-Captured key (forgets k) s h = ground (arith, h, str_eq_iff key k)

-- A call of the key begins to mint.
abbrev pub begins_mint : String → Section → Bool
begins_mint key (captures k) = str_eq k key
begins_mint key _ = false

step-Evicted :
    (key : String) (e : Section) (s : System)
    → begins_mint key e ≡ false
    → Evicted key s
    → Evicted key (step e s)
unfolding step enter recheck capture mint_fails mint_succeeds forget store_minted
step-Evicted key (time_passes n) s b h = record { uncached = h.uncached; outdated = h.outdated }
step-Evicted key (enters k) s b h = record {
  uncached = ground (arith, h.uncached, str_eq_iff key k);
  outdated = ground (arith, h.outdated, str_eq_iff key k);
}
step-Evicted key (rechecks k) s b h = record {
  uncached = ground (arith, h.uncached, str_eq_iff key k);
  outdated = ground (arith, h.outdated, str_eq_iff key k);
}
step-Evicted key (captures k) s b h = record {
  uncached = ground (arith, h.uncached, str_eq_iff key k, str_eq_iff k key, b);
  outdated = ground (arith, h.outdated, str_eq_iff key k, str_eq_iff k key, b);
}
step-Evicted key (fails k) s b h = record {
  uncached = ground (arith, h.uncached, str_eq_iff key k);
  outdated = ground (arith, h.outdated, str_eq_iff key k);
}
step-Evicted key (stores k m) s b h = record {
  uncached = ground (arith, h.uncached, h.outdated, str_eq_iff key k);
  outdated = ground (arith, h.outdated, str_eq_iff key k);
}
step-Evicted key (forgets k) s b h = record {
  uncached = ground (arith, h.uncached, str_eq_iff key k);
  outdated = ground (arith, h.outdated, str_eq_iff key k);
}

run_sections-Captured :
    (key : String) (es : List Section) (s : System)
    → Captured key s
    → Captured key (run_sections es s)
unfolding run_sections
run_sections-Captured key [] s h = h
run_sections-Captured key (e ∷ es) s h =
    run_sections-Captured key es (step e s) (step-Captured key e s h)

run_sections-Evicted :
    (key : String) (es : List Section) (s : System)
    → any (begins_mint key) es ≡ false
    → Evicted key s
    → Evicted key (run_sections es s)
unfolding run_sections
run_sections-Evicted key [] s b h = h
run_sections-Evicted key (e ∷ es) s b h =
    run_sections-Evicted key es (step e s) (ground (arith, b))
      (step-Evicted key e s (ground (arith, b)) h)

forget-Evicted : (key : String) (s : System) → Captured key s → Evicted key (step (forgets key) s)
unfolding step forget
forget-Evicted key s h = record {
  uncached = ground (arith, str_eq_refl key);
  outdated = ground (arith, h, str_eq_refl key);
}

-- After any interleaving, once the key of a token is forgotten, the cache gives out no token for it, over
-- every further interleaving in which no call of the key begins to mint: a mint that was in flight at
-- the Forget does not bring its token back.
pub forgotten_stays_evicted :
    (key : String) (margin : ℕ) (before after : List Section)
    → any (begins_mint key) after ≡ false
    → let s = run_sections after (step (forgets key) (run_sections before (fresh_system margin))) in
      lookup_token s.clock s.cache key ≡ none
unfolding lookup_token
forgotten_stays_evicted key margin before after b =
    let w = run_sections-Captured key before (fresh_system margin) tt in
    let e =
      run_sections-Evicted key after _ b
        (forget-Evicted key (run_sections before (fresh_system margin)) w) in
    rw (lookup_token, e.uncached) refl
