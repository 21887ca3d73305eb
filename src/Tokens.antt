-- ===== src/Tokens.antt =====
-- internal/controller/token.go: the cache of minted ServiceAccount tokens, and the critical sections of the
-- callers that share it. A key is "namespace/serviceAccount", a map a function of its key, an epoch, an
-- int64 in the source, a natural number. What the API server mints is given with each event.
pub mod Eviction
mod Tests
use stageset_controller.Prelude.{
  ℕ, ◌+◌, String, str_eq, Option, none, some, List, [], ◌∷◌, leb, ◌==◌, if◌then◌else◌,
}

pub record CachedToken : Type 0 where
  pub token : String
  pub expires : ℕ

pub record TokenCache : Type 0 where
  pub refresh_margin : ℕ
  pub tokens : String → Option CachedToken
  pub epochs : String → ℕ

-- `m[k] = v`
abbrev pub put {ℓ} : {V : Type ℓ} → String → V → (String → V) → String → V
put k v m j = if str_eq j k then v else m j

-- lookup, at the instant `now`.
unfoldable pub lookup_token : ℕ → TokenCache → String → Option String
lookup_token now c key = elim (c.tokens key) [
  | none ↦ none
  | some t ↦ if leb t.expires (now + c.refresh_margin) then none else some t.token
]

unfoldable pub forget : String → TokenCache → TokenCache
forget key c = record c {
  tokens = put key none c.tokens;
  epochs = put key (c.epochs key + 1) c.epochs;
}

-- The section after a mint: the write is dropped where the epoch has moved.
unfoldable pub store_minted : String → ℕ → CachedToken → TokenCache → TokenCache
store_minted key epoch_at_mint minted c =
    if c.epochs key == epoch_at_mint
    then record c { tokens = put key (some minted) c.tokens }
    else c

-- Where the one call of a key that singleflight lets through is: before its second lookup, before it
-- reads the epoch, and while the API server mints.
pub data Flight : Type 0 where
  entered missed : Flight
  minting : ℕ → Flight

pub record System : Type 0 where
  pub cache : TokenCache
  pub flights : String → Option Flight
  pub clock : ℕ

-- A section of some goroutine, or the passing of time.
pub data Section : Type 0 where
  time_passes : ℕ → Section
  enters rechecks captures fails forgets : String → Section
  stores : String → CachedToken → Section

-- Token up to singleflight: a caller enters where its lookup misses and no call of the key is in flight.
unfoldable pub enter : String → System → System
unfolding lookup_token
enter key s = elim (s.flights key) [
  | some _ ↦ s
  | none ↦ elim (lookup_token s.clock s.cache key) [
    | some _ ↦ s
    | none ↦ record s { flights = put key (some entered) s.flights }
  ]
]

unfoldable pub recheck : String → System → System
unfolding lookup_token
recheck key s = elim (s.flights key) [
  | some entered ↦ elim (lookup_token s.clock s.cache key) [
    | some _ ↦ record s { flights = put key none s.flights }
    | none ↦ record s { flights = put key (some missed) s.flights }
  ]
  | _ ↦ s
]

unfoldable pub capture : String → System → System
capture key s = elim (s.flights key) [
  | some missed ↦ record s { flights = put key (some (minting (s.cache.epochs key))) s.flights }
  | _ ↦ s
]

unfoldable pub mint_fails : String → System → System
mint_fails key s = elim (s.flights key) [
  | some (minting _) ↦ record s { flights = put key none s.flights }
  | _ ↦ s
]

unfoldable pub mint_succeeds : String → CachedToken → System → System
unfolding store_minted
mint_succeeds key minted s = elim (s.flights key) [
  | some (minting e) ↦ record s {
    cache = store_minted key e minted s.cache;
    flights = put key none s.flights;
  }
  | _ ↦ s
]

-- A section whose turn has not come leaves the system as it is.
unfoldable pub step : Section → System → System
unfolding enter recheck capture mint_fails mint_succeeds forget
step (time_passes n) s = record s { clock = s.clock + n }
step (enters key) s = enter key s
step (rechecks key) s = recheck key s
step (captures key) s = capture key s
step (fails key) s = mint_fails key s
step (stores key minted) s = mint_succeeds key minted s
step (forgets key) s = record s { cache = forget key s.cache }

unfoldable pub run_sections : List Section → System → System
unfolding step
run_sections [] s = s
run_sections (e ∷ es) s = run_sections es (step e s)

-- newTokenCache, with nothing in flight.
abbrev pub fresh_system : ℕ → System
fresh_system margin = record {
  cache = record { refresh_margin = margin; tokens = λ k. none; epochs = λ k. 0 };
  flights = λ k. none;
  clock = 0;
}
