-- ===== src/Tokens/Tests.antt =====
-- internal/controller/token.go on two keys, with a Forget while the API server mints.
use stageset_controller.Prelude.{String, ◌≡◌, refl, Option, none, some, List, [], ◌∷◌, ◌++◌}
use stageset_controller.Tokens.{
  CachedToken, lookup_token, forget, store_minted, System, Section, enters, rechecks, captures,
  forgets, stores, time_passes, enter, recheck, capture, mint_fails, mint_succeeds, step,
  run_sections, fresh_system,
}
use stageset_controller.Tokens.Eviction.{forgotten_stays_evicted}

abbrev minted : CachedToken
minted = record { token = "jwt"; expires = 4000 }

program : Unit {0}
unfolding lookup_token forget store_minted enter recheck capture mint_fails mint_succeeds step
    run_sections
program = tt

abbrev mint : List Section
mint = enters "a" ∷ rechecks "a" ∷ captures "a" ∷ []

abbrev look : System → Option String
look s = lookup_token s.clock s.cache "a"

-- Without a Forget the token is cached, until the margin is reached.
cached :
    look (run_sections (mint ++ stores "a" minted ∷ time_passes 3000 ∷ []) (fresh_system 300))
    ≡ some "jwt"
unfolding program
cached = refl

expired :
    look (run_sections (mint ++ stores "a" minted ∷ time_passes 3700 ∷ []) (fresh_system 300))
    ≡ none
unfolding program
expired = refl

abbrev while_minting : System
while_minting =
    run_sections (stores "a" minted ∷ enters "b" ∷ [])
      (step (forgets "a") (run_sections mint (fresh_system 300)))

forgotten_stays_evicted_example : look while_minting ≡ none
forgotten_stays_evicted_example =
    forgotten_stays_evicted "a" 300 mint (stores "a" minted ∷ enters "b" ∷ []) refl
