-- ===== src/Tests/Repository/Cache.antt =====
-- The unit tests of src/allowance.rs about the cache.
use signet_filler.Prelude.{ℕ, ◌≡◌, refl, Bool, true, false, ◌&&◌, Option, none, some, [], ◌∷◌, ◌==◌}
use signet_filler.Prelude.HashMap.{get, insert, extend}
use signet_filler.Tokens.{ChainTokenPair, pair_eq, new_pair}
use signet_filler.Allowance.{new_cache, get_cached, update}

-- The addresses are `Address::repeat_byte(0xAA)` and `Address::repeat_byte(0xBB)`.
abbrev key_a : ChainTokenPair
key_a = new_pair 1 974_334_424_887_268_612_135_789_888_477_522_013_103_955_028_650

abbrev key_b : ChainTokenPair
key_b = new_pair 1 1_071_767_867_375_995_473_349_368_877_325_274_214_414_350_531_515

abbrev holds : Option ℕ → ℕ → Bool
holds none n = false
holds (some m) n = m == n

abbrev is_none : Option ℕ → Bool
is_none none = true
is_none (some n) = false

abbrev get_on_empty_cache_returns_none : Bool
get_on_empty_cache_returns_none = is_none (get_cached new_cache key_a)

abbrev update_then_get_returns_value : Bool
update_then_get_returns_value = holds (get_cached (update new_cache ((key_a, 42) ∷ [])) key_a) 42

abbrev update_preserves_existing_entries : Bool
update_preserves_existing_entries =
    let cache = update (update new_cache ((key_a, 10) ∷ [])) ((key_b, 20) ∷ []) in
    holds (get_cached cache key_a) 10 && holds (get_cached cache key_b) 20

abbrev update_overwrites_existing_key : Bool
update_overwrites_existing_key =
    let cache = update (update new_cache ((key_a, 10) ∷ [])) ((key_a, 99) ∷ []) in
    holds (get_cached cache key_a) 99

cache_tests_pass :
    (get_on_empty_cache_returns_none ≡ true)
    × (update_then_get_returns_value ≡ true)
    × (update_preserves_existing_entries ≡ true)
    × (update_overwrites_existing_key ≡ true)
unfolding get_cached update get insert extend
cache_tests_pass = (refl, refl, refl, refl)
