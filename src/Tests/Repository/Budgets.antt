-- ===== src/Tests/Repository/Budgets.antt =====
-- The unit tests of src/filler_task/preflight.rs about budgets and `can_fill`.
use signet_filler.Prelude.{ℕ, ◌≡◌, refl, Bool, true, not, ◌&&◌, List, [], ◌∷◌, map, ◌==◌}
use signet_filler.Prelude.HashMap.{get, insert, extend, modify, all}
use signet_filler.Words.{u256_max}
use signet_filler.Tokens.{Address, ChainTokenPair, pair_eq, new_pair}
use signet_filler.Order.{Output, SignedOrder}
use signet_filler.Preflight.{
  TokenBudget, WorkingMap, can_cover, decrement, can_fill, totals, add_output, covers,
}
use signet_filler.Tests.Repository.{new_order}

abbrev pub chain_a : ℕ
chain_a = 1

abbrev chain_b : ℕ
chain_b = 2

-- `Address::repeat_byte(0xAA)` and `Address::repeat_byte(0xBB)`
abbrev pub token_x : Address
token_x = 974_334_424_887_268_612_135_789_888_477_522_013_103_955_028_650

abbrev token_y : Address
token_y = 1_071_767_867_375_995_473_349_368_877_325_274_214_414_350_531_515

abbrev pub from_entries : List (ChainTokenPair × ℕ × ℕ) → WorkingMap
from_entries entries = record {
  inner = extend [] (map (λ e. (e.0, record { balance = e.1; allowance = e.2 })) entries);
}

abbrev pub order_with_outputs : List Output → SignedOrder
order_with_outputs outputs = new_order (record { token = token_x; amount = 1 } ∷ []) 0 outputs

abbrev pub output : ℕ → Address → ℕ → Output
output chain_id token amount = record {
  token = token;
  amount = amount;
  recipient = 0;
  chain_id = chain_id;
}

abbrev budget : ℕ → ℕ → TokenBudget
budget balance allowance = record { balance = balance; allowance = allowance }

abbrev can_cover_within_both_limits : Bool
can_cover_within_both_limits = can_cover (budget 100 100) 100 && can_cover (budget 100 100) 50

abbrev can_cover_exceeds_balance : Bool
can_cover_exceeds_balance = not (can_cover (budget 99 200) 100)

abbrev can_cover_exceeds_allowance : Bool
can_cover_exceeds_allowance = not (can_cover (budget 200 99) 100)

abbrev decrement_reduces_both : Bool
decrement_reduces_both =
    let after = decrement 30 (budget 100 80) in (after.balance == 70) && (after.allowance == 50)

abbrev decrement_skips_max_allowance : Bool
decrement_skips_max_allowance =
    let after = decrement 40 (budget 100 u256_max) in
    (after.balance == 60) && (after.allowance == u256_max)

abbrev pub pair_x : ChainTokenPair
pair_x = new_pair chain_a token_x

abbrev pair_y : ChainTokenPair
pair_y = new_pair chain_b token_y

abbrev can_fill_single_output_within_budget : Bool
can_fill_single_output_within_budget =
    can_fill (from_entries ((pair_x, 1000, 1000) ∷ []))
      (order_with_outputs (output chain_a token_x 500 ∷ []))

abbrev can_fill_max_allowance_only_checks_balance : Bool
can_fill_max_allowance_only_checks_balance =
    let w = from_entries ((pair_x, 500, u256_max) ∷ []) in
    can_fill w (order_with_outputs (output chain_a token_x 500 ∷ []))
    && not (can_fill w (order_with_outputs (output chain_a token_x 501 ∷ [])))

abbrev can_fill_single_output_exceeds_budget : Bool
can_fill_single_output_exceeds_budget = not (
    can_fill (from_entries ((pair_x, 100, 1000) ∷ []))
      (order_with_outputs (output chain_a token_x 200 ∷ [])))

abbrev can_fill_aggregates_same_token_outputs : Bool
can_fill_aggregates_same_token_outputs = not (
    can_fill (from_entries ((pair_x, 150, 150) ∷ []))
      (order_with_outputs (output chain_a token_x 80 ∷ output chain_a token_x 80 ∷ [])))

abbrev both_outputs : SignedOrder
both_outputs = order_with_outputs (output chain_a token_x 50 ∷ output chain_b token_y 150 ∷ [])

abbrev can_fill_multiple_tokens_both_covered : Bool
can_fill_multiple_tokens_both_covered =
    can_fill (from_entries ((pair_x, 100, 100) ∷ (pair_y, 200, 200) ∷ [])) both_outputs

abbrev can_fill_one_token_short_fails_whole_order : Bool
can_fill_one_token_short_fails_whole_order =
    not (can_fill (from_entries ((pair_x, 100, 100) ∷ (pair_y, 10, 200) ∷ [])) both_outputs)

abbrev can_fill_unknown_token_passes_through : Bool
can_fill_unknown_token_passes_through =
    can_fill (from_entries []) (order_with_outputs (output chain_a token_x 100 ∷ []))

abbrev can_fill_missing_budget_from_failed_query_is_intentionally_fail_open : Bool
can_fill_missing_budget_from_failed_query_is_intentionally_fail_open =
    can_fill (from_entries ((pair_x, 1000, 1000) ∷ []))
      (order_with_outputs (output chain_a token_x 500 ∷ output chain_b token_y 500 ∷ []))

budget_tests_pass :
    (can_cover_within_both_limits ≡ true)
    × (can_cover_exceeds_balance ≡ true)
    × (can_cover_exceeds_allowance ≡ true)
    × (decrement_reduces_both ≡ true)
    × (decrement_skips_max_allowance ≡ true)
unfolding can_cover decrement
budget_tests_pass = (refl, refl, refl, refl, refl)

can_fill_tests_pass :
    (can_fill_single_output_within_budget ≡ true)
    × (can_fill_max_allowance_only_checks_balance ≡ true)
    × (can_fill_single_output_exceeds_budget ≡ true)
    × (can_fill_aggregates_same_token_outputs ≡ true)
    × (can_fill_multiple_tokens_both_covered ≡ true)
    × (can_fill_one_token_short_fails_whole_order ≡ true)
    × (can_fill_unknown_token_passes_through ≡ true)
    × (can_fill_missing_budget_from_failed_query_is_intentionally_fail_open ≡ true)
unfolding can_fill totals add_output covers can_cover get insert extend modify all
can_fill_tests_pass = (refl, refl, refl, refl, refl, refl, refl, refl)
