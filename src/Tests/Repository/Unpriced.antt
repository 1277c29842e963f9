-- ===== src/Tests/Repository/Unpriced.antt =====
-- The unit tests of src/fixed_pricing_client.rs about its errors, and about tokens of different prices.
use signet_filler.Prelude.{ℕ, ◌≡◌, refl, Bool, true, false, [], ◌∷◌, ◌==◌}
use signet_filler.Prelude.Eq.{nat_eq}
use signet_filler.Prelude.HashMap.{get, insert, extend}
use signet_filler.Prelude.Int.{pos}
use signet_filler.Prelude.Result.{err}
use signet_filler.Words.{
  checked_add, checked_mul, checked_pow, checked_sub, to_i128, checked_sub_i128,
}
use signet_filler.Tokens.{Address}
use signet_filler.Order.{TokenPermissions, Output}
use signet_filler.Pricing.{
  no_inputs, no_outputs, unknown_token, wrapped_token_address, new_client, profitability, try_fold,
  try_sum, check_loss,
}
use signet_filler.Tests.Repository.{new_order}
use signet_filler.Tests.Repository.Pricing.{
  parmigiana_client, Verdict, has_margin, is_overflow, eq_ℤ,
}
use signet_filler.Tests.Samples.{constants}

abbrev usdc : Address
usdc = constants.host_tokens.usdc

abbrev given : Address → ℕ → TokenPermissions
given token amount = record { token = token; amount = amount }

abbrev asked : Address → ℕ → Output
asked token amount = record { token = token; amount = amount; recipient = 0; chain_id = 0 }

abbrev is_no_inputs : Verdict → Bool
is_no_inputs (err no_inputs) = true
is_no_inputs _ = false

abbrev is_no_outputs : Verdict → Bool
is_no_outputs (err no_outputs) = true
is_no_outputs _ = false

abbrev is_unknown : Address → Verdict → Bool
is_unknown token (err (unknown_token address)) = address == token
is_unknown token _ = false

abbrev no_inputs_returns_error : Bool
no_inputs_returns_error =
    is_no_inputs (profitability (parmigiana_client 10) (new_order [] 0 (asked usdc 1_000_000 ∷ [])))

abbrev no_outputs_returns_error : Bool
no_outputs_returns_error =
    is_no_outputs
      (profitability (parmigiana_client 10) (new_order (given usdc 1_000_000 ∷ []) 0 []))

-- `Address::repeat_byte(0xFF)`
abbrev unknown : Address
unknown = 1_461_501_637_330_902_918_203_684_832_716_283_019_655_932_542_975

abbrev unknown_token_returns_error : Bool
unknown_token_returns_error =
    is_unknown unknown (
      profitability (parmigiana_client 10) (new_order (given unknown 1 ∷ []) 0 (asked usdc 1 ∷ [])))

-- `u128::MAX`
abbrev huge_amount : ℕ
huge_amount = 340_282_366_920_938_463_463_374_607_431_768_211_455

abbrev profitability_overflows_i128_on_huge_normalized_value : Bool
profitability_overflows_i128_on_huge_normalized_value = is_overflow (
    profitability (parmigiana_client 0)
      (new_order (given usdc huge_amount ∷ []) 0 (asked usdc huge_amount ∷ [])))

abbrev cross_token_normalization_equal_usd_value_is_acceptable : Bool
cross_token_normalization_equal_usd_value_is_acceptable = has_margin (eq_ℤ (pos 0)) (
    profitability (parmigiana_client 0) (
      new_order (given constants.host_tokens.weth 1_000_000_000_000_000_000 ∷ []) 0
        (asked usdc 3_000_000_000 ∷ [])))

error_tests_pass :
    (no_inputs_returns_error ≡ true)
    × (no_outputs_returns_error ≡ true)
    × (unknown_token_returns_error ≡ true)
    × (profitability_overflows_i128_on_huge_normalized_value ≡ true)
    × (cross_token_normalization_equal_usd_value_is_acceptable ≡ true)
unfolding profitability try_fold try_sum check_loss new_client wrapped_token_address get insert
    extend checked_add checked_mul checked_pow checked_sub to_i128 checked_sub_i128
error_tests_pass = (refl, refl, refl, refl, refl)
