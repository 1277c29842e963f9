-- ===== src/Tests/Repository/Pricing.antt =====
-- The unit tests of src/fixed_pricing_client.rs about the acceptable loss.
use signet_filler.Prelude.{ℕ, ◌≡◌, refl, Bool, true, false, ◌&&◌, Option, none, some, [], ◌∷◌, ◌==◌}
use signet_filler.Prelude.Eq.{nat_eq}
use signet_filler.Prelude.HashMap.{get, insert, extend}
use signet_filler.Prelude.Int.{ℤ, pos, negsuc, pos_part, neg_part, ltb_ℤ}
use signet_filler.Prelude.Result.{Result, ok, err}
use signet_filler.Words.{
  checked_add, checked_mul, checked_pow, checked_sub, to_i128, checked_sub_i128,
}
use signet_filler.Order.{SignedOrder}
use signet_filler.Pricing.{
  FixedPricingClient, FixedPricingError, overflow, wrapped_token_address, new_client, profitability,
  try_fold, try_sum, check_loss,
}
use signet_filler.Tests.Repository.{new_order}
use signet_filler.Tests.Samples.{constants}

abbrev pub parmigiana_client : ℕ → FixedPricingClient
parmigiana_client max_loss_percent = new_client constants "parmigiana" max_loss_percent

-- One input and one output of USDC.
abbrev usdc_order : ℕ → ℕ → SignedOrder
usdc_order input_amount output_amount =
    new_order (record { token = constants.host_tokens.usdc; amount = input_amount } ∷ []) 0 (
      record {
        token = constants.host_tokens.usdc;
        amount = output_amount;
        recipient = 0;
        chain_id = 0;
      }
      ∷ [])

abbrev pub Verdict : Type 0
Verdict = Result FixedPricingError (Option ℤ)

-- The margin is there and passes the test.
abbrev pub has_margin : (ℤ → Bool) → Verdict → Bool
has_margin test (ok (some margin)) = test margin
has_margin test (ok none) = false
has_margin test (err e) = false

abbrev is_refused : Verdict → Bool
is_refused (ok none) = true
is_refused (ok (some margin)) = false
is_refused (err e) = false

abbrev pub is_overflow : Verdict → Bool
is_overflow (err overflow) = true
is_overflow _ = false

abbrev pub eq_ℤ : ℤ → ℤ → Bool
eq_ℤ a b = (pos_part a == pos_part b) && (neg_part a == neg_part b)

abbrev zero_max_loss_equal_values_is_acceptable : Bool
zero_max_loss_equal_values_is_acceptable =
    has_margin (eq_ℤ (pos 0)) (profitability (parmigiana_client 0) (usdc_order 1_000_000 1_000_000))

abbrev zero_max_loss_input_less_than_output_is_not_acceptable : Bool
zero_max_loss_input_less_than_output_is_not_acceptable =
    is_refused (profitability (parmigiana_client 0) (usdc_order 999_999 1_000_000))

abbrev zero_max_loss_input_greater_than_output_is_acceptable : Bool
zero_max_loss_input_greater_than_output_is_acceptable =
    has_margin (ltb_ℤ (pos 0))
      (profitability (parmigiana_client 0) (usdc_order 1_000_001 1_000_000))

-- `negsuc n` is -(n + 1).
abbrev max_loss_100_always_acceptable : Bool
max_loss_100_always_acceptable =
    has_margin (eq_ℤ (negsuc 999_998_999_999_999_999))
      (profitability (parmigiana_client 100) (usdc_order 1 1_000_000))

abbrev max_loss_101_overflows : Bool
max_loss_101_overflows =
    is_overflow (profitability (parmigiana_client 101) (usdc_order 1_000_000 1_000_000))

abbrev standard_threshold_at_boundary_is_acceptable : Bool
standard_threshold_at_boundary_is_acceptable =
    has_margin (λ margin. ltb_ℤ margin (pos 0))
      (profitability (parmigiana_client 10) (usdc_order 900_000 1_000_000))

abbrev standard_threshold_just_below_boundary_is_not_acceptable : Bool
standard_threshold_just_below_boundary_is_not_acceptable =
    is_refused (profitability (parmigiana_client 10) (usdc_order 899_999 1_000_000))

abbrev standard_threshold_above_boundary_is_acceptable : Bool
standard_threshold_above_boundary_is_acceptable =
    has_margin (ltb_ℤ (pos 0))
      (profitability (parmigiana_client 10) (usdc_order 18_446_744_073_709_551_615 1_000_000))

loss_tests_pass :
    (zero_max_loss_equal_values_is_acceptable ≡ true)
    × (zero_max_loss_input_less_than_output_is_not_acceptable ≡ true)
    × (zero_max_loss_input_greater_than_output_is_acceptable ≡ true)
    × (max_loss_100_always_acceptable ≡ true)
    × (max_loss_101_overflows ≡ true)
    × (standard_threshold_at_boundary_is_acceptable ≡ true)
    × (standard_threshold_just_below_boundary_is_not_acceptable ≡ true)
    × (standard_threshold_above_boundary_is_acceptable ≡ true)
unfolding profitability try_fold try_sum check_loss new_client wrapped_token_address get insert
    extend checked_add checked_mul checked_pow checked_sub to_i128 checked_sub_i128
loss_tests_pass = (refl, refl, refl, refl, refl, refl, refl, refl)
