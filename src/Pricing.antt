-- ===== src/Pricing.antt =====
-- src/fixed_pricing_client.rs: the fixed price table and the acceptable-loss check.
pub mod Value
pub mod Accept
pub mod Table
pub mod Chains
use Prim.Native.String.{String}
use text.Mathlib.Text.{◌==◌ as str_eq}
use signet_filler.Prelude.{ℕ, Option, none, some, List, [], ◌∷◌, map, ltb, if◌then◌else◌, is_empty}
use signet_filler.Prelude.Eq.{nat_eq}
use signet_filler.Prelude.Int.{ℤ}
use signet_filler.Prelude.HashMap.{HashMap, get, insert, extend}
use signet_filler.Prelude.Result.{Result, ok, err, ◌>>=◌, ok_or, and_then}
use signet_filler.Words.{
  checked_add, checked_mul, checked_pow, checked_sub, to_i128, checked_sub_i128,
}
use signet_filler.Tokens.{Address, SystemConstants}
use signet_filler.Order.{SignedOrder}

pub record TokenInfo : Type 0 where
  pub decimals : ℕ
  pub price_usd : ℕ

pub data FixedPricingError : Type 0 where
  no_inputs no_outputs overflow : FixedPricingError
  unknown_token : Address → FixedPricingError

pub record FixedPricingClient : Type 0 where
  pub max_loss_percent : ℕ
  pub token_info : HashMap Address TokenInfo

unfoldable pub wrapped_token_address : SystemConstants → String → Option Address
wrapped_token_address constants chain_name =
    if str_eq chain_name "parmigiana"
    then some constants.parmigiana_wrapped
    else if str_eq chain_name "mainnet"
    then some constants.mainnet_wrapped
    else none

abbrev pub info : ℕ → ℕ → TokenInfo
info d p = record { decimals = d; price_usd = p }

-- The array that `FixedPricingClient::new` collects: a later entry of an address wins.
abbrev pub fixed_prices : SystemConstants → List (Address × TokenInfo)
fixed_prices c =
    (c.host_tokens.usdc, info 6 1)
    ∷ (c.host_tokens.usdt, info 6 1)
    ∷ (c.host_tokens.weth, info 18 3000)
    ∷ (c.host_tokens.wbtc, info 8 60000)
    ∷ (c.native_token_address, info 18 1)
    ∷ (c.rollup_tokens.weth, info 18 3000)
    ∷ (c.rollup_tokens.wbtc, info 8 60000)
    ∷ []

abbrev insert_wrapped : Option Address → HashMap Address TokenInfo → HashMap Address TokenInfo
insert_wrapped none m = m
insert_wrapped (some wrapped) m = insert wrapped (info 18 1) m

unfoldable pub new_client : SystemConstants → String → ℕ → FixedPricingClient
unfolding wrapped_token_address
new_client constants chain_name loss = record {
  max_loss_percent = loss;
  token_info =
      insert_wrapped (wrapped_token_address constants chain_name)
        (extend [] (fixed_prices constants));
}

-- `running_total + amount * price_usd * 10^(18 - decimals)`
abbrev normalize : TokenInfo → ℕ → ℕ → Option ℕ
normalize token amount running_total = and_then (checked_sub 18 token.decimals) λ exponent.
    and_then (checked_pow 10 exponent) λ scale.
      and_then (checked_mul token.price_usd scale) λ multiplier.
        and_then (checked_mul amount multiplier)
          λ normalized_amount. checked_add running_total normalized_amount

-- The closure `try_sum`.
unfoldable pub try_sum : HashMap Address TokenInfo → ℕ → Address × ℕ → Result FixedPricingError ℕ
try_sum table running_total (address, amount) =
    ok_or (get address table) (unknown_token address) >>= λ token.
    ok_or (normalize token amount running_total) overflow

-- `iter().try_fold(running_total, try_sum)`
unfoldable pub try_fold :
    HashMap Address TokenInfo → ℕ → List (Address × ℕ) → Result FixedPricingError ℕ
unfolding try_sum
try_fold table running_total [] = ok running_total
try_fold table running_total (entry ∷ rest) =
    try_sum table running_total entry >>= λ total. try_fold table total rest

abbrev pub inputs : SignedOrder → List (Address × ℕ)
inputs order = map (λ p. (p.token, p.amount)) order.permitted

abbrev pub outputs : SignedOrder → List (Address × ℕ)
outputs order = map (λ o. (o.token, o.amount)) order.outputs

-- From `normalized_total_input` and `normalized_total_output` on.
unfoldable pub check_loss : ℕ → ℕ → ℕ → Result FixedPricingError (Option ℤ)
check_loss max_loss_percent total_input total_output = do
  lhs ← ok_or (checked_mul total_input 100) overflow
  rhs ←
      ok_or
        (and_then (checked_sub 100 max_loss_percent) λ percent. checked_mul total_output percent)
        overflow
  if ltb lhs rhs then ok none else do
    input_i128 ← ok_or (to_i128 total_input) overflow
    output_i128 ← ok_or (to_i128 total_output) overflow
    margin ← ok_or (checked_sub_i128 input_i128 output_i128) overflow
    ok (some margin)

unfoldable pub profitability :
    FixedPricingClient → SignedOrder → Result FixedPricingError (Option ℤ)
profitability client order =
    if is_empty order.permitted
    then err no_inputs
    else if is_empty order.outputs
    then err no_outputs
    else (do
      total_input ← try_fold client.token_info 0 (inputs order)
      total_output ← try_fold client.token_info 0 (outputs order)
      check_loss client.max_loss_percent total_input total_output)
