-- ===== src/Tests/Pricing.antt =====
-- The pricing theorems at a sample client and order.
use signet_filler.Prelude.{◌*◌, ◌≡◌, ◌≢◌, refl, some, [], ◌∷◌, arith}
use signet_filler.Prelude.Eq.{nat_eq}
use signet_filler.Prelude.HashMap.{get, insert, extend}
use signet_filler.Prelude.Int.{pos}
use signet_filler.Prelude.Result.{ok, err}
use signet_filler.Words.{
  checked_add, checked_mul, checked_pow, checked_sub, to_i128, checked_sub_i128,
}
use signet_filler.Tokens.{host_eth, host_weth, resolve}
use signet_filler.Pricing.{
  wrapped_token_address, new_client, profitability, try_fold, try_sum, check_loss, unknown_token,
}
use signet_filler.Pricing.Value.{value}
use signet_filler.Pricing.Accept.{total_in, total_out}
use signet_filler.Pricing.Chains.{host_eth_value}
use signet_filler.Order.{SignedOrder}
use signet_filler.Tests.Samples.{constants, client, usdc_order}

-- An order of one USDC for 0.9 USDC.
abbrev sample : SignedOrder
sample = usdc_order 1 1_000_000 900_000

in_range : total_in client sample ≡ some 1_000_000_000_000_000_000
unfolding value new_client wrapped_token_address get insert extend
in_range = refl

out_range : total_out client sample ≡ some 900_000_000_000_000_000
unfolding value new_client wrapped_token_address get insert extend
out_range = refl

accepted : profitability client sample ≡ ok (some (pos 100_000_000_000_000_000))
unfolding profitability try_fold try_sum check_loss new_client wrapped_token_address get insert
    extend checked_add checked_mul checked_pow checked_sub to_i128 checked_sub_i128
accepted = refl

-- An order that gives a token without a price.
abbrev unpriced : SignedOrder
unpriced = record sample { permitted = record { token = 555; amount = 1 } ∷ [] }

refused : profitability client unpriced ≡ err (unknown_token 555)
unfolding profitability try_fold try_sum new_client wrapped_token_address get insert extend
refused = refl

mainnet_wrapped-other : wrapped_token_address constants "mainnet" ≢ some constants.host_tokens.weth
unfolding wrapped_token_address
mainnet_wrapped-other e = ground arith

host_eth_value_example :
    let table = (new_client constants "mainnet" 10).token_info in
    (value table (((resolve constants host_eth).token, 7) ∷ []) ≡ some 7)
    × (value table (((resolve constants host_weth).token, 7) ∷ []) ≡ some (3000 * 7))
host_eth_value_example =
    host_eth_value constants "mainnet" 10 7 (λ e. ground arith) (λ e. ground arith)
      (λ e. ground arith) (λ e. ground arith) (λ e. ground arith) mainnet_wrapped-other
