-- ===== src/Pricing/Chains.antt =====
-- `profitability` of src/fixed_pricing_client.rs looks tokens up by address alone: the chain of an
-- output has no part in its price.
use Prim.Native.String.{String}
use signet_filler.Prelude.{ℕ, ◌*◌, ◌≡◌, ◌≢◌, refl, some, List, [], ◌∷◌, map, is_empty, arith}
use signet_filler.Prelude.Eq.{nat_eq}
use signet_filler.Tokens.{Address, SystemConstants, resolve, host_eth, host_weth}
use signet_filler.Order.{Output, SignedOrder}
use signet_filler.Pricing.{FixedPricingClient, wrapped_token_address, new_client, profitability}
use signet_filler.Pricing.Value.{value}
use signet_filler.Pricing.Table.{native_entry, host_weth_entry}

abbrev moved : ℕ → List Output → List Output
moved c = map {A = Output} (λ o. record o { chain_id = c })

-- The order with every output asked for on the chain `c`.
abbrev pub on_chain : ℕ → SignedOrder → SignedOrder
on_chain c order = record order { outputs = moved c order.outputs }

outputs-moved :
    (c : ℕ) (os : List Output)
    → map (λ o. (o.token, o.amount)) (moved c os)
      ≡ map {B = Address × ℕ} (λ o. (o.token, o.amount)) os
outputs-moved c [] = refl
outputs-moved c (o ∷ os) = rw (outputs-moved c os)

is_empty-moved : (c : ℕ) (os : List Output) → is_empty (moved c os) ≡ is_empty os
is_empty-moved c [] = refl
is_empty-moved c (o ∷ os) = refl

-- Asking for the same tokens on another chain changes neither the score nor the error.
pub profitability-on_chain :
    (client : FixedPricingClient) (c : ℕ) (order : SignedOrder)
    → profitability client (on_chain c order) ≡ profitability client order
unfolding profitability
profitability-on_chain client c order =
    rw (outputs-moved c order.outputs, is_empty-moved c order.outputs)

-- Where the token addresses differ, an amount of ether on the host chain is worth 1 USD a token in
-- the check, and the same amount of wrapped ether on the host chain 3000 USD a token.
pub host_eth_value :
    (c : SystemConstants) (chain_name : String) (loss n : ℕ)
    → c.native_token_address ≢ c.rollup_tokens.weth
    → c.native_token_address ≢ c.rollup_tokens.wbtc
    → c.host_tokens.weth ≢ c.host_tokens.wbtc
    → c.host_tokens.weth ≢ c.native_token_address
    → c.host_tokens.weth ≢ c.rollup_tokens.wbtc
    → wrapped_token_address c chain_name ≢ some c.host_tokens.weth
    → let table = (new_client c chain_name loss).token_info in
      (value table (((resolve c host_eth).token, n) ∷ []) ≡ some n)
      × (value table (((resolve c host_weth).token, n) ∷ []) ≡ some (3000 * n))
unfolding value resolve
host_eth_value c chain_name loss n a b p q r other = (
  rw (native_entry c chain_name loss a b) (ground arith),
  rw (host_weth_entry c chain_name loss p q r other) (ground arith),
)
