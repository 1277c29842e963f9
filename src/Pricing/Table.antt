-- ===== src/Pricing/Table.antt =====
-- The price table that `FixedPricingClient::new` of src/fixed_pricing_client.rs builds.
use Prim.Native.String.{String}
use signet_filler.Prelude.{ℕ, ◌≡◌, ◌≢◌, ap, true, Option, none, some, [], arith, map}
use signet_filler.Prelude.Eq.{nat_eq, contains}
use signet_filler.Prelude.HashMap.{
  HashMap, get, extend, get-insert, insert-holds, extend-holds, extend-adds,
}
use signet_filler.Tokens.{Address, SystemConstants, KnownToken, host_eth, resolve}
use signet_filler.Pricing.{
  TokenInfo, info, fixed_prices, insert_wrapped, wrapped_token_address, new_client,
}
use signet_filler.Pricing.Value.{IsRepresentable, IsPriced}

fixed_prices-IsPriced : (c : SystemConstants) → IsPriced (extend [] (fixed_prices c))
unfolding get
fixed_prices-IsPriced c =
    extend-holds IsRepresentable [] (fixed_prices c) (λ j w q. cc) (omega arith)

insert_wrapped-IsPriced :
    (wrapped : Option Address) (m : HashMap Address TokenInfo)
    → IsPriced m
    → IsPriced (insert_wrapped wrapped m)
insert_wrapped-IsPriced none m h = h
insert_wrapped-IsPriced (some a) m h = insert-holds IsRepresentable a (info 18 1) m (omega arith) h

-- Whatever the chain constants, in the table that the constructor builds every multiplier fits.
pub new_client-IsPriced :
    (c : SystemConstants) (chain_name : String) (loss : ℕ)
    → IsPriced (new_client c chain_name loss).token_info
unfolding new_client
new_client-IsPriced c chain_name loss =
    insert_wrapped-IsPriced (wrapped_token_address c chain_name) _ (fixed_prices-IsPriced c)

insert_wrapped-keeps :
    (j : Address) (wrapped : Option Address) (m : HashMap Address TokenInfo)
    → get j m ≢ none
    → get j (insert_wrapped wrapped m) ≢ none
insert_wrapped-keeps j none m h = h
insert_wrapped-keeps j (some a) m h = ground (arith, get-insert a j (info 18 1) m)

is_listed :
    (c : SystemConstants) (known : KnownToken)
    → contains (resolve c known).token (map (λ e. e.0) (fixed_prices c)) ≡ true
unfolding resolve
is_listed c host_eth = ground arith
is_listed c known = ground arith

-- Every known token, on either chain, has a price.
pub known_token-priced :
    (c : SystemConstants) (chain_name : String) (loss : ℕ) (known : KnownToken)
    → get (resolve c known).token (new_client c chain_name loss).token_info ≢ none
unfolding new_client
known_token-priced c chain_name loss known =
    insert_wrapped-keeps (resolve c known).token (wrapped_token_address c chain_name) _
      (extend-adds (resolve c known).token [] (fixed_prices c) (is_listed c known))

-- The entry of the native token, if no later entry of the array has its address.
pub native_entry :
    (c : SystemConstants) (chain_name : String) (loss : ℕ)
    → c.native_token_address ≢ c.rollup_tokens.weth
    → c.native_token_address ≢ c.rollup_tokens.wbtc
    → get c.native_token_address (new_client c chain_name loss).token_info ≡ some (info 18 1)
unfolding new_client extend
native_entry c chain_name loss p q = go (wrapped_token_address c chain_name)
  where
    go :
        (w : Option Address)
        → get c.native_token_address (insert_wrapped w (extend [] (fixed_prices c)))
          ≡ some (info 18 1)
    go none = simp get-insert (ground arith)
    go (some a) = simp get-insert (ground arith)

-- The entry of WETH on the host chain, if no entry of another price after it has its address.
pub host_weth_entry :
    (c : SystemConstants) (chain_name : String) (loss : ℕ)
    → c.host_tokens.weth ≢ c.host_tokens.wbtc
    → c.host_tokens.weth ≢ c.native_token_address
    → c.host_tokens.weth ≢ c.rollup_tokens.wbtc
    → wrapped_token_address c chain_name ≢ some c.host_tokens.weth
    → get c.host_tokens.weth (new_client c chain_name loss).token_info ≡ some (info 18 3000)
unfolding new_client extend
host_weth_entry c chain_name loss p q r other = go (wrapped_token_address c chain_name) other
  where
    go :
        (w : Option Address)
        → w ≢ some c.host_tokens.weth
        → get c.host_tokens.weth (insert_wrapped w (extend [] (fixed_prices c)))
          ≡ some (info 18 3000)
    go none o = simp get-insert (ground arith)
    go (some a) o = simp get-insert (ground (arith, λ (e : a ≡ c.host_tokens.weth). o (ap some e)))
