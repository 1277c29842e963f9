-- ===== src/Allowance/Wrapped.antt =====
-- The wrapped native token of the rollup: src/fixed_pricing_client.rs has a price for it, and the task of
-- src/allowance.rs does not ask for its allowance.
use Prim.Native.String.{String}
use signet_filler.Prelude.{ℕ, ◌<◌, ◌≡◌, ◌≢◌, refl, ◌∙◌, false, true, none, some, List, [], arith}
use signet_filler.Prelude.Eq.{nat_eq, contains}
use signet_filler.Prelude.Int.{ℤ}
use signet_filler.Prelude.HashMap.{get, get-insert, extend}
use signet_filler.Tokens.{Address, SystemConstants, pair_eq, new_pair, resolve}
use signet_filler.Order.{SignedOrder}
use signet_filler.Metrics.{Metrics}
use signet_filler.Pricing.{info, fixed_prices, wrapped_token_address, new_client}
use signet_filler.Preflight.{Balances, can_fill, build}
use signet_filler.Preflight.Budget.{demanded}
use signet_filler.Preflight.Build.{is_asked, balance_in}
use signet_filler.Preflight.Missing.{no_cached_allowance-refused}
use signet_filler.Allowance.{new_cache, get_cached, new_task, warm_up, Wake, run}
use signet_filler.Allowance.Latest.{run-latest}

-- A token of the rollup other than its WETH and WBTC is not one that the task asks about.
not_asked_about :
    (c : SystemConstants) (filler token : Address)
    → c.ru_chain_id ≢ c.host_chain_id
    → token ≢ c.rollup_tokens.weth
    → token ≢ c.rollup_tokens.wbtc
    → contains (new_pair c.ru_chain_id token) (new_task c filler).tokens ≡ false
unfolding new_task resolve
not_asked_about c filler token two p q = ground arith

wrapped_price :
    (c : SystemConstants) (chain_name : String) (loss : ℕ) (wrapped : Address)
    → wrapped_token_address c chain_name ≡ some wrapped
    → get wrapped (new_client c chain_name loss).token_info ≡ some (info 18 1)
unfolding new_client
wrapped_price c chain_name loss wrapped e =
    rw e (get-insert wrapped wrapped (info 18 1) (extend [] (fixed_prices c)) ∙ ground arith)

-- The wrapped native token of the rollup has a price in the check, 1 USD a token; but while the allowance
-- task runs, whatever the chains answer, every order that asks for some of it on the rollup is refused
-- if the filler's balance is known. The conditions are that the two chains differ, that the token is
-- not native and not the rollup's WETH or WBTC, and that some candidate asks for it.
pub wrapped_token-refused :
    (c : SystemConstants) (chain_name : String) (loss : ℕ) (wrapped filler : Address) (first : Wake)
    (ws : List Wake) (m : Metrics) (rpc : Balances) (candidates : List (ℤ × SignedOrder))
    (order : SignedOrder) (balance : ℕ)
    → wrapped_token_address c chain_name ≡ some wrapped
    → c.ru_chain_id ≢ c.host_chain_id
    → wrapped ≢ c.rollup_tokens.weth
    → wrapped ≢ c.rollup_tokens.wbtc
    → wrapped ≢ c.native_token_address
    → let task = new_task c filler in
      let (cache, m') = warm_up task first.is_cancelled first.allowances new_cache m in
      let cached = get_cached (run task ws cache m').0 in
      let key = new_pair c.ru_chain_id wrapped in
      is_asked c key candidates ≡ true
      → balance_in c rpc filler cached key ≡ some balance
      → 0 < demanded key order.outputs
      → (get wrapped (new_client c chain_name loss).token_info ≡ some (info 18 1))
        × (can_fill (build c rpc filler cached candidates) order ≡ false)
wrapped_token-refused c chain_name loss wrapped filler first ws m rpc candidates order balance e two
      p q r asked known wants =
    let task = new_task c filler in
    let (cache, m') = warm_up task first.is_cancelled first.allowances new_cache m in
    let cached = get_cached (run task ws cache m').0 in
    let key = new_pair c.ru_chain_id wrapped in
    let missing : cached key ≡ none =
      run-latest c filler first ws m key ∙ rw (not_asked_about c filler wrapped two p q) refl in
    (
      wrapped_price c chain_name loss wrapped e,
      no_cached_allowance-refused c rpc filler cached candidates order key balance asked r known
          missing wants,
    )
