-- ===== src/Startup/Funds.antt =====
-- `log_startup_balances` of src/initialization.rs.
use signet_filler.Prelude.{
  ℕ, ◌+◌, ◌≡◌, ◌≢◌, ap, ◌∙◌, Option, none, some, List, [], ◌∷◌, map, length, ◌==◌, if◌then◌else◌,
  arith,
}
use signet_filler.Tokens.{Address, SystemConstants, KnownToken, all_tokens, resolve}
use signet_filler.Report.{
  no_counts, count_outcomes, Summary, summary, failures, Reports, summary-Reports,
}
use signet_filler.Preflight.{rollup, host, Balances, query_balance}
use signet_filler.Metrics.{Metrics, balance, record_preflight_query_error}

-- The query for one token, with the provider chosen by its chain.
unfoldable pub startup_balance : SystemConstants → Balances → Address → KnownToken → Option ℕ
unfolding resolve query_balance
startup_balance c rpc filler known =
    let chain_token = resolve c known in
    query_balance c rpc (if chain_token.chain_id == c.ru_chain_id then rollup else host) filler
      chain_token.token

abbrev count_error : Option ℕ → Metrics → Metrics
count_error none m = record_preflight_query_error balance m
count_error (some n) m = m

unfoldable pub record_balance_errors : List (Option ℕ) → Metrics → Metrics
unfolding record_preflight_query_error
record_balance_errors [] m = m
record_balance_errors (r ∷ rest) m = record_balance_errors rest (count_error r m)

unfoldable pub log_startup_balances :
    SystemConstants → Balances → Address → Metrics → Metrics × Summary
unfolding startup_balance record_balance_errors
log_startup_balances c rpc filler m =
    let results = map (startup_balance c rpc filler) all_tokens in
    (record_balance_errors results m, summary (length results) (count_outcomes results no_counts))

-- What the two chains say of the filler's funds: its native balances, and what it holds of each token.
abbrev pub holdings : SystemConstants → Balances → Address → List (Option ℕ)
holdings c rpc filler =
    let hosted = λ (token : Address). rpc.balance_of host token filler in
    let rolled = λ (token : Address). rpc.balance_of rollup token filler in
    rpc.get_balance host filler
    ∷ hosted c.host_tokens.usdc
    ∷ hosted c.host_tokens.usdt
    ∷ hosted c.host_tokens.weth
    ∷ hosted c.host_tokens.wbtc
    ∷ rolled c.rollup_tokens.weth
    ∷ rolled c.rollup_tokens.wbtc
    ∷ rpc.get_balance rollup filler
    ∷ []

-- The two chains differ, and no token has the address that stands for the native one.
pub record IsDistinct (c : SystemConstants) : Type 0 where
  pub chains : c.host_chain_id ≢ c.ru_chain_id
  pub host_usdc : c.host_tokens.usdc ≢ c.native_token_address
  pub host_usdt : c.host_tokens.usdt ≢ c.native_token_address
  pub host_weth : c.host_tokens.weth ≢ c.native_token_address
  pub host_wbtc : c.host_tokens.wbtc ≢ c.native_token_address
  pub rollup_weth : c.rollup_tokens.weth ≢ c.native_token_address
  pub rollup_wbtc : c.rollup_tokens.wbtc ≢ c.native_token_address

record_balance_errors-counts :
    (rs : List (Option ℕ)) (m : Metrics)
    → (record_balance_errors rs m).preflight_balance_errors
      ≡ m.preflight_balance_errors + failures rs
unfolding record_balance_errors failures record_preflight_query_error
record_balance_errors-counts [] m = omega arith
record_balance_errors-counts (none ∷ rs) m =
    omega (arith, record_balance_errors-counts rs (record_preflight_query_error balance m))
record_balance_errors-counts (some n ∷ rs) m = omega (arith, record_balance_errors-counts rs m)

startup_balance-holdings :
    (c : SystemConstants) (rpc : Balances) (filler : Address)
    → IsDistinct c
    → map (startup_balance c rpc filler) all_tokens ≡ holdings c rpc filler
unfolding startup_balance resolve query_balance
startup_balance-holdings c rpc filler d =
    let chains = d.chains in let usdc = d.host_usdc in ground arith

-- If the two chains differ and no token has the native address, the startup report reads the filler's
-- balance of each known token from the token's own chain: it says that all queries failed, or that no
-- balance was found, exactly when that is so of these balances, and each failed query is counted once.
pub log_startup_balances-Reports :
    (c : SystemConstants) (rpc : Balances) (filler : Address) (m : Metrics)
    → IsDistinct c
    → let logged = log_startup_balances c rpc filler m in
      Reports (holdings c rpc filler) logged.1
      × (logged.0.preflight_balance_errors
          ≡ m.preflight_balance_errors + failures (holdings c rpc filler))
unfolding log_startup_balances
log_startup_balances-Reports c rpc filler m d =
    let same = startup_balance-holdings c rpc filler d in
    (
      rw same (summary-Reports (holdings c rpc filler) (omega arith)),
      ap (λ rs. (record_balance_errors rs m).preflight_balance_errors) same
          ∙ record_balance_errors-counts (holdings c rpc filler) m,
    )
