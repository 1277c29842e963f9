-- ===== src/Allowance.antt =====
-- src/allowance.rs: the cache of Permit2 allowances and the task that refreshes it.
pub mod Refresh
pub mod Latest
pub mod Used
pub mod Wrapped
use Prim.Native.String.{String}
use signet_filler.Words.{u256_max}
use signet_filler.Prelude.{
  ℕ, ◌+◌, Bool, true, ◌&&◌, Option, none, some, List, [], ◌∷◌, map, length, ltb, ◌==◌,
  if◌then◌else◌,
}
use signet_filler.Prelude.HashMap.{HashMap, get, extend}
use signet_filler.Tokens.{Address, SystemConstants, ChainTokenPair, pair_eq, erc20_tokens, resolve}
use signet_filler.Report.{no_counts, count_outcomes, Summary, summary}
use signet_filler.Preflight.{Chain, rollup, host}
use signet_filler.Metrics.{Metrics, allowance, record_preflight_query_error}

pub record AllowanceCache : Type 0 where
  pub inner : HashMap ChainTokenPair ℕ

abbrev pub new_cache : AllowanceCache
new_cache = record { inner = [] }

unfoldable pub get_cached : AllowanceCache → ChainTokenPair → Option ℕ
get_cached cache key = get key cache.inner

unfoldable pub update : AllowanceCache → HashMap ChainTokenPair ℕ → AllowanceCache
update cache new_entries = record { inner = extend cache.inner new_entries }

-- `none` is an RPC error.
pub record AllowanceQueryResult : Type 0 where
  pub chain_token : ChainTokenPair
  pub outcome : Option ℕ

pub record AllowanceRefreshTask : Type 0 where
  pub filler_address : Address
  pub tokens : List ChainTokenPair
  pub ru_chain_id : ℕ

-- The task that `initialize` makes, before the first refresh.
unfoldable pub new_task : SystemConstants → Address → AllowanceRefreshTask
new_task c filler = record {
  filler_address = filler;
  tokens = map (resolve c) erc20_tokens;
  ru_chain_id = c.ru_chain_id;
}

-- What the providers answer to `allowance(owner, PERMIT2)` on a token's contract.
abbrev pub Allowances : Type 0
Allowances = Chain → Address → Address → Option ℕ

unfoldable pub query : AllowanceRefreshTask → Allowances → ChainTokenPair → AllowanceQueryResult
query task rpc chain_token = record {
  chain_token = chain_token;
  outcome =
      rpc (if chain_token.chain_id == task.ru_chain_id then rollup else host) chain_token.token
        task.filler_address;
}

abbrev add_entry : ChainTokenPair → Option ℕ → List (ChainTokenPair × ℕ) → List (ChainTokenPair × ℕ)
add_entry key none entries = entries
add_entry key (some n) entries = (key, n) ∷ entries

-- The `filter_map` over the results.
unfoldable pub successes : List AllowanceQueryResult → List (ChainTokenPair × ℕ)
successes [] = []
successes (r ∷ rest) = add_entry r.chain_token r.outcome (successes rest)

unfoldable pub query_and_cache :
    AllowanceRefreshTask → Allowances → AllowanceCache → List AllowanceQueryResult × AllowanceCache
unfolding query successes update
query_and_cache task rpc cache =
    let results = map (query task rpc) task.tokens in
    (results, update cache (extend [] (successes results)))

abbrev count_error : Option ℕ → Metrics → Metrics
count_error none m = record_preflight_query_error allowance m
count_error (some n) m = m

unfoldable pub record_errors : List AllowanceQueryResult → Metrics → Metrics
unfolding record_preflight_query_error
record_errors [] m = m
record_errors (r ∷ rest) m = record_errors rest (count_error r.outcome m)

unfoldable pub refresh :
    AllowanceRefreshTask → Allowances → AllowanceCache → Metrics → AllowanceCache × Metrics
unfolding query_and_cache record_errors
refresh task rpc cache m =
    let (results, cache') = query_and_cache task rpc cache in (cache', record_errors results m)

unfoldable pub startup_refresh :
    AllowanceRefreshTask
    → Allowances
    → AllowanceCache
    → Metrics
    → AllowanceCache × Metrics × Summary
unfolding query_and_cache record_errors
startup_refresh task rpc cache m =
    let (results, cache') = query_and_cache task rpc cache in
    let n = count_outcomes (map (λ r. r.outcome) results) no_counts in
    (cache', record_errors results m, summary (length results) n)

-- The `select!` of `initialize`; whether it finds the token cancelled, which comes first, before the
-- refresh ends.
unfoldable pub warm_up :
    AllowanceRefreshTask → Bool → Allowances → AllowanceCache → Metrics → AllowanceCache × Metrics
unfolding startup_refresh
warm_up task is_cancelled rpc cache m =
    let (cache', m', warning) = startup_refresh task rpc cache m in
    if is_cancelled then (cache, m) else (cache', m')

-- `Display` of `DisplayAllowance`, by the decimal text of a number.
unfoldable pub display_allowance : (ℕ → String) → ℕ → String
display_allowance decimal amount =
    if amount == u256_max
    then "U256::MAX (treated as unlimited, doesn't auto decrement)"
    else decimal amount

-- What the loop finds when it wakes up: whether the token is cancelled, which comes first, and else
-- what the chains answer after the tick.
pub record Wake : Type 0 where
  pub is_cancelled : Bool
  pub allowances : Allowances

-- The loop of `run`, after the first tick.
unfoldable pub run :
    AllowanceRefreshTask → List Wake → AllowanceCache → Metrics → AllowanceCache × Metrics
unfolding refresh
run task [] cache m = (cache, m)
run task (w ∷ ws) cache m =
    let (cache', m') = refresh task w.allowances cache m in
    let later = run task ws cache' m' in if w.is_cancelled then (cache, m) else later
