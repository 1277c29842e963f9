-- ===== src/Lib.antt =====
-- Verification of the signet-filler service: a process that, shortly before each block, fetches
-- pending orders, prices them, checks them against the filler's own funds, and submits the ones it can
-- fill in bundles.
--
-- The parts of the program and the modules that model them (paths from the repository's root):
--
-- - src/fixed_pricing_client.rs: Pricing. `new_client` is `FixedPricingClient::new`, `profitability`
--   the check with its parts `try_sum`, `try_fold` (of the iterator) and `check_loss`. Pricing/Value
--   has the exact value of amounts in unbounded arithmetic, Pricing/Accept the verdicts of the check,
--   Pricing/Table the table of prices, Pricing/Chains what a lookup by address alone means.
-- - src/filler_task/preflight.rs and src/erc20.rs: Preflight. `build`, `can_fill` and `accept_order` are
--   the methods of `WorkingMap`; `query_balance` is the function of erc20.rs. The proofs are in
--   Preflight/Budget, Preflight/Totals, Preflight/Build and Preflight/Missing.
-- - src/filler_task/mod.rs: Filler and its children. Filler/Fetch is `fetch_and_score_orders`,
--   Filler/Select is `check_filled` and `select_fillable_orders`, Filler/Submit is `submit_bundles`
--   and `submit_one_bundle`, Filler/Chunks is `chunk_orders`, Filler/Process is `process_orders`,
--   Filler/Run is `run_loop`, Filler/New is `FillerTask::new` with its deadline offset in
--   Filler/Deadline, and Filler/Timing is `submission_anchor_instant`. Filler/Process/Safety and
--   Filler/Process/Accounting are about a whole cycle, Filler/Process/Outcome is its specification,
--   which uses the greedy choice of Filler/Select/Choice and the calls of Filler/Submit/Trace,
--   Filler/Process/Determined and Filler/Fetch/Ranking are about how far it determines the outcome,
--   Filler/Process/Complete is about when a cycle submits all it can. Filler/Select/Concurrent has
--   the answers to the concurrent requests arrive in any order; Filler/Select/Effects and
--   Filler/Select/Gathered are about what each answer adds, Filler/Select/Extent about what the
--   selection loop reads, Filler/Select/AnyOrder about the outcome. Filler/Run/Memory,
--   Filler/Run/Cycles, Filler/Run/Ideal and Filler/Run/Bounded about the cycles of the loop;
--   Filler/Run/History is the specification of the loop, Filler/Timing/Window is about the time at
--   which a cycle begins, and Filler/Timing/Expiry about the deadlines of the orders of a cycle.
-- - src/allowance.rs: Allowance, the cache and the refresh task with its loop; Allowance/Refresh is about
--   one refresh, Allowance/Latest about the loop, Allowance/Used about the budgets made from the cache,
--   Allowance/Wrapped about a token that the task does not ask about.
--   Report has the summary that src/allowance.rs and src/initialization.rs log at startup.
-- - src/initialization.rs: Startup and its children. Startup/Retry has the connections, Startup/Funds
--   `log_startup_balances`, Startup/Context `FillerContext::initialize`; the proofs are in
--   Startup/Settles, Startup/Funds, Startup/Ready and Startup/Starts.
-- - src/service.rs, `FillerTask::run` of src/filler_task/mod.rs, `handle_signals` of src/lib.rs and
--   bin/filler.rs: Service. Service/System has the tasks as a step relation, Service/Shutdown is about
--   the token, Service/Stopping has the steps that the code takes by itself, the graceful shutdown of
--   the server among them, Service/Main `main`, Service/Exit what it returns in the end.
-- - src/config.rs: Config, `Config::from_env` and `config_from_env`; Config/Help is `env_var_info`, with
--   the text that `print_help` of bin/filler.rs puts around it.
-- - src/chain_token_pair.rs: Tokens, and Tokens/Names for the names. src/metrics.rs: Metrics,
--   each counter a number and each histogram the list of its values; Metrics/Labels is about the
--   labels, Metrics/Describe has the names and the descriptions.
-- - Order has the fields of a signed order that the program reads, Words the checked and saturating
--   operations of the machine integers, Prelude the shared types and lemmas. Tests applies the theorems
--   to sample inputs, and Tests/Repository runs the unit tests of src/fixed_pricing_client.rs,
--   src/filler_task/preflight.rs, src/filler_task/mod.rs and src/allowance.rs on the model.
--
-- How they interact: a cycle (`process_orders`) fetches the stream of orders, drops expired ones and
-- those whose hash is in the cache of filled orders, asks the pricing client for a margin, and sorts by
-- it. It then builds the budgets of the cycle from fresh balances and the allowance cache, asks for
-- each candidate whether its nonce is consumed, takes candidates in order while the budgets cover them,
-- and submits the taken orders in chunks until one submission fails.
--
-- How the model stands to the code: state is passed explicitly (`FillerState`, `Metrics`,
-- `AllowanceCache`). What the outside answers in a cycle is an argument (`Cycle`, `Balances`,
-- `Allowances`): the clock, the order stream, the nonce bitmap, balances, allowances, and the result
-- of each submission. `Wake` is what the loop finds when it wakes up. Functions of other crates are
-- fields of `Crates` and `ConfigCrates`: the order hash, the expiry predicate, the LRU cache, the
-- chain constants and the parser of connection strings. A `HashMap` is an association list with one
-- entry for a key; no result depends on its order. `U256`, `u8`, `u64` and `i128` are numbers whose
-- checked and saturating operations have their bounds written out. Counters of orders are not cut
-- off at 2^64. The queries and nonce checks that the code runs concurrently are run in the order of
-- the candidates; Filler/Select/Concurrent has their answers arrive in any order, each with its entry
-- in the budgets or in the set of filled hashes. The `expect`s
-- on the system clock and the locks are taken to succeed. The loop of `chunk_orders` runs on fuel,
-- the number of orders, and each round removes at least one order, since a limit is positive.
--
-- The service starts with `main`: the configuration, the signals, the context (`initialize`), then the
-- filler task, the allowance task and the healthcheck server side by side. The three share a
-- cancellation token; each supervisor joins its task, looks at the token, and cancels it if it was not
-- cancelled. These are three steps of the relation `Step`, so that other tasks can come between them.
-- `Step` has the steps of the outside as well: a signal, a filler task that panics or is aborted, and a
-- server that ends with any result at any time. `is_own` tells the steps that the code takes by itself:
-- the server ends by its graceful shutdown, only when the token is cancelled.
-- What the outside answers during the startup is `Outside`: the attempts of each connection are the
-- list of the outcomes so far, and a result `none` says that the startup still waits. The retries of
-- the crate `backon` are a parameter (`Retrier`), and what its documentation says of them is the
-- record `RetryLaws`; `LruLaws` is the same for the cache of the crate `lru`. An atomic step of the
-- allowance task is a whole refresh, since the cache is written under one lock.
--
-- Not modelled: logging, the exporter of metrics, the turning of durations
-- into floating-point seconds, the accessors of records, the HTTP server
-- behind the healthcheck, a panic of the allowance task (which runs in `main` itself), and
-- everything that other crates do apart from the documented behaviour named above.
pub mod Prelude
pub mod Words
pub mod Tokens
pub mod Order
pub mod Config
pub mod Pricing
pub mod Preflight
pub mod Metrics
pub mod Report
pub mod Startup
pub mod Service
pub mod Allowance
pub mod Filler
pub mod Tests
