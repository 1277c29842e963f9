-- ===== src/Tests/Run.antt =====
-- The theorems on the loops of the service and on whole cycles at sample inputs.
use Prim.Native.String.{String}
use signet_filler.Prelude.{
  ℕ, ◌+◌, ◌≤◌, ◌≡◌, refl, true, false, none, some, List, [], ◌∷◌, length, All, arith, if◌then◌else◌,
}
use signet_filler.Prelude.Eq.{nat_eq, contains}
use signet_filler.Prelude.Int.{ℤ, pos}
use signet_filler.Prelude.Result.{ok}
use signet_filler.Tokens.{pair_eq, resolve}
use signet_filler.Order.{SignedOrder}
use signet_filler.Metrics.{no_metrics}
use signet_filler.Config.{ConfigInner, ConfigCrates, check_numbers, from_env}
use signet_filler.Prelude.HashMap.{get, insert, extend}
use signet_filler.Preflight.{
  Balances, or_default, build, query_all, tokens_needed, tokens_of, query_balance, allowance_for,
  provider_for,
}
use signet_filler.Allowance.Used.{build-latest}
use signet_filler.Allowance.Wrapped.{wrapped_token-refused}
use signet_filler.Pricing.{info, new_client, wrapped_token_address}
use signet_filler.Preflight.{can_fill}
use signet_filler.Preflight.Budget.{demanded}
use signet_filler.Allowance.{startup_refresh, refresh, query_and_cache, query, successes, update}
use signet_filler.Allowance.{Allowances, get_cached, new_cache, new_task, warm_up, Wake, run}
use signet_filler.Allowance.Latest.{answers, latest}
use signet_filler.Filler.{Cycle}
use signet_filler.Filler.Fetch.{as_secs}
use signet_filler.Filler.Submit.Trace.{submitted, outcomes}
use signet_filler.Filler.Process.{process_orders}
use signet_filler.Filler.Process.Accounting.{
  count_among, consumed_hashes, process_orders-accounting,
}
use signet_filler.Filler.Run.{Wake as Tick, staleness_threshold, tick, run_loop}
use signet_filler.Filler.Run.Cycles.{Every}
use signet_filler.Filler.Run.Memory.{LruLaws, total_orders, Never, consumed-Never}
use signet_filler.Filler.New.{new_filler, IsWithinLoss, run_loop-IsWithinLoss}
use signet_filler.Filler.Deadline.{deadline_offset}
use signet_filler.Filler.Timing.{submission_anchor_instant, boundary, tick-deadline}
use signet_filler.Tests.Samples.{constants, usdc_order, usdc, crates, task, state}
use signet_filler.Tests.Process.{short, fetched, fetched_with, sent, cycle_runs}
use signet_filler.Tests.Startup.{startup, config, seen, context, startup-runs}

-- The cache of the samples evicts nothing.
pub laws : LruLaws crates length 100
laws = record {
  contains_put = λ c h. ground arith;
  contains_keep = λ c h k room known. ground arith;
  contains_only = λ c h k known. grind arith;
  size_put = λ c h. omega arith;
}

-- The nonce of every order is consumed.
abbrev pub taken : Cycle
taken = record short { nonce_consumed = λ o. some true }

abbrev pub first : Tick
first = record { is_cancelled = false; staleness = 1000; uptime = 60_000_000_000; cycle = taken }

abbrev pub ticks : List Tick
ticks =
    record { is_cancelled = false; staleness = 1000; uptime = 60_000_000_000; cycle = short }
    ∷ first
    ∷ []

pub few : length state.filled_orders + total_orders (first ∷ ticks) ≤ 100
unfolding total_orders
few = omega arith

later-few : length state.filled_orders + total_orders ticks ≤ 100
unfolding total_orders
later-few = omega arith

soon : 1000 ≤ staleness_threshold task
unfolding staleness_threshold
soon = omega arith

consumed-Never_example :
    All
      (λ o.
        some true ≡ some true
        → All
            (Never crates (crates.order_hash o))
            (run_loop crates task ticks (tick crates task first state).1).0)
      (usdc_order 1 1_000_000 900_000 ∷ [])
consumed-Never_example =
    consumed-Never crates length 100 laws task first ticks state
      ((pos 100_000_000_000_000_000, usdc_order 1 1_000_000 900_000) ∷ []) soon
      (fetched_with (λ o. some true)) few

process_orders-accounting_example :
    let scored : List (ℤ × SignedOrder) =
      (pos 100_000_000_000_000_000, usdc_order 1 1_000_000 900_000) ∷ [] in
    (unsent : ℕ) × ((process_orders crates task short
          state).1.metrics.skipped_insufficient_filler_balance
        + length (submitted sent)
        + unsent
        + count_among crates (consumed_hashes crates short scored) scored
      ≡ 0 + length scored)
    × (outcomes false sent ≡ 0 → unsent ≡ 0)
process_orders-accounting_example =
    process_orders-accounting crates task short state
      ((pos 100_000_000_000_000_000, usdc_order 1 1_000_000 900_000) ∷ []) sent fetched cycle_runs

-- The environment of the sample configuration: bundles of one order, and else the defaults.
abbrev env : ConfigInner ℕ
env = record {
  chain_name = none;
  host_rpc = none;
  ru_rpc = none;
  block_lead_duration_ms = none;
  max_loss_percent = none;
  healthcheck_port = none;
  target_blocks = none;
  max_orders_per_bundle = some 1;
  signer = 99;
}

abbrev config_crates : ConfigCrates String String
config_crates = record {
  parse_constants = λ chain. some constants;
  parse_connection = λ text. some text;
  to_pubsub = λ text. some text;
}

loads : from_env config_crates (some env) ≡ ok config
unfolding from_env check_numbers
loads = refl

run_loop-IsWithinLoss_example :
    let asker = new_filler startup.address context in
    All (Every (IsWithinLoss 10 asker.pricing_client)) (run_loop crates asker ticks state).0
run_loop-IsWithinLoss_example =
    run_loop-IsWithinLoss config_crates (some env) config startup "https://cache" seen context
      no_metrics loads startup-runs crates ticks state

-- At 1600 seconds, 50 seconds after the origin of the instants plus 1000: the first tick is 602 seconds
-- before, and the fifty-first is 2 seconds before a boundary.
pub anchored :
    submission_anchor_instant task 1_600_000_000_000 1_050_000_000_000 ≡ some 448_000_000_000
unfolding submission_anchor_instant
anchored = refl

tick-deadline_example :
    boundary task (50 + task.target_blocks) ≤ as_secs 1_599_000_000_000 + deadline_offset task
tick-deadline_example =
    tick-deadline task 1_600_000_000_000 1_050_000_000_000 448_000_000_000 50 1_049_000_000_000
      1_599_000_000_000 anchored (omega arith) refl

-- The first answers, then errors, then the cancellation.
abbrev answering : Allowances
answering chain token owner = some 500

abbrev failing : Allowances
failing chain token owner = none

abbrev started : Wake
started = record { is_cancelled = false; allowances = answering }

abbrev wakes : List Wake
wakes =
    record { is_cancelled = false; allowances = failing }
    ∷ record { is_cancelled = true; allowances = answering }
    ∷ []

-- A budget of USDC on the host chain, with the allowance from the start.
abbrev spender : Balances
spender = record { get_balance = λ ch a. some 5; balance_of = λ ch t a. some 1_000_000 }

abbrev wanted : List (ℤ × SignedOrder)
wanted = (pos 0, usdc_order 1 5 5) ∷ []

budget-runs :
    let asker = new_task constants 99 in
    let (cache, m) = warm_up asker false answering new_cache no_metrics in
    get usdc (build constants spender 99 (get_cached (run asker wakes cache m).0) wanted).inner
    ≡ some (record { balance = 1_000_000; allowance = 500 })
unfolding new_task warm_up startup_refresh run refresh query_and_cache query successes update
    get_cached build query_all tokens_needed tokens_of query_balance allowance_for provider_for get
    insert extend resolve
budget-runs = refl

build-latest_example :
    let asker = new_task constants 99 in
    500
    ≡ or_default (
        if contains usdc asker.tokens
        then latest (answers asker usdc wakes) (latest (answers asker usdc (started ∷ [])) none)
        else none)
build-latest_example =
    build-latest constants 99 started wakes no_metrics spender wanted usdc
      (record { balance = 1_000_000; allowance = 500 }) (λ e. ground arith) budget-runs

-- An order of USDC for wrapped native tokens of the rollup.
abbrev for_wrapped : SignedOrder
for_wrapped = record (usdc_order 1 1_000_000 0) {
  outputs = record { token = 31; amount = 5; recipient = 77; chain_id = 2 } ∷ [];
}

wrapped_token-refused_example :
    let asker = new_task constants 99 in
    let (cache, m) = warm_up asker false answering new_cache no_metrics in
    let cached = get_cached (run asker wakes cache m).0 in
    (get 31 (new_client constants "parmigiana" 10).token_info ≡ some (info 18 1))
    × (can_fill (build constants spender 99 cached ((pos 0, for_wrapped) ∷ [])) for_wrapped ≡ false)
unfolding wrapped_token_address query_balance provider_for demanded
wrapped_token-refused_example =
    wrapped_token-refused constants "parmigiana" 10 31 99 started wakes no_metrics spender
      ((pos 0, for_wrapped) ∷ []) for_wrapped 1_000_000 refl (λ e. ground arith) (λ e. ground arith)
      (λ e. ground arith) (λ e. ground arith) refl refl (omega arith)
