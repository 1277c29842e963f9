-- ===== src/Tests/Process.antt =====
-- One cycle of src/filler_task/mod.rs at a sample input.
use signet_filler.Prelude.{
  Bool, Option, false, ℕ, ◌+◌, ◌≤◌, ◌⊎◌, length, ◌≡◌, refl, true, none, some, List, [], ◌∷◌, arith,
  All,
}
use signet_filler.Prelude.Eq.{nat_eq}
use signet_filler.Prelude.HashMap.{get, insert, extend, modify, all}
use signet_filler.Prelude.Int.{pos}
use signet_filler.Words.{
  checked_add, checked_mul, checked_pow, checked_sub, to_i128, checked_sub_i128,
}
use signet_filler.Tokens.{pair_eq}
use signet_filler.Order.{SignedOrder}
use signet_filler.Pricing.{
  wrapped_token_address, new_client, profitability, try_fold, try_sum, check_loss,
}
use signet_filler.Filler.{Cycle}
use signet_filler.Filler.Fetch.{
  earliest_fill_timestamp, fetch_and_score_orders, collect, visit, after_collect, score_orders,
  finish, sort_entries, insert_entry,
}
use signet_filler.Filler.Submit.{Submission, submit_bundles, submit_loop, submit_one_bundle}
use signet_filler.Filler.Submit.Trace.{submitted}
use signet_filler.Filler.Process.{after_fetch, submit_selected, process_orders}
use signet_filler.Filler.{FillerState}
use signet_filler.Filler.Chunks.{chunk_orders, split_loop}
use signet_filler.Filler.Select.{
  select_fillable_orders, check_all, check_filled, note_consumed, select_loop, consider,
}
use signet_filler.Preflight.{
  build, query_all, tokens_needed, tokens_of, query_balance, allowance_for, provider_for, can_fill,
  totals, add_output, covers, can_cover, accept_order, accept_outputs,
}
use signet_filler.Filler.Process.Realistic.{IsRealisticRpc}
use signet_filler.Filler.Process.Safety.{IsSafe, process_orders-IsSafe, process_orders-Within}
use signet_filler.Filler.Fetch.Accounting.{turned_away, fetch_accounting}
use signet_filler.Filler.Select.Choice.{demanded_all}
use signet_filler.Words.{u256_max}
use signet_filler.Filler.Run.{Wake, run_loop}
use signet_filler.Filler.Run.Ticks.{before_cancellation, run_loop-ticks}
use signet_filler.Tests.Samples.{usdc_order, usdc, crates, task, cycle, state}

-- Order 4 is in the cache of filled orders.
abbrev pub short : Cycle
short = record cycle {
  order_stream = some (usdc_order 4 1_000_000 900_000) ∷ some (usdc_order 1 1_000_000 900_000) ∷ [];
}

pub fetched_with :
    (answers : SignedOrder → Option Bool)
    → (fetch_and_score_orders crates task (record short { nonce_consumed = answers }) state).0
      ≡ some ((pos 100_000_000_000_000_000, usdc_order 1 1_000_000 900_000) ∷ [])
unfolding fetch_and_score_orders collect visit after_collect earliest_fill_timestamp score_orders
    finish sort_entries insert_entry profitability try_fold try_sum check_loss new_client
    wrapped_token_address get insert extend checked_add checked_mul checked_pow checked_sub to_i128
    checked_sub_i128
fetched_with answers = refl

pub fetched :
    (fetch_and_score_orders crates task short state).0
    ≡ some ((pos 100_000_000_000_000_000, usdc_order 1 1_000_000 900_000) ∷ [])
fetched = fetched_with short.nonce_consumed

abbrev pub sent : List Submission
sent = record { orders = usdc_order 1 1_000_000 900_000 ∷ []; succeeded = true } ∷ []

after_fetch_runs :
    (now : ℕ) (s : FillerState (List ℕ))
    → (after_fetch crates task
        (record short { now = now })
        (some ((pos 100_000_000_000_000_000, usdc_order 1 1_000_000 900_000) ∷ []))
        s).0
      ≡ some sent
unfolding after_fetch select_fillable_orders check_all check_filled note_consumed select_loop
    consider build query_all tokens_needed tokens_of query_balance allowance_for provider_for
    can_fill totals add_output covers can_cover accept_order accept_outputs submit_selected
    submit_bundles submit_loop submit_one_bundle chunk_orders split_loop get insert extend modify
    all
after_fetch_runs now s = refl

pub cycle_runs : (process_orders crates task short state).0 ≡ some sent
unfolding process_orders
cycle_runs =
    let m = (fetch_and_score_orders crates task short state).1 in
    rw fetched (after_fetch_runs short.now (record state { metrics = m }))

-- The same cycle two seconds before the first block.
abbrev pub first_block : Cycle
first_block = record short { now = 998 }

fetched_first :
    (fetch_and_score_orders crates task first_block state).0
    ≡ some ((pos 100_000_000_000_000_000, usdc_order 1 1_000_000 900_000) ∷ [])
unfolding fetch_and_score_orders collect visit after_collect earliest_fill_timestamp score_orders
    finish sort_entries insert_entry profitability try_fold try_sum check_loss new_client
    wrapped_token_address get insert extend checked_add checked_mul checked_pow checked_sub to_i128
    checked_sub_i128
fetched_first = refl

pub first_block_runs : (process_orders crates task first_block state).0 ≡ some sent
unfolding process_orders
first_block_runs =
    let m = (fetch_and_score_orders crates task first_block state).1 in
    rw fetched_first (after_fetch_runs 998 (record state { metrics = m }))

pub realistic : IsRealisticRpc short.balances short.cached
realistic = record {
  native_lt = λ ch a n e. ground arith;
  erc20_lt = λ ch t a n e. ground arith;
  cached_le = λ key n e. ground arith;
}

process_orders-IsSafe_example : All (IsSafe crates task short state.filled_orders) (submitted sent)
process_orders-IsSafe_example = process_orders-IsSafe crates task short state sent cycle_runs

process_orders-Within_example :
    (demanded_all usdc (submitted sent) ≤ 1_000_000)
    × ((demanded_all usdc (submitted sent) ≤ 1_000_000) ⊎ (1_000_000 ≡ u256_max))
unfolding query_balance allowance_for provider_for
process_orders-Within_example =
    process_orders-Within crates task short state sent cycle_runs realistic
      ((pos 100_000_000_000_000_000, usdc_order 1 1_000_000 900_000) ∷ []) usdc
      (record { balance = 1_000_000; allowance = 1_000_000 }) fetched refl refl

fetch_accounting_example :
    let r = fetch_and_score_orders crates task short state in
    (r.1.orders_fetched ≡ state.metrics.orders_fetched + length short.order_stream)
    × (turned_away r.1 + 1 ≡ turned_away state.metrics + length short.order_stream)
fetch_accounting_example =
    fetch_accounting crates task short state
      ((pos 100_000_000_000_000_000, usdc_order 1 1_000_000 900_000) ∷ []) fetched

-- The stream fails after its first order.
abbrev broken : Cycle
broken = record cycle { order_stream = some (usdc_order 4 1_000_000 900_000) ∷ none ∷ [] }

broken_fetch : (fetch_and_score_orders crates task broken state).0 ≡ none
unfolding fetch_and_score_orders collect visit after_collect earliest_fill_timestamp
broken_fetch = refl

-- A timely tick, a late one, a failing cycle, and the cancellation.
abbrev wakes : List Wake
wakes =
    record { is_cancelled = false; staleness = 1000; uptime = 60_000_000_000; cycle = short }
    ∷ record {
      is_cancelled = false;
      staleness = 900_000_000;
      uptime = 60_000_000_000;
      cycle = short;
    }
    ∷ record { is_cancelled = false; staleness = 1000; uptime = 60_000_000_000; cycle = broken }
    ∷ record { is_cancelled = true; staleness = 0; uptime = 60_000_000_000; cycle = short }
    ∷ []

run_loop-ticks_example :
    let r = run_loop crates task wakes state in
    (length r.0 ≡ 3) × (r.1.metrics.cycles + r.1.metrics.missed_windows ≡ 3)
unfolding before_cancellation
run_loop-ticks_example = run_loop-ticks crates task wakes state
