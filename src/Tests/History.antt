-- ===== src/Tests/History.antt =====
-- The theorems on the history of the loop of src/filler_task/mod.rs at sample wake-ups.
use signet_filler.Prelude.{
  arith, ℕ, ◌+◌, ◌*◌, ◌/◌, ◌≤◌, ◌≡◌, ◌↔◌, refl, false, some, ◌∷◌, length, max,
}
use signet_filler.Prelude.Eq.{nat_eq, contains}
use signet_filler.Filler.{FillerState}
use signet_filler.Filler.Run.{Wake, staleness_threshold, tick, run_loop}
use signet_filler.Filler.Run.Ideal.{IdealCache}
use signet_filler.Filler.Run.History.{IdealHistory, run_loop_iff}
use signet_filler.Filler.Timing.{boundary}
use signet_filler.Filler.Timing.Window.{tick-in_time}
use signet_filler.Filler.Fetch.{as_secs, earliest_fill_timestamp}
use signet_filler.Filler.Submit.Trace.{submitted}
use signet_filler.Filler.Timing.Expiry.{ComparesDeadlines, AreValidAt, tick-AreValidAt}
use signet_filler.Tests.Samples.{crates, task, state}
use signet_filler.Tests.Process.{short, sent, cycle_runs, realistic, first_block, first_block_runs}
use signet_filler.Tests.Run.{laws, first, ticks, few, anchored}

-- The sample state with an ideal cache.
abbrev start : FillerState IdealCache
start = record { filled_orders = λ h. contains h state.filled_orders; metrics = state.metrics }

run_loop_iff_example :
    let r = run_loop crates task (first ∷ ticks) state in
    ((known : IdealCache) × IdealHistory crates task state (first ∷ ticks) r.0 known
      × ((h : ℕ) → crates.lru_contains r.1.filled_orders h ≡ known h))
    ↔ (r.0 ≡ r.0)
run_loop_iff_example =
    run_loop_iff crates length 100 task (first ∷ ticks) state
      (run_loop crates task (first ∷ ticks) state).0 laws few
      (realistic, (realistic, (realistic, tt)))

abbrev prompt : Wake
prompt = record { is_cancelled = false; staleness = 1000; uptime = 60_000_000_000; cycle = short }

prompt-sends : (tick crates task prompt state).0 ≡ some sent
unfolding tick staleness_threshold
prompt-sends = cycle_runs

tick-in_time_example :
    1_598_000_001_000 + task.block_lead_duration
    ≤ boundary task 50 * 1_000_000_000 + max 100_000_000 (task.block_lead_duration / 4)
tick-in_time_example =
    tick-in_time crates task prompt state sent 1_600_000_000_000 1_050_000_000_000 448_000_000_000
      50 1_598_000_001_000 anchored refl prompt-sends (λ e. cc)

-- At 1600 seconds on the system clock, as above: the first tick is at 998 seconds.
abbrev at_first_block : Wake
at_first_block = record {
  is_cancelled = false;
  staleness = 0;
  uptime = 60_000_000_000;
  cycle = first_block;
}

first_block-sends : (tick crates task at_first_block state).0 ≡ some sent
unfolding tick staleness_threshold
first_block-sends = first_block_runs

compares : ComparesDeadlines crates
compares t o e = ground arith

tick-AreValidAt_example : AreValidAt 1000 5 (submitted sent)
tick-AreValidAt_example =
    tick-AreValidAt crates task at_first_block state sent 1_600_000_000_000 1_050_000_000_000
      448_000_000_000 0 448_000_000_000 998_000_000_000 compares anchored (omega arith) refl refl
      first_block-sends

-- With a lead duration of 2.5 seconds, at 2.5 seconds before the block of 1000 seconds, the earliest
-- deadline is six seconds before it.
earliest_six :
    earliest_fill_timestamp
      (record task { block_lead_duration = 2_500_000_000 })
      (as_secs 997_500_000_000)
    ≡ 994
unfolding earliest_fill_timestamp
earliest_six = refl
