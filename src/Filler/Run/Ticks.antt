-- ===== src/Filler/Run/Ticks.antt =====
-- How the loop of src/filler_task/mod.rs counts its ticks.
use signet_filler.Prelude.{
  ℕ, ◌+◌, ◌≡◌, refl, ◌∙◌, Option, none, some, List, [], ◌∷◌, length, arith, Bool-cases, inl, inr,
  ltb, if◌then◌else◌,
}
use signet_filler.Prelude.Int.{ℤ}
use signet_filler.Prelude.Eq.{nat_eq}
use signet_filler.Order.{SignedOrder}
use signet_filler.Metrics
use signet_filler.Metrics.{
  Metrics, OrderSkippedReason, PreflightQuery, SubmissionResult, record_order_skipped,
  record_pricing_error, record_orders_fetched, record_fetch_order_error,
  record_preflight_query_error, record_nonce_check_error, record_cycle, record_missed_window,
  record_uptime, record_bundle, record_orders_in_bundle, record_orders_per_bundle,
  record_chunks_per_cycle,
}
use signet_filler.Preflight.{WorkingMap, tokens_needed}
use signet_filler.Filler.{Crates, FillerTask, FillerState, Cycle}
use signet_filler.Filler.Fetch.{fetch_and_score_orders}
use signet_filler.Filler.Select.{consider, select_loop, select_fillable_orders}
use signet_filler.Filler.Process.{after_fetch, process_orders}
use signet_filler.Filler.Process.Kept.{
  Keeps, record_failures-kept, check_all-kept, fetch-kept, submit-kept,
}
use signet_filler.Filler.Run.{Wake, staleness_threshold, with_uptime, tick, run_loop}

-- The ticks that the metrics know of.
abbrev pub ticks : Metrics → ℕ
ticks m = m.cycles + m.missed_windows

skipped-ticks : (r : OrderSkippedReason) (m : Metrics) → ticks (record_order_skipped r m) ≡ ticks m
unfolding record_order_skipped
skipped-ticks Metrics.already_filled m = refl
skipped-ticks Metrics.expired m = refl
skipped-ticks Metrics.exceeds_max_loss m = refl
skipped-ticks Metrics.unknown_token m = refl
skipped-ticks Metrics.insufficient_filler_balance m = refl

ticks-Keeps : Keeps ticks
unfolding record_pricing_error record_orders_fetched record_fetch_order_error
    record_preflight_query_error record_nonce_check_error record_bundle record_orders_in_bundle
    record_orders_per_bundle record_chunks_per_cycle
ticks-Keeps = record {
  skipped = λ r m ne. skipped-ticks r m;
  pricing = λ m. refl;
  fetched = λ n m. refl;
  fetch_error = λ m. refl;
  query_error = λ q m. ground arith;
  nonce_error = λ m. refl;
  bundle = λ r m. ground arith;
  in_bundle = λ n m. refl;
  per_bundle = λ n m. refl;
  chunks = λ n m. refl;
}

module _ {C : Type 0} (crates : Crates C) where
  consider-ticks :
      (filled : List ℕ) (o : SignedOrder) (w : WorkingMap) (m : Metrics)
      → ticks (consider crates filled o w m).2 ≡ ticks m
  unfolding consider record_order_skipped
  consider-ticks filled o w m = ground arith

  select_loop-ticks :
      (filled : List ℕ) (scored : List (ℤ × SignedOrder)) (w : WorkingMap) (m : Metrics)
      → ticks (select_loop crates filled scored w m).1 ≡ ticks m
  unfolding select_loop
  select_loop-ticks filled [] w m = refl
  select_loop-ticks filled ((x, o) ∷ rest) w m =
      let r = consider crates filled o w m in
      select_loop-ticks filled rest r.1 r.2 ∙ consider-ticks filled o w m

  select-ticks :
      (task : FillerTask) (cycle : Cycle) (scored : List (ℤ × SignedOrder)) (s : FillerState C)
      → ticks (select_fillable_orders crates task cycle scored s).1.metrics ≡ ticks s.metrics
  unfolding select_fillable_orders
  select-ticks task cycle scored s =
      select_loop-ticks _ scored _ _
      ∙ check_all-kept ticks ticks-Keeps crates cycle scored _
      ∙ record_failures-kept ticks ticks-Keeps task.constants cycle.balances task.filler_address
          (tokens_needed task.constants scored []) s.metrics

  after_fetch-ticks :
      (task : FillerTask) (cycle : Cycle) (scored : Option (List (ℤ × SignedOrder)))
      (s : FillerState C)
      → ticks (after_fetch crates task cycle scored s).1.metrics ≡ ticks s.metrics
  unfolding after_fetch
  after_fetch-ticks task cycle none s = refl
  after_fetch-ticks task cycle (some []) s = refl
  after_fetch-ticks task cycle (some (x ∷ xs)) s =
      submit-kept ticks ticks-Keeps crates task cycle _ _ ∙ select-ticks task cycle (x ∷ xs) s

  process_orders-ticks :
      (task : FillerTask) (cycle : Cycle) (s : FillerState C)
      → ticks (process_orders crates task cycle s).1.metrics ≡ ticks s.metrics + 1
  unfolding process_orders record_cycle
  process_orders-ticks task cycle s =
      let fetched = fetch_and_score_orders crates task cycle s in
      let after : FillerState C = record s { metrics = fetched.1 } in
      omega (
        arith,
        after_fetch-ticks task cycle fetched.0 after,
        fetch-kept ticks ticks-Keeps crates task cycle s,
      )

  tick-ticks :
      (task : FillerTask) (w : Wake) (s : FillerState C)
      → ticks (tick crates task w s).1.metrics ≡ ticks s.metrics + 1
  unfolding tick record_missed_window
  tick-ticks task w s = elim (Bool-cases (ltb (staleness_threshold task) w.staleness)) [
    | inl late ↦ rw late (omega arith)
    | inr timely ↦ rw timely (process_orders-ticks task w.cycle s)
  ]

-- The number of wake-ups before the first that finds the token cancelled.
unfoldable pub before_cancellation : List Wake → ℕ
before_cancellation [] = 0
before_cancellation (w ∷ ws) =
    let rest = before_cancellation ws in if w.is_cancelled then 0 else 1 + rest

-- The loop handles the wake-ups up to the first that finds the token cancelled, and counts each of
-- them once, as a cycle, whatever the cycle's outcome, or as a missed window.
pub run_loop-ticks :
    {C : Type 0} (crates : Crates C) (task : FillerTask) (ws : List Wake) (s : FillerState C)
    → let r = run_loop crates task ws s in
      (length r.0 ≡ before_cancellation ws)
      × (r.1.metrics.cycles + r.1.metrics.missed_windows
          ≡ s.metrics.cycles + s.metrics.missed_windows + before_cancellation ws)
unfolding run_loop before_cancellation record_uptime
run_loop-ticks crates task [] s = (refl, omega arith)
run_loop-ticks crates task (w ∷ ws) s =
    let now = with_uptime w s in
    let ih = run_loop-ticks crates task ws (tick crates task w now).1 in
    elim (Bool-cases w.is_cancelled) [
      | inl stop ↦ rw stop (refl, omega arith)
      | inr live ↦ rw live (omega (arith, ih.0), omega (arith, ih.1, tick-ticks crates task w now))
    ]
