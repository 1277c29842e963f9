-- ===== src/Filler/Fetch.antt =====
-- `fetch_and_score_orders` of src/filler_task/mod.rs: fetch, filter, score and sort.
pub mod Sorting
pub mod Ranking
pub mod Accounting
pub mod Scores
use signet_filler.Prelude.{
  ℕ, ◌+◌, ◌-◌, ◌/◌, Bool, true, false, Option, none, some, List, [], ◌∷◌, is_empty, if◌then◌else◌,
  ◌^◌,
}
use signet_filler.Prelude.Int.{ℤ, ltb_ℤ}
use signet_filler.Prelude.Result.{Result, ok, err}
use signet_filler.Order.{SignedOrder}
use signet_filler.Pricing.{FixedPricingClient, FixedPricingError, unknown_token, profitability}
use signet_filler.Metrics
use signet_filler.Metrics.{
  Metrics, already_filled, expired, exceeds_max_loss, record_order_skipped, record_pricing_error,
  record_fetch_order_error, record_orders_fetched,
}
use signet_filler.Filler.{Crates, FillerTask, FillerState, Cycle}

-- `DEADLINE_DRIFT_BUFFER_SECS`
abbrev pub deadline_drift_buffer_secs : ℕ
deadline_drift_buffer_secs = 5

-- `Duration::as_secs` of a duration in nanoseconds.
abbrev pub as_secs : ℕ → ℕ
as_secs d = d / 1_000_000_000

unfoldable pub earliest_fill_timestamp : FillerTask → ℕ → ℕ
earliest_fill_timestamp task now =
    now + as_secs task.block_lead_duration - deadline_drift_buffer_secs

-- The counters of the stream and the metrics.
pub record Progress : Type 0 where
  pub orders_count : ℕ
  pub orders_after_expiry_filter : ℕ
  pub metrics : Metrics

abbrev keep_if : Bool → SignedOrder → Option (List SignedOrder) → Option (List SignedOrder)
keep_if kept order none = none
keep_if kept order (some orders) = some (if kept then order ∷ orders else orders)

module _ {C : Type 0} (crates : Crates C) where
  -- The two filters of the stream, on one order: whether it is kept.
  unfoldable pub visit : C → ℕ → SignedOrder → Progress → Bool × Progress
  unfolding record_order_skipped
  visit filled earliest order p =
      let seen = record p { orders_count = p.orders_count + 1 } in
      if crates.not_expired_at earliest order
      then (let timely = record seen {
        orders_after_expiry_filter = seen.orders_after_expiry_filter + 1;
      } in
          if crates.lru_contains filled (crates.order_hash order)
          then (
            false,
            record timely { metrics = record_order_skipped already_filled timely.metrics },
          )
          else (true, timely))
      else (false, record seen { metrics = record_order_skipped expired seen.metrics })

  -- The stream up to `try_collect`: the first error ends it and drops what was collected.
  unfoldable pub collect :
      C → ℕ → List (Option SignedOrder) → Progress → Option (List SignedOrder) × Progress
  unfolding visit
  collect filled earliest [] p = (some [], p)
  collect filled earliest (none ∷ rest) p = (none, p)
  collect filled earliest (some order ∷ rest) p =
      let (kept, p') = visit filled earliest order p in
      let (orders, p'') = collect filled earliest rest p' in (keep_if kept order orders, p'')

-- One order of the `filter_map` over `profitability`.
abbrev pub scored_as : SignedOrder → Result FixedPricingError (Option ℤ) → Option (ℤ × SignedOrder)
scored_as order (ok (some margin)) = some (margin, order)
scored_as order (ok none) = none
scored_as order (err e) = none

abbrev pub record_score : Result FixedPricingError (Option ℤ) → Metrics → Metrics
record_score (ok (some margin)) m = m
record_score (ok none) m = record_order_skipped exceeds_max_loss m
record_score (err (unknown_token a)) m = record_order_skipped Metrics.unknown_token m
record_score (err e) m = record_pricing_error m

abbrev cons_if : Option (ℤ × SignedOrder) → List (ℤ × SignedOrder) → List (ℤ × SignedOrder)
cons_if none rest = rest
cons_if (some entry) rest = entry ∷ rest

unfoldable pub score_orders :
    FixedPricingClient → List SignedOrder → Metrics → List (ℤ × SignedOrder) × Metrics
unfolding record_order_skipped record_pricing_error
score_orders client [] m = ([], m)
score_orders client (order ∷ rest) m =
    let result = profitability client order in
    let (scored, m') = score_orders client rest (record_score result m) in
    (cons_if (scored_as order result) scored, m')

-- `sort_by_key(|entry| Reverse(entry.0))`, a stable sort with the largest margin first.
unfoldable pub insert_entry : ℤ × SignedOrder → List (ℤ × SignedOrder) → List (ℤ × SignedOrder)
insert_entry entry [] = entry ∷ []
insert_entry entry (other ∷ rest) =
    if ltb_ℤ entry.0 other.0 then other ∷ insert_entry entry rest else entry ∷ other ∷ rest

unfoldable pub sort_entries : List (ℤ × SignedOrder) → List (ℤ × SignedOrder)
unfolding insert_entry
sort_entries [] = []
sort_entries (entry ∷ rest) = insert_entry entry (sort_entries rest)

abbrev start : Metrics → Progress
start m = record { orders_count = 0; orders_after_expiry_filter = 0; metrics = m }

-- The return without candidates, and the sort.
unfoldable pub finish : List (ℤ × SignedOrder) × Metrics → Option (List (ℤ × SignedOrder)) × Metrics
unfolding sort_entries
finish (scored, m) = if is_empty scored then (some [], m) else (some (sort_entries scored), m)

-- What follows `try_collect`: `none` is the error "failed to fetch orders".
unfoldable pub after_collect :
    FixedPricingClient
    → Option (List SignedOrder)
    → Progress
    → Option (List (ℤ × SignedOrder)) × Metrics
unfolding score_orders finish record_fetch_order_error record_orders_fetched
after_collect client none p = (none, record_fetch_order_error p.metrics)
after_collect client (some orders) p =
    let m = record_orders_fetched p.orders_count p.metrics in
    if is_empty orders then (some [], m) else finish (score_orders client orders m)

unfoldable pub fetch_and_score_orders :
    {C : Type 0}
    → Crates C
    → FillerTask
    → Cycle
    → FillerState C
    → Option (List (ℤ × SignedOrder)) × Metrics
unfolding collect after_collect earliest_fill_timestamp
fetch_and_score_orders crates task cycle s =
    let (orders, p) =
      collect crates s.filled_orders (earliest_fill_timestamp task cycle.now) cycle.order_stream
        (start s.metrics) in
    after_collect task.pricing_client orders p
