-- ===== src/Metrics.antt =====
-- src/metrics.rs: the counters, histograms and the gauge that the service records. Durations are in
-- nanoseconds, before the code turns them into floating-point seconds.
pub mod Labels
pub mod Describe
use Prim.Native.String.{String}
use signet_filler.Prelude.{ℕ, ◌+◌, List, [], ◌∷◌}

pub data OrderSkippedReason : Type 0 where
  already_filled expired exceeds_max_loss unknown_token insufficient_filler_balance :
      OrderSkippedReason

pub data SubmissionResult : Type 0 where
  success failure : SubmissionResult

pub data PreflightQuery : Type 0 where
  balance allowance : PreflightQuery

-- Which connection of the startup is tried again.
pub data ConnectionTarget : Type 0 where
  host_provider rollup_provider tx_cache : ConnectionTarget

-- The label of a counter (the methods `as_str`).
pub reason_label : OrderSkippedReason → String
reason_label already_filled = "already-filled"
reason_label expired = "expired"
reason_label exceeds_max_loss = "exceeds-max-loss"
reason_label unknown_token = "unknown-token"
reason_label insufficient_filler_balance = "insufficient-filler-balance"

pub result_label : SubmissionResult → String
result_label success = "success"
result_label failure = "failure"

pub target_label : ConnectionTarget → String
target_label host_provider = "host-provider"
target_label rollup_provider = "rollup-provider"
target_label tx_cache = "transaction-cache"

pub query_label : PreflightQuery → String
query_label balance = "balance"
query_label allowance = "allowance"

-- A counter for each name and label; a histogram as its values, the latest first.
pub record Metrics : Type 0 where
  pub cycles : ℕ
  pub orders_fetched : ℕ
  pub skipped_already_filled : ℕ
  pub skipped_expired : ℕ
  pub skipped_exceeds_max_loss : ℕ
  pub skipped_unknown_token : ℕ
  pub skipped_insufficient_filler_balance : ℕ
  pub orders_in_bundles : ℕ
  pub bundles_success : ℕ
  pub bundles_failure : ℕ
  pub nonce_check_errors : ℕ
  pub pricing_errors : ℕ
  pub fetch_order_errors : ℕ
  pub preflight_balance_errors : ℕ
  pub preflight_allowance_errors : ℕ
  pub missed_windows : ℕ
  pub host_provider_retries : ℕ
  pub rollup_provider_retries : ℕ
  pub tx_cache_retries : ℕ
  pub orders_per_bundle : List ℕ
  pub chunks_per_cycle : List ℕ
  pub cycle_durations : List ℕ
  pub uptime : ℕ

-- `CycleGuard::drop`
unfoldable pub record_cycle : ℕ → Metrics → Metrics
record_cycle elapsed m = record m {
  cycles = m.cycles + 1;
  cycle_durations = elapsed ∷ m.cycle_durations;
}

unfoldable pub record_uptime : ℕ → Metrics → Metrics
record_uptime elapsed m = record m { uptime = elapsed }

unfoldable pub record_orders_fetched : ℕ → Metrics → Metrics
record_orders_fetched n m = record m { orders_fetched = m.orders_fetched + n }

unfoldable pub record_order_skipped : OrderSkippedReason → Metrics → Metrics
record_order_skipped already_filled m = record m {
  skipped_already_filled = m.skipped_already_filled + 1;
}
record_order_skipped expired m = record m { skipped_expired = m.skipped_expired + 1 }
record_order_skipped exceeds_max_loss m = record m {
  skipped_exceeds_max_loss = m.skipped_exceeds_max_loss + 1;
}
record_order_skipped unknown_token m = record m {
  skipped_unknown_token = m.skipped_unknown_token + 1;
}
record_order_skipped insufficient_filler_balance m = record m {
  skipped_insufficient_filler_balance = m.skipped_insufficient_filler_balance + 1;
}

unfoldable pub record_orders_in_bundle : ℕ → Metrics → Metrics
record_orders_in_bundle n m = record m { orders_in_bundles = m.orders_in_bundles + n }

unfoldable pub record_bundle : SubmissionResult → Metrics → Metrics
record_bundle success m = record m { bundles_success = m.bundles_success + 1 }
record_bundle failure m = record m { bundles_failure = m.bundles_failure + 1 }

unfoldable pub record_nonce_check_error : Metrics → Metrics
record_nonce_check_error m = record m { nonce_check_errors = m.nonce_check_errors + 1 }

unfoldable pub record_pricing_error : Metrics → Metrics
record_pricing_error m = record m { pricing_errors = m.pricing_errors + 1 }

unfoldable pub record_fetch_order_error : Metrics → Metrics
record_fetch_order_error m = record m { fetch_order_errors = m.fetch_order_errors + 1 }

unfoldable pub record_connection_attempt : ConnectionTarget → Metrics → Metrics
record_connection_attempt host_provider m = record m {
  host_provider_retries = m.host_provider_retries + 1;
}
record_connection_attempt rollup_provider m = record m {
  rollup_provider_retries = m.rollup_provider_retries + 1;
}
record_connection_attempt tx_cache m = record m { tx_cache_retries = m.tx_cache_retries + 1 }

unfoldable pub record_preflight_query_error : PreflightQuery → Metrics → Metrics
record_preflight_query_error balance m = record m {
  preflight_balance_errors = m.preflight_balance_errors + 1;
}
record_preflight_query_error allowance m = record m {
  preflight_allowance_errors = m.preflight_allowance_errors + 1;
}

unfoldable pub record_missed_window : Metrics → Metrics
record_missed_window m = record m { missed_windows = m.missed_windows + 1 }

unfoldable pub record_orders_per_bundle : ℕ → Metrics → Metrics
record_orders_per_bundle n m = record m { orders_per_bundle = n ∷ m.orders_per_bundle }

unfoldable pub record_chunks_per_cycle : ℕ → Metrics → Metrics
record_chunks_per_cycle n m = record m { chunks_per_cycle = n ∷ m.chunks_per_cycle }

abbrev pub no_metrics : Metrics
no_metrics = record {
  cycles = 0;
  orders_fetched = 0;
  skipped_already_filled = 0;
  skipped_expired = 0;
  skipped_exceeds_max_loss = 0;
  skipped_unknown_token = 0;
  skipped_insufficient_filler_balance = 0;
  orders_in_bundles = 0;
  bundles_success = 0;
  bundles_failure = 0;
  nonce_check_errors = 0;
  pricing_errors = 0;
  fetch_order_errors = 0;
  preflight_balance_errors = 0;
  preflight_allowance_errors = 0;
  missed_windows = 0;
  host_provider_retries = 0;
  rollup_provider_retries = 0;
  tx_cache_retries = 0;
  orders_per_bundle = [];
  chunks_per_cycle = [];
  cycle_durations = [];
  uptime = 0;
}
