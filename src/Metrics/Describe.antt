-- ===== src/Metrics/Describe.antt =====
-- The names of the metrics of src/metrics.rs, and the descriptions that are registered for them.
use Prim.Native.String.{String}
use text.Mathlib.Text.{◌==◌ as str_eq, find?}
use signet_filler.Prelude.{
  ℕ, ◌≡◌, refl, Bool, true, false, ◌&&◌, Option, none, some, List, [], ◌∷◌, if◌then◌else◌,
}
use signet_filler.Metrics.{
  OrderSkippedReason, already_filled, expired, exceeds_max_loss, unknown_token,
  insufficient_filler_balance, SubmissionResult, success, failure, ConnectionTarget, host_provider,
  rollup_provider, tx_cache, PreflightQuery, balance, allowance, reason_label, result_label,
  target_label, query_label,
}

abbrev pub uptime_seconds_name : String
uptime_seconds_name = "signet.filler.uptime_seconds"

abbrev pub cycles_name : String
cycles_name = "signet.filler.cycles"

abbrev pub orders_fetched_name : String
orders_fetched_name = "signet.filler.orders_fetched"

abbrev pub orders_skipped_name : String
orders_skipped_name = "signet.filler.orders_skipped"

abbrev pub orders_in_bundles_name : String
orders_in_bundles_name = "signet.filler.orders_in_bundles"

abbrev pub bundles_name : String
bundles_name = "signet.filler.bundles"

abbrev pub nonce_check_errors_name : String
nonce_check_errors_name = "signet.filler.nonce_check_errors"

abbrev pub pricing_errors_name : String
pricing_errors_name = "signet.filler.pricing_errors"

abbrev pub fetch_order_errors_name : String
fetch_order_errors_name = "signet.filler.fetch_order_errors"

abbrev pub connection_retry_attempts_name : String
connection_retry_attempts_name = "signet.filler.connection_retry_attempts"

abbrev pub preflight_query_errors_name : String
preflight_query_errors_name = "signet.filler.preflight_query_errors"

abbrev pub missed_windows_name : String
missed_windows_name = "signet.filler.missed_windows"

abbrev pub cycle_duration_seconds_name : String
cycle_duration_seconds_name = "signet.filler.cycle_duration_seconds"

abbrev pub orders_per_bundle_name : String
orders_per_bundle_name = "signet.filler.orders_per_bundle"

abbrev pub chunks_per_cycle_name : String
chunks_per_cycle_name = "signet.filler.chunks_per_cycle"

pub data MetricKind : Type 0 where
  gauge counter histogram : MetricKind

pub record Description : Type 0 where
  pub kind : MetricKind
  pub name : String
  pub text : String

abbrev describe : MetricKind → String → String → Description
describe kind name text = record { kind = kind; name = name; text = text }

-- `DESCRIPTIONS`, in order.
abbrev pub descriptions : List Description
descriptions =
    describe gauge uptime_seconds_name "Seconds since signet-filler started"
    ∷ describe counter cycles_name "Processing cycles completed"
    ∷ describe counter orders_fetched_name "Orders fetched from tx cache"
    ∷ describe counter orders_skipped_name
        "Orders skipped (label: reason = already-filled / expired / exceeds-max-loss / unknown-token / insufficient-filler-balance)"
    ∷ describe counter orders_in_bundles_name
        "Orders included in fill bundles submitted to the filler (counts attempts regardless of submission outcome; pair with BUNDLES result=failure to gauge lost volume)"
    ∷ describe counter bundles_name "Bundle submissions (label: result = success / failure)"
    ∷ describe counter nonce_check_errors_name "Errors querying Permit2 nonce bitmap"
    ∷ describe counter pricing_errors_name "Errors during profitability evaluation"
    ∷ describe counter fetch_order_errors_name "Errors fetching orders from tx cache"
    ∷ describe counter connection_retry_attempts_name
        "Connection retry attempts during initialization (label: target = host-provider / rollup-provider / transaction-cache)"
    ∷ describe counter preflight_query_errors_name
        "RPC errors during pre-flight checks (label: query = balance / allowance)"
    ∷ describe counter missed_windows_name
        "Processing cycles skipped because the processing window was missed"
    ∷ describe histogram cycle_duration_seconds_name "Duration of each processing cycle"
    ∷ describe histogram orders_per_bundle_name "Orders in submitted bundles"
    ∷ describe histogram chunks_per_cycle_name
        "Number of fill bundle chunks submitted per cycle (1 when orders fit in a single bundle, more when MAX_ORDERS_PER_BUNDLE forces chunking)"
    ∷ []

-- What the functions of the file write: one constructor for each call of `gauge!`, `counter!` and
-- `histogram!`, with what selects its label.
pub data Recording : Type 0 where
  uptime cycle cycle_duration fetched in_bundle nonce_check_error pricing_error fetch_order_error :
      Recording
  missed_window per_bundle chunks : Recording
  skipped : OrderSkippedReason → Recording
  submitted : SubmissionResult → Recording
  attempted : ConnectionTarget → Recording
  query_failed : PreflightQuery → Recording

-- The macro and the name of the call.
abbrev pub metric_of : Recording → MetricKind × String
metric_of uptime = (gauge, uptime_seconds_name)
metric_of cycle = (counter, cycles_name)
metric_of cycle_duration = (histogram, cycle_duration_seconds_name)
metric_of fetched = (counter, orders_fetched_name)
metric_of in_bundle = (counter, orders_in_bundles_name)
metric_of nonce_check_error = (counter, nonce_check_errors_name)
metric_of pricing_error = (counter, pricing_errors_name)
metric_of fetch_order_error = (counter, fetch_order_errors_name)
metric_of missed_window = (counter, missed_windows_name)
metric_of per_bundle = (histogram, orders_per_bundle_name)
metric_of chunks = (histogram, chunks_per_cycle_name)
metric_of (skipped reason) = (counter, orders_skipped_name)
metric_of (submitted result) = (counter, bundles_name)
metric_of (attempted target) = (counter, connection_retry_attempts_name)
metric_of (query_failed query) = (counter, preflight_query_errors_name)

abbrev pub label_of : Recording → Option String
label_of (skipped reason) = some (reason_label reason)
label_of (submitted result) = some (result_label result)
label_of (attempted target) = some (target_label target)
label_of (query_failed query) = some (query_label query)
label_of _ = none

-- All descriptions of a name.
abbrev pub described : String → List Description → List Description
described name [] = []
described name (d ∷ rest) =
    if str_eq d.name name then d ∷ described name rest else described name rest

abbrev is_some : Option ℕ → Bool
is_some none = false
is_some (some n) = true

abbrev mentions : Option String → String → Bool
mentions none text = true
mentions (some label) text = is_some (find? text label)

abbrev same_kind : MetricKind → MetricKind → Bool
same_kind gauge gauge = true
same_kind counter counter = true
same_kind histogram histogram = true
same_kind _ _ = false

-- There is one description of the name; it is of the kind that is recorded, and its text mentions the
-- label.
abbrev pub explains : MetricKind → Option String → List Description → Bool
explains kind label [] = false
explains kind label (d ∷ []) = same_kind kind d.kind && mentions label d.text
explains kind label (d ∷ e ∷ rest) = false

-- Everything that the functions record has exactly one description of its name, of the kind that is
-- recorded, and the description of a name with labels mentions the label.
pub recording-explained :
    (r : Recording)
    → let (kind, name) = metric_of r in
      explains kind (label_of r) (described name descriptions) ≡ true
unfolding reason_label result_label target_label query_label
recording-explained uptime = refl
recording-explained cycle = refl
recording-explained cycle_duration = refl
recording-explained fetched = refl
recording-explained in_bundle = refl
recording-explained nonce_check_error = refl
recording-explained pricing_error = refl
recording-explained fetch_order_error = refl
recording-explained missed_window = refl
recording-explained per_bundle = refl
recording-explained chunks = refl
recording-explained (skipped already_filled) = refl
recording-explained (skipped expired) = refl
recording-explained (skipped exceeds_max_loss) = refl
recording-explained (skipped unknown_token) = refl
recording-explained (skipped insufficient_filler_balance) = refl
recording-explained (submitted success) = refl
recording-explained (submitted failure) = refl
recording-explained (attempted host_provider) = refl
recording-explained (attempted rollup_provider) = refl
recording-explained (attempted tx_cache) = refl
recording-explained (query_failed balance) = refl
recording-explained (query_failed allowance) = refl
