-- ===== src/Tests/Startup.antt =====
-- The theorems on the startup of the service at sample inputs.
use Prim.Native.String.{String}
use signet_filler.Prelude.{
  ℕ, zero, suc, leb, ◌+◌, ◌≡◌, ◌↔◌, refl, Bool, true, false, Option, none, some, List, [], ◌∷◌,
  arith,
}
use signet_filler.Prelude.Result.{Result, ok, err}
use signet_filler.Tokens.{KnownToken, resolve, name, rollup_weth}
use signet_filler.Tokens.Names.{no_names, init_token_names, display, display-name}
use signet_filler.Metrics.{no_metrics, host_provider}
use signet_filler.Preflight.{Balances}
use signet_filler.Report.{Reports, failures}
use signet_filler.Allowance.{new_cache}
use signet_filler.Startup.{
  RpcError, error_resp, transport, is_transient_transport_error, is_transient_reqwest_error,
  ReqwestError, Retrier, RetryLaws,
}
use signet_filler.Startup.Retry.{
  retry_with, connect_provider_with_retry, connect_to_host_provider, connect_to_rollup_provider,
  connect_to_tx_cache,
}
use signet_filler.Startup.Settles.{now, later}
use signet_filler.Startup.Funds.{
  log_startup_balances, holdings, IsDistinct, log_startup_balances-Reports,
}
use signet_filler.Startup.Context.{
  FillerContext, Outside, StartupCrates, initialize, connections, try_join,
}
use signet_filler.Startup.Ready.{IsReady, initialize_iff}
use signet_filler.Startup.Starts.{initialize-starts}
use signet_filler.Tests.Samples.{constants}
use signet_filler.Config.{Config}

-- A retrier that tries again for ever.
retry_or_stop :
    {E T : Type 0} → Bool → E → List E × Option (Result E T) → List E × Option (Result E T)
retry_or_stop true e (es, r) = (e ∷ es, r)
retry_or_stop false e rest = ([], some (err e))

pub forever : {E T : Type 0} → (E → Bool) → List (Result E T) → List E × Option (Result E T)
unfolding retry_or_stop
forever test [] = ([], none)
forever test (ok t ∷ rest) = ([], some (ok t))
forever test (err e ∷ rest) = retry_or_stop (test e) e (forever test rest)

abbrev pub retrier : {E T : Type 0} → Retrier E T
retrier = λ builder test attempts. forever test attempts

retrier-laws : {E T : Type 0} → RetryLaws (retrier {E = E} {T = T})
unfolding forever retry_or_stop
retrier-laws = record {
  waiting = λ b test h. refl;
  succeeded = λ b test t rest h. refl;
  gave_up = λ b test e rest h final. rw final refl;
  again = λ b test e rest h transient. rw transient refl;
}

-- An error payload is transient if it is zero, and a transport error always is.
abbrev pub is_zero : ℕ → Bool
is_zero zero = true
is_zero (suc n) = false

-- Connections with providers and clients that are numbers. The address of a signer is the signer.
abbrev pub startup : StartupCrates ℕ ℕ ℕ ℕ ℕ
startup = record {
  is_retry_payload = is_zero;
  is_retry_kind = λ k. true;
  is_server_error = λ status. leb 500 status;
  retry_provider = retrier;
  retry_cache = retrier;
  urls = record { new_from_string = λ text. some 3; join_orders = λ cache. some "orders" };
  address = λ signer. signer;
}

-- The defaults, with bundles of one order.
abbrev pub config : Config String String ℕ
config = record {
  chain_name = "parmigiana";
  host_rpc = "https://host-rpc.parmigiana.signet.sh";
  ru_rpc = "wss://rpc.parmigiana.signet.sh";
  block_lead_duration = 2_000_000_000;
  max_loss_percent = 10;
  healthcheck_port = 8080;
  target_blocks = 5;
  max_orders_per_bundle = some 1;
  signer = 99;
  constants = constants;
}

abbrev pub balances : Balances
balances = record { get_balance = λ ch a. some 5; balance_of = λ ch t a. none }

abbrev pub unavailable : ReqwestError
unavailable = record {
  is_timeout = false;
  is_connect = false;
  is_request = false;
  status = some 503;
}

-- Transient errors before each success.
abbrev pub seen : Outside (RpcError ℕ ℕ) ℕ ℕ
seen = record {
  connect_signer = some 99;
  is_cancelled = false;
  host_attempts = err (transport 4) ∷ err (error_resp 0) ∷ ok 1 ∷ [];
  rollup_attempts = ok 2 ∷ [];
  cache_attempts = λ text. err unavailable ∷ ok tt ∷ [];
  polled_first = host_provider;
  balances = balances;
}

abbrev pub context : FillerContext (Config String String ℕ) ℕ ℕ ℕ
context = record {
  config = config;
  signer = 99;
  host = 1;
  ru = 2;
  cache = 3;
  allowance_cache = new_cache;
}

pub startup-runs : (initialize startup config "https://cache" seen no_metrics).0 ≡ some (ok context)
unfolding initialize connections try_join connect_to_host_provider connect_to_rollup_provider
    connect_provider_with_retry connect_to_tx_cache retry_with is_transient_transport_error
    is_transient_reqwest_error forever retry_or_stop
startup-runs = refl

initialize_iff_example :
    ((initialize startup config "https://cache" seen no_metrics).0 ≡ some (ok context))
    ↔ IsReady startup config "https://cache" seen no_metrics context
initialize_iff_example = initialize_iff startup config "https://cache" seen no_metrics context

initialize-starts_example :
    (initialize startup config "https://cache" seen no_metrics).0 ≡ some (ok context)
unfolding is_transient_transport_error is_transient_reqwest_error
initialize-starts_example =
    initialize-starts startup config "https://cache" seen no_metrics retrier-laws retrier-laws 99 1
      2 3 "orders" refl refl (later (transport 4) _ refl (later (error_resp 0) _ refl (now [])))
      (now []) refl refl (later unavailable _ refl (now []))

distinct : IsDistinct constants
distinct = record {
  chains = ground arith;
  host_usdc = ground arith;
  host_usdt = ground arith;
  host_weth = ground arith;
  host_wbtc = ground arith;
  rollup_weth = ground arith;
  rollup_wbtc = ground arith;
}

log_startup_balances-Reports_example :
    let logged = log_startup_balances constants balances 99 no_metrics in
    Reports (holdings constants balances 99) logged.1
    × (logged.0.preflight_balance_errors ≡ 0 + failures (holdings constants balances 99))
log_startup_balances-Reports_example =
    log_startup_balances-Reports constants balances 99 no_metrics distinct

resolve-alone :
    (k : KnownToken) → resolve constants k ≡ resolve constants rollup_weth → k ≡ rollup_weth
unfolding resolve
resolve-alone k e = ground arith

display-name_example :
    display
      (λ n. "chain")
      (λ a. "token")
      (init_token_names constants (init_token_names constants no_names))
      (resolve constants rollup_weth)
    ≡ name rollup_weth
display-name_example =
    display-name (λ n. "chain") (λ a. "token") constants constants rollup_weth resolve-alone
