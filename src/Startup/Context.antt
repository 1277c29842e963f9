-- ===== src/Startup/Context.antt =====
-- `FillerContext::initialize` of src/initialization.rs.
use Prim.Native.String.{String}
use mathlib.Core.Option
use signet_filler.Prelude.{ℕ, Bool, Option, none, some, List, if◌then◌else◌}
use signet_filler.Prelude.HashMap.{or_else}
use signet_filler.Prelude.Result.{Result, ok, err}
use signet_filler.Tokens.{Address}
use signet_filler.Metrics.{Metrics, ConnectionTarget, host_provider, rollup_provider, tx_cache}
use signet_filler.Preflight.{Balances}
use signet_filler.Config.{Config}
use signet_filler.Allowance.{AllowanceCache, new_cache}
use signet_filler.Startup.{RpcError, ReqwestError, Retrier}
use signet_filler.Startup.Retry.{
  ConnectError, connect_to_host_provider, connect_to_rollup_provider, CacheUrls,
  connect_to_tx_cache,
}
use signet_filler.Startup.Funds.{log_startup_balances}

-- The context, without the token and the instant at which the service started. `A` is the
-- configuration, `S` the signer, `T` a provider and `U` the client of the transaction cache.
pub record FillerContext (A S T U : Type 0) : Type 0 where
  pub config : A
  pub signer : S
  pub host : T
  pub ru : T
  pub cache : U
  pub allowance_cache : AllowanceCache

-- Why there is no context: the signer, the cancellation, or one of the connections. `E` is the error
-- of a provider.
pub data InitError (E : Type 0) : Type 0 where
  signer_failed initialization_cancelled : InitError E
  provider_failed : ConnectError E → InitError E
  cache_failed : ConnectError ReqwestError → InitError E

-- What the outside has answered when the function returns or is looked at: the signer (`none` is an
-- error), whether `select!` finds the token cancelled, the attempts of each connection so far, which of
-- the three `try_join!` polls first, and the balances.
pub record Outside (E S T : Type 0) : Type 0 where
  pub connect_signer : Option S
  pub is_cancelled : Bool
  pub host_attempts : List (Result E T)
  pub rollup_attempts : List (Result E T)
  pub cache_attempts : String → List (Result ReqwestError (Unit {0}))
  pub polled_first : ConnectionTarget
  pub balances : Balances

-- What the function calls of other crates.
pub record StartupCrates (P K S T U : Type 0) : Type 0 where
  pub is_retry_payload : P → Bool
  pub is_retry_kind : K → Bool
  pub is_server_error : ℕ → Bool
  pub retry_provider : Retrier (RpcError P K) T
  pub retry_cache : Retrier ReqwestError (Unit {0})
  pub urls : CacheUrls U
  pub address : S → Address

abbrev pub failure : {E I V : Type 0} → (E → I) → Option (Result E V) → Option I
failure tag none = none
failure tag (some (ok v)) = none
failure tag (some (err e)) = some (tag e)

abbrev pub first_failure :
    {I : Type 0} → ConnectionTarget → Option I → Option I → Option I → Option I
first_failure host_provider host ru cache = or_else host (or_else ru cache)
first_failure rollup_provider host ru cache = or_else ru (or_else cache host)
first_failure tx_cache host ru cache = or_else cache (or_else host ru)

abbrev pub values :
    {E F T U : Type 0}
    → Option (Result E T)
    → Option (Result E T)
    → Option (Result F U)
    → Option (T × T × U)
values (some (ok h)) (some (ok r)) (some (ok c)) = some (h, r, c)
values host ru cache = none

abbrev pub or_values : {I V : Type 0} → Option I → Option V → Option (Result I V)
or_values (some e) v = some (err e)
or_values none v = Option.map ok v

-- `try_join!`: an error as soon as one of the three has one, the values when all three are there, and
-- `none` before.
unfoldable pub try_join :
    {E T U : Type 0}
    → ConnectionTarget
    → Option (Result (ConnectError E) T)
    → Option (Result (ConnectError E) T)
    → Option (Result (ConnectError ReqwestError) U)
    → Option (Result (InitError E) (T × T × U))
try_join first host ru cache =
    or_values
      (first_failure first (failure provider_failed host) (failure provider_failed ru)
        (failure cache_failed cache))
      (values host ru cache)

module _ {P K S T U X Y Z : Type 0} (crates : StartupCrates P K S T U) (config : Config X Y Z)
    (transaction_cache : String) (seen : Outside (RpcError P K) S T) where
  -- The three connections.
  unfoldable pub connections :
      Metrics → Option (Result (InitError (RpcError P K)) (T × T × U)) × Metrics
  unfolding try_join connect_to_host_provider connect_to_rollup_provider connect_to_tx_cache
  connections m =
      let (host, m1) =
        connect_to_host_provider crates.is_retry_payload crates.is_retry_kind crates.retry_provider
          seen.host_attempts m in
      let (ru, m2) =
        connect_to_rollup_provider crates.is_retry_payload crates.is_retry_kind
          crates.retry_provider seen.rollup_attempts m1 in
      let (cache, m3) =
        connect_to_tx_cache crates.urls crates.is_server_error crates.retry_cache transaction_cache
          seen.cache_attempts m2 in
      (try_join seen.polled_first host ru cache, m3)

  -- What follows the connections.
  abbrev pub finish :
      S
      → Option (Result (InitError (RpcError P K)) (T × T × U))
      → Metrics
      → Option (Result (InitError (RpcError P K)) (FillerContext (Config X Y Z) S T U)) × Metrics
  finish signer none m = (none, m)
  finish signer (some (err e)) m = (some (err e), m)
  finish signer (some (ok (host, ru, cache))) m = (
    some (
        ok (record {
          config = config;
          signer = signer;
          host = host;
          ru = ru;
          cache = cache;
          allowance_cache = new_cache;
        })),
    (log_startup_balances config.constants seen.balances (crates.address signer) m).0,
  )

  abbrev pub with_signer :
      Metrics
      → Option S
      → Bool
      → Option (Result (InitError (RpcError P K)) (FillerContext (Config X Y Z) S T U)) × Metrics
  with_signer m none is_cancelled = (some (err signer_failed), m)
  with_signer m (some signer) is_cancelled =
      let (joined, m') = connections m in
      if is_cancelled then (some (err initialization_cancelled), m') else finish signer joined m'

  -- `none` while a connection is still tried. The names of the tokens, which the function sets first,
  -- are in Tokens/Names.
  unfoldable pub initialize :
      Metrics
      → Option (Result (InitError (RpcError P K)) (FillerContext (Config X Y Z) S T U)) × Metrics
  unfolding connections log_startup_balances
  initialize m = with_signer m seen.connect_signer seen.is_cancelled
