-- ===== src/Startup/Retry.antt =====
-- The retry loops of src/initialization.rs.
use Prim.Native.String.{String}
use mathlib.Core.Option
use signet_filler.Prelude.{ℕ, Bool, Option, none, some, List, [], ◌∷◌}
use signet_filler.Prelude.Result.{Result, ok, err}
use signet_filler.Metrics.{
  Metrics, ConnectionTarget, host_provider, rollup_provider, tx_cache, record_connection_attempt,
}
use signet_filler.Startup.{
  RpcError, is_transient_transport_error, ReqwestError, is_transient_reqwest_error, backoff,
  Retrier,
}

-- The errors of a connection: the last error of the attempts with its target, or an address of the
-- transaction cache that cannot be used.
pub data ConnectError (E : Type 0) : Type 0 where
  failed_to_connect : ConnectionTarget → E → ConnectError E
  invalid_url invalid_orders_url : ConnectError E

-- `wrap_err`
abbrev pub wrap : {E T : Type 0} → ConnectionTarget → Result E T → Result (ConnectError E) T
wrap target (ok t) = ok t
wrap target (err e) = err (failed_to_connect target e)

-- The calls of `notify`.
unfoldable pub record_attempts : {E : Type 0} → ConnectionTarget → List E → Metrics → Metrics
unfolding record_connection_attempt
record_attempts target [] m = m
record_attempts target (e ∷ rest) m =
    record_attempts target rest (record_connection_attempt target m)

-- The part that the two loops share: `none` while the operation is still tried.
unfoldable pub retry_with :
    {E T : Type 0}
    → Retrier E T
    → ConnectionTarget
    → (E → Bool)
    → List (Result E T)
    → Metrics
    → Option (Result (ConnectError E) T) × Metrics
unfolding record_attempts
retry_with retry target test attempts m =
    let (notified, outcome) = retry backoff test attempts in
    (Option.map (wrap target) outcome, record_attempts target notified m)

module _ {P K T : Type 0} (payload : P → Bool) (kind : K → Bool)
    (retry : Retrier (RpcError P K) T) where
  unfoldable pub connect_provider_with_retry :
      ConnectionTarget
      → List (Result (RpcError P K) T)
      → Metrics
      → Option (Result (ConnectError (RpcError P K)) T) × Metrics
  unfolding retry_with is_transient_transport_error
  connect_provider_with_retry target attempts m =
      retry_with retry target (is_transient_transport_error payload kind) attempts m

  unfoldable pub connect_to_host_provider :
      List (Result (RpcError P K) T)
      → Metrics
      → Option (Result (ConnectError (RpcError P K)) T) × Metrics
  unfolding connect_provider_with_retry
  connect_to_host_provider attempts m = connect_provider_with_retry host_provider attempts m

  unfoldable pub connect_to_rollup_provider :
      List (Result (RpcError P K) T)
      → Metrics
      → Option (Result (ConnectError (RpcError P K)) T) × Metrics
  unfolding connect_provider_with_retry
  connect_to_rollup_provider attempts m = connect_provider_with_retry rollup_provider attempts m

-- The parser of the cache's address, and the address of its orders (`url().join("orders")`).
pub record CacheUrls (U : Type 0) : Type 0 where
  pub new_from_string : String → Option U
  pub join_orders : U → Option String

abbrev pub replace_ok : {E A B : Type 0} → B → Result E A → Result E B
replace_ok b (ok a) = ok b
replace_ok b (err e) = err e

-- The attempts are requests to the address of the orders.
abbrev check_connection :
    {U : Type 0}
    → (ℕ → Bool)
    → Retrier ReqwestError (Unit {0})
    → (String → List (Result ReqwestError (Unit {0})))
    → Metrics
    → U
    → Option String
    → Option (Result (ConnectError ReqwestError) U) × Metrics
check_connection is_server_error retry attempts m cache none = (some (err invalid_orders_url), m)
check_connection is_server_error retry attempts m cache (some orders_url) =
    let (outcome, m') =
      retry_with retry tx_cache (is_transient_reqwest_error is_server_error) (attempts orders_url)
        m in
    (Option.map (replace_ok cache) outcome, m')

abbrev with_cache :
    {U : Type 0}
    → CacheUrls U
    → (ℕ → Bool)
    → Retrier ReqwestError (Unit {0})
    → (String → List (Result ReqwestError (Unit {0})))
    → Metrics
    → Option U
    → Option (Result (ConnectError ReqwestError) U) × Metrics
with_cache urls is_server_error retry attempts m none = (some (err invalid_url), m)
with_cache urls is_server_error retry attempts m (some cache) =
    check_connection is_server_error retry attempts m cache (urls.join_orders cache)

unfoldable pub connect_to_tx_cache :
    {U : Type 0}
    → CacheUrls U
    → (ℕ → Bool)
    → Retrier ReqwestError (Unit {0})
    → String
    → (String → List (Result ReqwestError (Unit {0})))
    → Metrics
    → Option (Result (ConnectError ReqwestError) U) × Metrics
unfolding retry_with is_transient_reqwest_error
connect_to_tx_cache urls is_server_error retry url attempts m =
    with_cache urls is_server_error retry attempts m (urls.new_from_string url)
