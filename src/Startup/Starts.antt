-- ===== src/Startup/Starts.antt =====
-- The startup of src/initialization.rs comes to an end when its connections do.
use Prim.Native.String.{String}
use signet_filler.Prelude.{ℕ, ◌≡◌, refl, Bool, false, some, List}
use signet_filler.Prelude.Result.{Result, ok}
use signet_filler.Metrics.{Metrics}
use signet_filler.Config.{Config}
use signet_filler.Allowance.{new_cache}
use signet_filler.Startup.{
  RpcError, is_transient_transport_error, ReqwestError, is_transient_reqwest_error, Retrier,
  RetryLaws,
}
use signet_filler.Startup.Retry.{
  connect_provider_with_retry, connect_to_host_provider, connect_to_rollup_provider,
  connect_to_tx_cache, retry_with, CacheUrls,
}
use signet_filler.Startup.Settles.{Reaches, retry-Reaches}
use signet_filler.Startup.Context.{StartupCrates, Outside, initialize}
use signet_filler.Startup.Ready.{initialize_iff}

module _ {U : Type 0} (urls : CacheUrls U) where
  cache-Reaches :
      (is_server_error : ℕ → Bool) (retry : Retrier ReqwestError (Unit {0}))
      → RetryLaws retry
      → (url : String) (attempts : String → List (Result ReqwestError (Unit {0}))) (m : Metrics)
        (cache : U) (orders : String)
      → urls.new_from_string url ≡ some cache
      → urls.join_orders cache ≡ some orders
      → Reaches (is_transient_reqwest_error is_server_error) tt (attempts orders)
      → (connect_to_tx_cache urls is_server_error retry url attempts m).0 ≡ some (ok cache)
  unfolding connect_to_tx_cache retry_with
  cache-Reaches is_server_error retry laws url attempts m cache orders parsed joined o =
      rw
        (
          parsed,
          joined,
          retry-Reaches retry laws (is_transient_reqwest_error is_server_error) tt (attempts orders)
              o,
        )
        refl

module _ {P K S T U X Y Z : Type 0} (crates : StartupCrates P K S T U) (config : Config X Y Z)
    (url : String) (seen : Outside (RpcError P K) S T) (m : Metrics) where
  -- If the token is not cancelled, the signer connects, and the attempts of each connection come to a
  -- success after errors that are all transient, the service gets the context with what they gave;
  -- under what the documentation of `backon` says of its retries.
  pub initialize-starts :
      RetryLaws crates.retry_provider
      → RetryLaws crates.retry_cache
      → (signer : S) (host ru : T) (cache : U) (orders : String) → seen.is_cancelled ≡ false
      → seen.connect_signer ≡ some signer
      → let test = is_transient_transport_error crates.is_retry_payload crates.is_retry_kind in
        Reaches test host seen.host_attempts
        → Reaches test ru seen.rollup_attempts
        → crates.urls.new_from_string url ≡ some cache
        → crates.urls.join_orders cache ≡ some orders
        → Reaches
            (is_transient_reqwest_error crates.is_server_error)
            tt
            (seen.cache_attempts orders)
        → (initialize crates config url seen m).0
          ≡ some (
              ok (record {
                config = config;
                signer = signer;
                host = host;
                ru = ru;
                cache = cache;
                allowance_cache = new_cache;
              }))
  unfolding connect_to_host_provider connect_to_rollup_provider connect_provider_with_retry
      retry_with
  initialize-starts providers requests signer host ru cache orders c s h r parsed joined o =
      let test = is_transient_transport_error crates.is_retry_payload crates.is_retry_kind in
      (initialize_iff crates config url seen m (record {
        config = config;
        signer = signer;
        host = host;
        ru = ru;
        cache = cache;
        allowance_cache = new_cache;
      })).1
        (record {
          is_running = c;
          is_signed = s;
          has_host =
              rw (retry-Reaches crates.retry_provider providers test host seen.host_attempts h)
                refl;
          has_rollup =
              rw (retry-Reaches crates.retry_provider providers test ru seen.rollup_attempts r)
                refl;
          has_cache =
              cache-Reaches crates.urls crates.is_server_error crates.retry_cache requests url
                seen.cache_attempts m cache orders parsed joined o;
          same_config = refl;
          is_empty = refl;
        })
