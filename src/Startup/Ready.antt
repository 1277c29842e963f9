-- ===== src/Startup/Ready.antt =====
-- When `FillerContext::initialize` of src/initialization.rs gives a context.
use Prim.Native.String.{String}
use signet_filler.Prelude.{
  ℕ, ◌≡◌, ◌↔◌, refl, sym, ◌∙◌, Bool, true, false, Option, none, some, List, arith, Option-cases,
  inl, inr,
}
use signet_filler.Prelude.Result.{Result, ok, err}
use signet_filler.Metrics.{Metrics, ConnectionTarget}
use signet_filler.Config.{Config}
use signet_filler.Allowance.{new_cache}
use signet_filler.Startup.{RpcError, ReqwestError, Retrier}
use signet_filler.Startup.Retry.{
  ConnectError, connect_provider_with_retry, connect_to_host_provider, connect_to_rollup_provider,
  connect_to_tx_cache, retry_with, CacheUrls,
}
use signet_filler.Startup.Context.{
  FillerContext, InitError, try_join, StartupCrates, Outside, connections, finish, with_signer,
  initialize,
}

try_join_iff :
    {E T U : Type 0} (first : ConnectionTarget) (host ru : Option (Result (ConnectError E) T))
    (cache : Option (Result (ConnectError ReqwestError) U)) (h r : T) (c : U)
    → (try_join first host ru cache ≡ some (ok (h, r, c)))
      ↔ ((host ≡ some (ok h)) × (ru ≡ some (ok r)) × (cache ≡ some (ok c)))
unfolding try_join
try_join_iff first host ru cache h r c = ground arith

module _ {P K S T U X Y Z : Type 0} (crates : StartupCrates P K S T U) (config : Config X Y Z)
    (url : String) (seen : Outside (RpcError P K) S T) (m : Metrics) where
  -- How the three connections end, each on its own.
  abbrev pub host_outcome : Option (Result (ConnectError (RpcError P K)) T)
  host_outcome =
      (connect_to_host_provider crates.is_retry_payload crates.is_retry_kind crates.retry_provider
        seen.host_attempts m).0

  abbrev pub rollup_outcome : Option (Result (ConnectError (RpcError P K)) T)
  rollup_outcome =
      (connect_to_rollup_provider crates.is_retry_payload crates.is_retry_kind crates.retry_provider
        seen.rollup_attempts m).0

  abbrev pub cache_outcome : Option (Result (ConnectError ReqwestError) U)
  cache_outcome =
      (connect_to_tx_cache crates.urls crates.is_server_error crates.retry_cache url
        seen.cache_attempts m).0

  -- What a context stands for.
  pub record IsReady (context : FillerContext (Config X Y Z) S T U) : Type 0 where
    pub is_running : seen.is_cancelled ≡ false
    pub is_signed : seen.connect_signer ≡ some context.signer
    pub has_host : host_outcome ≡ some (ok context.host)
    pub has_rollup : rollup_outcome ≡ some (ok context.ru)
    pub has_cache : cache_outcome ≡ some (ok context.cache)
    pub same_config : context.config ≡ config
    pub is_empty : context.allowance_cache ≡ new_cache

module _ {U : Type 0} (urls : CacheUrls U) where
  cache-metrics :
      (is_server_error : ℕ → Bool) (retry : Retrier ReqwestError (Unit {0})) (url : String)
      (attempts : String → List (Result ReqwestError (Unit {0}))) (m n : Metrics)
      → (connect_to_tx_cache urls is_server_error retry url attempts m).0
        ≡ (connect_to_tx_cache urls is_server_error retry url attempts n).0
  unfolding connect_to_tx_cache retry_with
  cache-metrics is_server_error retry url attempts m n =
      elim (Option-cases (urls.new_from_string url)) [
        | inl e ↦ rw e refl
        | inr (cache, e) ↦ rw e (elim (Option-cases (urls.join_orders cache)) [
          | inl f ↦ rw f refl
          | inr (orders, f) ↦ rw f refl
        ])
      ]

module _ {P K S T U X Y Z : Type 0} (crates : StartupCrates P K S T U) (config : Config X Y Z)
    (url : String) (seen : Outside (RpcError P K) S T) (m : Metrics) where
  connections_lem :
      (connections crates config url seen m).0
      ≡ try_join seen.polled_first
          (host_outcome crates config url seen m)
          (rollup_outcome crates config url seen m)
          (cache_outcome crates config url seen m)
  unfolding connections connect_to_host_provider connect_to_rollup_provider
      connect_provider_with_retry retry_with
  connections_lem =
      let m' =
        (connect_to_rollup_provider crates.is_retry_payload crates.is_retry_kind
          crates.retry_provider seen.rollup_attempts
          (connect_to_host_provider crates.is_retry_payload crates.is_retry_kind
            crates.retry_provider seen.host_attempts m).1).1 in
      rw
        (cache-metrics crates.urls crates.is_server_error crates.retry_cache url seen.cache_attempts
          m' m)
        refl

  finish_iff :
      (signer : S) (joined : Option (Result (InitError (RpcError P K)) (T × T × U))) (n : Metrics)
      (context : FillerContext (Config X Y Z) S T U)
      → ((finish crates config url seen signer joined n).0 ≡ some (ok context)) ↔ (
          (joined ≡ some (ok (context.host, context.ru, context.cache)))
          × (signer ≡ context.signer)
          × (context.config ≡ config)
          × (context.allowance_cache ≡ new_cache))
  finish_iff signer none n context = grind arith
  finish_iff signer (some (err e)) n context = grind arith
  finish_iff signer (some (ok (h, r, c))) n context = grind arith

  with_signer_iff :
      (signer : Option S) (is_cancelled : Bool) (context : FillerContext (Config X Y Z) S T U)
      → ((with_signer crates config url seen m signer is_cancelled).0 ≡ some (ok context)) ↔ (
          (signer ≡ some context.signer)
          × (is_cancelled ≡ false)
          × ((connections crates config url seen m).0
              ≡ some (ok (context.host, context.ru, context.cache)))
          × (context.config ≡ config)
          × (context.allowance_cache ≡ new_cache))
  with_signer_iff none c context = grind arith
  with_signer_iff (some signer) true context = grind arith
  with_signer_iff (some signer) false context =
      let (joined, n) = connections crates config url seen m in
      grind (arith, finish_iff signer joined n context)

  -- The service gets a context exactly when it is not cancelled, the signer connects and each of the
  -- three connections ends with success, and the context then holds what they gave, the configuration,
  -- and an empty cache of allowances.
  pub initialize_iff :
      (context : FillerContext (Config X Y Z) S T U)
      → ((initialize crates config url seen m).0 ≡ some (ok context))
        ↔ IsReady crates config url seen m context
  unfolding initialize
  initialize_iff context =
      let (there, back) = with_signer_iff seen.connect_signer seen.is_cancelled context in
      let same = connections_lem in
      (
        (λ h.
            let (signed, running, joined, settings, empty) = there h in
            let (host, ru, cache) =
              (try_join_iff seen.polled_first (host_outcome crates config url seen m)
                  (rollup_outcome crates config url seen m) (cache_outcome crates config url seen m)
                  context.host context.ru context.cache).0
                (sym same ∙ joined) in
            record {
              is_running = running;
              is_signed = signed;
              has_host = host;
              has_rollup = ru;
              has_cache = cache;
              same_config = settings;
              is_empty = empty;
            }),
        (λ r. back (
          r.is_signed,
          r.is_running,
          same
              ∙ (try_join_iff seen.polled_first (host_outcome crates config url seen m)
                    (rollup_outcome crates config url seen m)
                    (cache_outcome crates config url seen m) context.host context.ru
                    context.cache).1
                  (r.has_host, r.has_rollup, r.has_cache),
          r.same_config,
          r.is_empty,
        )),
      )
