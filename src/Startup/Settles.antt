-- ===== src/Startup/Settles.antt =====
-- When a connection of src/initialization.rs is settled, and with which outcome.
use signet_filler.Prelude.{
  ℕ, ◌+◌, ◌≡◌, refl, ◌∙◌, Bool, true, false, some, List, [], ◌∷◌, ◌++◌, map, length, All, arith,
}
use signet_filler.Prelude.Result.{Result, ok, err}
use signet_filler.Metrics.{
  Metrics, ConnectionTarget, host_provider, rollup_provider, tx_cache, record_connection_attempt,
}
use signet_filler.Startup.{RpcError, is_transient_transport_error, backoff, Retrier, RetryLaws}
use signet_filler.Startup.Retry.{wrap, record_attempts, retry_with, connect_provider_with_retry}

-- The counter of a connection's retries.
abbrev pub retries : ConnectionTarget → Metrics → ℕ
retries host_provider m = m.host_provider_retries
retries rollup_provider m = m.rollup_provider_retries
retries tx_cache m = m.tx_cache_retries

retries-record :
    (t : ConnectionTarget) (m : Metrics)
    → retries t (record_connection_attempt t m) ≡ retries t m + 1
unfolding record_connection_attempt
retries-record host_provider m = refl
retries-record rollup_provider m = refl
retries-record tx_cache m = refl

record_attempts-retries :
    {E : Type 0} (t : ConnectionTarget) (es : List E) (m : Metrics)
    → retries t (record_attempts t es m) ≡ retries t m + length es
unfolding record_attempts
record_attempts-retries t [] m = omega arith
record_attempts-retries t (e ∷ es) m =
    omega (arith, record_attempts-retries t es (record_connection_attempt t m), retries-record t m)

-- An outcome that ends the retries.
abbrev pub IsFinal : {E T : Type 0} → (E → Bool) → Result E T → Type 0
IsFinal test (ok t) = Unit
IsFinal test (err e) = test e ≡ false

-- The attempts come to a success, before which every attempt fails with an error that passes the test.
pub data Reaches {E T : Type 0} (test : E → Bool) (t : T) : List (Result E T) → Type 0 where
  now : (rest : List (Result E T)) → Reaches test t (ok t ∷ rest)
  later :
      (e : E) (rest : List (Result E T))
      → test e ≡ true
      → Reaches test t rest
      → Reaches test t (err e ∷ rest)

module _ {E T : Type 0} (retry : Retrier E T) (laws : RetryLaws retry) (test : E → Bool) where
  retry-final :
      (r : Result E T) (rest : List (Result E T))
      → IsFinal test r
      → retry backoff test (r ∷ rest) ≡ ([], some r)
  retry-final (ok t) rest h = laws.succeeded backoff test t rest refl
  retry-final (err e) rest h = laws.gave_up backoff test e rest refl h

  pub retry-reaches :
      (es : List E) (r : Result E T) (rest : List (Result E T))
      → All (λ e. test e ≡ true) es
      → IsFinal test r
      → retry backoff test (map err es ++ (r ∷ rest)) ≡ (es, some r)
  retry-reaches [] r rest h f = retry-final r rest f
  retry-reaches (e ∷ es) r rest h f =
      laws.again backoff test e (map err es ++ (r ∷ rest)) refl h.0
      ∙ rw (retry-reaches es r rest h.1 f) refl

  pub retry-Reaches :
      (t : T) (attempts : List (Result E T))
      → Reaches test t attempts
      → (retry backoff test attempts).1 ≡ some (ok t)
  retry-Reaches t attempts (now rest) = ground (arith, laws.succeeded backoff test t rest refl)
  retry-Reaches t attempts (later e rest transient r) =
      ground (arith, laws.again backoff test e rest refl transient, retry-Reaches t rest r)

module _ {P K T : Type 0} (payload : P → Bool) (kind : K → Bool) (retry : Retrier (RpcError P K) T)
    (laws : RetryLaws retry) (target : ConnectionTarget) (m : Metrics) where
  -- A connection ends with the first attempt that succeeds or fails with an error that is not
  -- transient, and has then counted each transient error before it once; under what the documentation
  -- of `backon` says of its retries.
  pub connect-reaches :
      (es : List (RpcError P K)) (r : Result (RpcError P K) T)
      (rest : List (Result (RpcError P K) T))
      → All (λ e. is_transient_transport_error payload kind e ≡ true) es
      → IsFinal (is_transient_transport_error payload kind) r
      → let c =
          connect_provider_with_retry payload kind retry target (map err es ++ (r ∷ rest)) m in
        (c.0 ≡ some (wrap target r)) × (retries target c.1 ≡ retries target m + length es)
  unfolding connect_provider_with_retry retry_with
  connect-reaches es r rest h f =
      rw (retry-reaches retry laws (is_transient_transport_error payload kind) es r rest h f)
        (refl, record_attempts-retries target es m)
