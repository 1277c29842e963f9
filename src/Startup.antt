-- ===== src/Startup.antt =====
-- src/initialization.rs: the connections of the service at startup. What the crate `backon` does with a
-- failing operation is a parameter, and so are the classifications of errors by other crates.
pub mod Retry
pub mod Settles
pub mod Funds
pub mod Context
pub mod Ready
pub mod Starts
use Prim.Native.String.{String}
use signet_filler.Prelude.{
  ℕ, ◌≡◌, Bool, true, false, ◌||◌, Option, none, some, List, [], ◌∷◌, ◌==◌, if◌then◌else◌,
}
use signet_filler.Prelude.Result.{Result, ok, err}
use signet_filler.Metrics.{Metrics, ConnectionTarget, record_connection_attempt}

-- `alloy::transports::RpcError`: a response with an error payload `P`, a transport error `K`, and the
-- errors that the source tells apart by their constructor alone.
pub data RpcError (P K : Type 0) : Type 0 where
  error_resp : P → RpcError P K
  null_resp unsupported_feature local_usage_error ser_error deser_error : RpcError P K
  transport : K → RpcError P K

-- `is_transient_transport_error`, by the methods `is_retry_err` of the payload and the transport.
unfoldable pub is_transient_transport_error :
    {P K : Type 0} → (P → Bool) → (K → Bool) → RpcError P K → Bool
is_transient_transport_error payload kind (error_resp error) = payload error
is_transient_transport_error payload kind null_resp = false
is_transient_transport_error payload kind unsupported_feature = false
is_transient_transport_error payload kind local_usage_error = false
is_transient_transport_error payload kind ser_error = false
is_transient_transport_error payload kind deser_error = false
is_transient_transport_error payload kind (transport error_kind) = kind error_kind

-- What the program reads of a `reqwest::Error`.
pub record ReqwestError : Type 0 where
  pub is_timeout : Bool
  pub is_connect : Bool
  pub is_request : Bool
  pub status : Option ℕ

-- `StatusCode::TOO_MANY_REQUESTS`
abbrev pub too_many_requests : ℕ
too_many_requests = 429

abbrev is_transient_status : (ℕ → Bool) → Option ℕ → Bool
is_transient_status is_server_error none = false
is_transient_status is_server_error (some status) =
    is_server_error status || (status == too_many_requests)

-- `is_transient_reqwest_error`, by `StatusCode::is_server_error`.
unfoldable pub is_transient_reqwest_error : (ℕ → Bool) → ReqwestError → Bool
is_transient_reqwest_error is_server_error e =
    if e.is_timeout || e.is_connect || e.is_request
    then true
    else is_transient_status is_server_error e.status

-- The settings of `backon::ExponentialBuilder`, the factor as a fraction and durations in nanoseconds;
-- without a maximal number of times it never gives up.
pub record ExponentialBuilder : Type 0 where
  pub factor : ℕ × ℕ
  pub min_delay : ℕ
  pub max_delay : ℕ
  pub max_times : Option ℕ

abbrev pub backoff : ExponentialBuilder
backoff = record {
  factor = (3, 2);
  min_delay = 100_000_000;
  max_delay = 10_000_000_000;
  max_times = none;
}

-- `operation.retry(builder).when(test).notify(f)` on the outcomes of the operation's attempts so far:
-- the errors that `f` is called with, and the outcome of the whole, if there is one yet.
abbrev pub Retrier : Type 0 → Type 0 → Type 0
Retrier E T = ExponentialBuilder → (E → Bool) → List (Result E T) → List E × Option (Result E T)

-- What the documentation of `backon` says of it, for a builder that never gives up: an attempt that
-- succeeds ends it, an error that fails the test ends it, and after any other error `f` is called and
-- the operation tried again.
pub record RetryLaws {E T : Type 0} (retry : Retrier E T) : Type 0 where
  pub waiting :
      (b : ExponentialBuilder) (test : E → Bool) → b.max_times ≡ none → retry b test [] ≡ ([], none)
  pub succeeded :
      (b : ExponentialBuilder) (test : E → Bool) (t : T) (rest : List (Result E T))
      → b.max_times ≡ none
      → retry b test (ok t ∷ rest) ≡ ([], some (ok t))
  pub gave_up :
      (b : ExponentialBuilder) (test : E → Bool) (e : E) (rest : List (Result E T))
      → b.max_times ≡ none
      → test e ≡ false
      → retry b test (err e ∷ rest) ≡ ([], some (err e))
  pub again :
      (b : ExponentialBuilder) (test : E → Bool) (e : E) (rest : List (Result E T))
      → b.max_times ≡ none
      → test e ≡ true
      → retry b test (err e ∷ rest) ≡ (e ∷ (retry b test rest).0, (retry b test rest).1)

-- `alloy`'s `BuiltInConnectionString`, with the text of the address; `other` is for what the enum may
-- get later.
pub data BuiltInConnectionString : Type 0 where
  http ws ipc : String → BuiltInConnectionString
  other : BuiltInConnectionString

pub data DisplayUrl : Type 0 where
  url path : String → DisplayUrl
  unknown : DisplayUrl

unfoldable pub from_connection : BuiltInConnectionString → DisplayUrl
from_connection (http text) = url text
from_connection (ws text) = url text
from_connection (ipc text) = path text
from_connection other = unknown

unfoldable pub display_url : DisplayUrl → String
display_url (url text) = text
display_url (path text) = text
display_url unknown = "unknown"
