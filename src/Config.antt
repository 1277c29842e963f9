-- ===== src/Config.antt =====
-- src/config.rs: the configuration from environment variables, its defaults and its checks.
pub mod Valid
pub mod Help
use Prim.Native.String.{String}
use signet_filler.Prelude.{
  ℕ, ◌*◌, ◌≡◌, Bool, true, false, not, ◌&&◌, Option, none, some, leb, ltb, ◌==◌, if◌then◌else◌,
}
use signet_filler.Prelude.Result.{Result, ok, err, ◌>>=◌, ok_or, unwrap_or}
use signet_filler.Tokens.{SystemConstants}

abbrev pub default_chain_name : String
default_chain_name = "parmigiana"

abbrev pub default_host_rpc : String
default_host_rpc = "https://host-rpc.parmigiana.signet.sh"

abbrev pub default_ru_rpc : String
default_ru_rpc = "wss://rpc.parmigiana.signet.sh"

-- Durations are in nanoseconds.
abbrev pub default_block_lead_duration : ℕ
default_block_lead_duration = 2_000_000_000

abbrev pub default_max_loss_percent : ℕ
default_max_loss_percent = 10

abbrev pub default_healthcheck_port : ℕ
default_healthcheck_port = 8080

abbrev pub default_target_blocks : ℕ
default_target_blocks = 5

abbrev pub max_target_blocks : ℕ
max_target_blocks = 10

-- The variables as `ConfigInner::from_env` reads them; `S` is the configuration of the signer.
pub record ConfigInner (S : Type 0) : Type 0 where
  pub chain_name : Option String
  pub host_rpc : Option String
  pub ru_rpc : Option String
  pub block_lead_duration_ms : Option ℕ
  pub max_loss_percent : Option ℕ
  pub healthcheck_port : Option ℕ
  pub target_blocks : Option ℕ
  pub max_orders_per_bundle : Option ℕ
  pub signer : S

-- `U` is a connection string and `P` a connection string for a pub-sub provider.
pub record Config (U P S : Type 0) : Type 0 where
  pub chain_name : String
  pub host_rpc : U
  pub ru_rpc : P
  pub block_lead_duration : ℕ
  pub max_loss_percent : ℕ
  pub healthcheck_port : ℕ
  pub target_blocks : ℕ
  pub max_orders_per_bundle : Option ℕ
  pub signer : S
  pub constants : SystemConstants

-- What the function calls of other crates: the constants of a chain name, the parser of connection
-- strings, and the check that one is for WebSockets.
pub record ConfigCrates (U P : Type 0) : Type 0 where
  pub parse_constants : String → Option SystemConstants
  pub parse_connection : String → Option U
  pub to_pubsub : U → Option P

-- The messages of the errors, with the number that the message shows.
pub data ConfigError : Type 0 where
  environment invalid_chain_name invalid_host_rpc invalid_ru_rpc ru_rpc_not_ws : ConfigError
  max_loss_percent_out_of_range target_blocks_out_of_range : ℕ → ConfigError
  zero_max_orders_per_bundle : ConfigError

abbrev pub is_some_zero : Option ℕ → Bool
is_some_zero none = false
is_some_zero (some n) = n == 0

abbrev pub lead_duration : Option ℕ → ℕ
lead_duration none = default_block_lead_duration
lead_duration (some ms) = ms * 1_000_000

-- The part of `from_env` after the connection strings.
unfoldable pub check_numbers :
    {U P S : Type 0} → SystemConstants → U → P → ConfigInner S → Result ConfigError (Config U P S)
check_numbers constants host_rpc ru_rpc inner =
    let max_loss_percent = unwrap_or inner.max_loss_percent default_max_loss_percent in
    let target_blocks = unwrap_or inner.target_blocks default_target_blocks in
    if ltb 100 max_loss_percent
    then err (max_loss_percent_out_of_range max_loss_percent)
    else if not (leb 1 target_blocks && leb target_blocks max_target_blocks)
    then err (target_blocks_out_of_range target_blocks)
    else if is_some_zero inner.max_orders_per_bundle
    then err zero_max_orders_per_bundle
    else ok (record {
      chain_name = unwrap_or inner.chain_name default_chain_name;
      host_rpc = host_rpc;
      ru_rpc = ru_rpc;
      block_lead_duration = lead_duration inner.block_lead_duration_ms;
      max_loss_percent = max_loss_percent;
      healthcheck_port = unwrap_or inner.healthcheck_port default_healthcheck_port;
      target_blocks = target_blocks;
      max_orders_per_bundle = inner.max_orders_per_bundle;
      signer = inner.signer;
      constants = constants;
    })

-- `environment` is the result of `ConfigInner::from_env`.
unfoldable pub from_env :
    {U P S : Type 0} → ConfigCrates U P → Option (ConfigInner S) → Result ConfigError (Config U P S)
unfolding check_numbers
from_env crates env = do
  inner ← ok_or env environment
  constants ←
      ok_or (crates.parse_constants (unwrap_or inner.chain_name default_chain_name))
        invalid_chain_name
  host_rpc ←
      ok_or (crates.parse_connection (unwrap_or inner.host_rpc default_host_rpc)) invalid_host_rpc
  ru_connection ←
      ok_or (crates.parse_connection (unwrap_or inner.ru_rpc default_ru_rpc)) invalid_ru_rpc
  ru_rpc ← ok_or (crates.to_pubsub ru_connection) ru_rpc_not_ws
  check_numbers constants host_rpc ru_rpc inner

-- What `wrap_err` puts around the error.
pub record Unconfigured : Type 0 where
  pub cause : ConfigError

abbrev wrap_err : {A : Type 0} → Result ConfigError A → Result Unconfigured A
wrap_err (ok config) = ok config
wrap_err (err e) = err (record { cause = e })

unfoldable pub config_from_env :
    {U P S : Type 0}
    → ConfigCrates U P
    → Option (ConfigInner S)
    → Result Unconfigured (Config U P S)
unfolding from_env
config_from_env crates env = wrap_err (from_env crates env)
