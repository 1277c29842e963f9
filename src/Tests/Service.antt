-- ===== src/Tests/Service.antt =====
-- The theorems on the configuration, the allowances and the deadline at sample inputs.
use Prim.Native.String.{String}
use signet_filler.Prelude.{ℕ, ◌≡◌, ◌↔◌, refl, true, none, some, [], ◌∷◌, if◌then◌else◌}
use signet_filler.Prelude.Eq.{contains}
use signet_filler.Prelude.HashMap.{or_else}
use signet_filler.Prelude.Result.{ok}
use signet_filler.Tokens.{pair_eq, new_pair}
use signet_filler.Metrics.{no_metrics}
use signet_filler.Config.{ConfigInner, Config, ConfigCrates, check_numbers, from_env}
use signet_filler.Config.Valid.{is_ok, IsAcceptable, IsValid, from_env-IsValid, from_env_iff}
use signet_filler.Preflight.{rollup, host}
use signet_filler.Allowance.{AllowanceCache, get_cached, AllowanceRefreshTask, Allowances, refresh}
use signet_filler.Allowance.Refresh.{answer, refresh_lem}
use signet_filler.Tests.Samples.{constants, usdc}

-- Connection strings that all parse and are all for WebSockets.
abbrev config_crates : ConfigCrates String String
config_crates = record {
  parse_constants = λ chain. some constants;
  parse_connection = λ text. some text;
  to_pubsub = λ text. some text;
}

-- A loss of 20 percent, three target blocks, and else the defaults.
abbrev env : ConfigInner ℕ
env = record {
  chain_name = none;
  host_rpc = none;
  ru_rpc = none;
  block_lead_duration_ms = some 1500;
  max_loss_percent = some 20;
  healthcheck_port = none;
  target_blocks = some 3;
  max_orders_per_bundle = none;
  signer = 0;
}

abbrev config : Config String String ℕ
config = record {
  chain_name = "parmigiana";
  host_rpc = "https://host-rpc.parmigiana.signet.sh";
  ru_rpc = "wss://rpc.parmigiana.signet.sh";
  block_lead_duration = 1_500_000_000;
  max_loss_percent = 20;
  healthcheck_port = 8080;
  target_blocks = 3;
  max_orders_per_bundle = none;
  signer = 0;
  constants = constants;
}

env-runs : from_env config_crates (some env) ≡ ok config
unfolding from_env check_numbers
env-runs = refl

from_env-IsValid_example : IsValid config
from_env-IsValid_example = from_env-IsValid config_crates (some env) config env-runs

from_env_iff_example :
    (is_ok (from_env config_crates (some env)) ≡ true) ↔ IsAcceptable config_crates env
from_env_iff_example = from_env_iff config_crates env

-- Two tokens; the query of the second fails.
abbrev refresher : AllowanceRefreshTask
refresher = record { filler_address = 99; tokens = usdc ∷ new_pair 2 23 ∷ []; ru_chain_id = 2 }

abbrev allowances : Allowances
allowances rollup token owner = none
allowances host token owner = some 500

abbrev cache : AllowanceCache
cache = record { inner = (usdc, 7) ∷ (new_pair 2 23, 8) ∷ [] }

refresh_lem_example :
    get_cached (refresh refresher allowances cache no_metrics).0 (new_pair 2 23) ≡ (
      if contains (new_pair 2 23) refresher.tokens
      then or_else (answer refresher allowances (new_pair 2 23)) (get_cached cache (new_pair 2 23))
      else get_cached cache (new_pair 2 23))
refresh_lem_example = refresh_lem refresher allowances cache no_metrics (new_pair 2 23)
