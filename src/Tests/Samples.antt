-- ===== src/Tests/Samples.antt =====
-- Chain constants, orders and a cycle for the tests.
use signet_filler.Prelude.{ℕ, some, List, [], ◌∷◌, leb, ◌==◌}
use signet_filler.Prelude.Eq.{nat_eq, contains}
use signet_filler.Tokens.{SystemConstants, ChainTokenPair, new_pair}
use signet_filler.Order.{SignedOrder}
use signet_filler.Pricing.{FixedPricingClient, new_client}
use signet_filler.Metrics.{no_metrics}
use signet_filler.Filler.{Crates, FillerTask, FillerState, Cycle}

abbrev pub constants : SystemConstants
constants = record {
  host_chain_id = 1;
  ru_chain_id = 2;
  host_tokens = record { usdc = 11; usdt = 12; weth = 13; wbtc = 14 };
  rollup_tokens = record { weth = 23; wbtc = 24 };
  native_token_address = 0;
  parmigiana_wrapped = 31;
  mainnet_wrapped = 32;
  slot_duration = 12;
  start_timestamp = 1000;
}

abbrev pub client : FixedPricingClient
client = new_client constants "parmigiana" 10

-- An order of `given` raw USDC for `asked` raw USDC on the host chain.
abbrev pub usdc_order : ℕ → ℕ → ℕ → SignedOrder
usdc_order nonce given asked = record {
  permitted = record { token = 11; amount = given } ∷ [];
  nonce = nonce;
  deadline = 1000;
  owner = 77;
  signature = [];
  outputs = record { token = 11; amount = asked; recipient = 77; chain_id = 1 } ∷ [];
}

abbrev pub usdc : ChainTokenPair
usdc = new_pair 1 11

abbrev pub crates : Crates (List ℕ)
crates = record {
  order_hash = λ o. o.nonce;
  not_expired_at = λ t o. leb t o.deadline;
  lru_contains = λ c h. contains h c;
  lru_put = λ c h. h ∷ c;
}

abbrev pub task : FillerTask
task = record {
  pricing_client = client;
  constants = constants;
  filler_address = 99;
  target_blocks = 5;
  max_orders_per_bundle = some 1;
  block_lead_duration = 2_000_000_000;
}

-- Order 2 is consumed, order 4 is in the cache of filled orders, and the balance covers two others.
abbrev pub cycle : Cycle
cycle = record {
  now = 100;
  order_stream =
      some (usdc_order 1 1_000_000 900_000)
      ∷ some (usdc_order 2 1_000_000 100_000)
      ∷ some (usdc_order 3 1_000_000 950_000)
      ∷ some (usdc_order 4 1_000_000 950_000)
      ∷ some (usdc_order 5 1_000_000 100_000)
      ∷ [];
  nonce_consumed = λ o. some (o.nonce == 2);
  balances = record { get_balance = λ ch a. some 5; balance_of = λ ch t a. some 1_000_000 };
  cached = λ key. some 1_000_000;
  fill = λ index orders blocks. some (index ∷ []);
  elapsed = 3_000_000;
}

abbrev pub state : FillerState (List ℕ)
state = record { filled_orders = 4 ∷ []; metrics = no_metrics }
