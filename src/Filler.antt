-- ===== src/Filler.antt =====
-- src/filler_task/mod.rs: the task that fetches, scores, selects and submits orders in each cycle.
pub mod Chunks
pub mod Fetch
pub mod Select
pub mod Submit
pub mod Process
pub mod Deadline
pub mod Run
pub mod New
pub mod Timing
use signet_filler.Prelude.{ℕ, Bool, Option, List}
use signet_filler.Prelude.Int.{ℤ}
use signet_filler.Tokens.{Address, SystemConstants, ChainTokenPair}
use signet_filler.Order.{SignedOrder}
use signet_filler.Pricing.{FixedPricingClient}
use signet_filler.Preflight.{Balances}
use signet_filler.Metrics.{Metrics}

-- What the task calls of other crates: the hash of an order and the expiry predicate (`signet_types`
-- and `signet_orders`), and the cache of filled orders (`lru`), whose contents are of type `C`.
pub record Crates (C : Type 0) : Type 0 where
  pub order_hash : SignedOrder → ℕ
  pub not_expired_at : ℕ → SignedOrder → Bool
  pub lru_contains : C → ℕ → Bool
  pub lru_put : C → ℕ → C

-- The fields of `FillerTask` that a cycle reads.
pub record FillerTask : Type 0 where
  pub pricing_client : FixedPricingClient
  pub constants : SystemConstants
  pub filler_address : Address
  pub target_blocks : ℕ
  pub max_orders_per_bundle : Option ℕ
  -- in nanoseconds
  pub block_lead_duration : ℕ

-- The state that a cycle changes.
pub record FillerState (C : Type 0) : Type 0 where
  pub filled_orders : C
  pub metrics : Metrics

-- What the outside answers during one cycle: the clock (seconds since the epoch), the stream of
-- orders (`none` is an error of the stream), the Permit2 nonce bitmap (`none` is an RPC error), the
-- balances, the cached allowances, the submission of the n-th chunk with its bundle ids (`none` is
-- an error), and how long the cycle takes.
pub record Cycle : Type 0 where
  pub now : ℕ
  pub order_stream : List (Option SignedOrder)
  pub nonce_consumed : SignedOrder → Option Bool
  pub balances : Balances
  pub cached : ChainTokenPair → Option ℕ
  pub fill : ℕ → List SignedOrder → ℕ → Option (List ℕ)
  -- in nanoseconds
  pub elapsed : ℕ
