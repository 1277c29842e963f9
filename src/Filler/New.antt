-- ===== src/Filler/New.antt =====
-- `FillerTask::new` of src/filler_task/mod.rs, and what a task that is built from the configuration
-- loses at most.
use Prim.Native.String.{String}
use signet_filler.Prelude.{ℕ, ◌-◌, ◌*◌, ◌≤◌, ◌≡◌, sym, ap, ◌∙◌, Option, some, List, All, All-weaken}
use signet_filler.Prelude.Result.{ok}
use signet_filler.Tokens.{Address}
use signet_filler.Order.{SignedOrder}
use signet_filler.Metrics.{Metrics}
use signet_filler.Config.{Config, ConfigInner, ConfigCrates, from_env}
use signet_filler.Config.Valid.{from_env-IsValid}
use signet_filler.Pricing.{FixedPricingClient, new_client, profitability}
use signet_filler.Pricing.Table.{new_client-IsPriced}
use signet_filler.Pricing.Accept.{Verdict, profitability-Verdict, total_in, total_out}
use signet_filler.Startup.{RpcError}
use signet_filler.Startup.Context.{FillerContext, Outside, StartupCrates, initialize}
use signet_filler.Startup.Ready.{initialize_iff}
use signet_filler.Filler.{Crates, FillerTask, FillerState, Cycle}
use signet_filler.Filler.Submit.{Submission}
use signet_filler.Filler.Submit.Trace.{submitted}
use signet_filler.Filler.Process.{process_orders}
use signet_filler.Filler.Run.{Wake, run_loop}
use signet_filler.Filler.Run.Cycles.{Every, run_loop-Every}
use signet_filler.Filler.Process.Safety.{process_orders-IsSafe}

abbrev pub filled_orders_cache_size : ℕ
filled_orders_cache_size = 10240

-- The task of a context; `address` is that of a signer.
unfoldable pub new_filler :
    {X Y Z S T U : Type 0} → (S → Address) → FillerContext (Config X Y Z) S T U → FillerTask
new_filler address context =
    let config = context.config in
    record {
      pricing_client = new_client config.constants config.chain_name config.max_loss_percent;
      constants = config.constants;
      filler_address = address context.signer;
      target_blocks = config.target_blocks;
      max_orders_per_bundle = config.max_orders_per_bundle;
      block_lead_duration = config.block_lead_duration;
    }

-- The state of a new task, by the function that makes a cache of a size.
unfoldable pub new_state : {C : Type 0} → (ℕ → C) → Metrics → FillerState C
new_state new_lru m = record { filled_orders = new_lru filled_orders_cache_size; metrics = m }

-- What the order gives and asks for is known, and it gives at least what it asks for less `loss`
-- percent.
abbrev pub IsWithinLoss : ℕ → FixedPricingClient → SignedOrder → Type 0
IsWithinLoss loss client order =
    (i : ℕ) × (o : ℕ) × (total_in client order ≡ some i)
    × (total_out client order ≡ some o)
    × (o * (100 - loss) ≤ i * 100)

scored-IsWithinLoss :
    {U P S : Type 0} (crates : ConfigCrates U P) (env : Option (ConfigInner S))
    (config : Config U P S) (order : SignedOrder)
    → from_env crates env ≡ ok config
    → let client = new_client config.constants config.chain_name config.max_loss_percent in
      (m : _)
      → profitability client order ≡ ok (some m)
      → IsWithinLoss config.max_loss_percent client order
unfolding new_client
scored-IsWithinLoss crates env config order e m scored =
    let client = new_client config.constants config.chain_name config.max_loss_percent in
    let v : Verdict client order (ok (some m)) = rw scored at (
      profitability-Verdict client order
        (new_client-IsPriced config.constants config.chain_name config.max_loss_percent)
        ((from_env-IsValid crates env config e).loss_le)) in
    let (i, o, ei, eo, j) = v in (i, o, ei, eo, j.0)

module _ {P K S T U X Y Z C : Type 0} (config_crates : ConfigCrates X Y)
    (env : Option (ConfigInner Z)) (config : Config X Y Z) (startup : StartupCrates P K S T U)
    (url : String) (seen : Outside (RpcError P K) S T)
    (context : FillerContext (Config X Y Z) S T U) (m : Metrics) where
  submitted-IsWithinLoss :
      from_env config_crates env ≡ ok config
      → (initialize startup config url seen m).0 ≡ some (ok context)
      → (crates : Crates C) (cycle : Cycle) (s : FillerState C) (sent : List Submission)
      → let task = new_filler startup.address context in
        (process_orders crates task cycle s).0 ≡ some sent
        → All (IsWithinLoss config.max_loss_percent task.pricing_client) (submitted sent)
  unfolding new_filler
  submitted-IsWithinLoss loaded started crates cycle s sent ran =
      let task = new_filler startup.address context in
      let same = ((initialize_iff startup config url seen m context).0 started).same_config in
      All-weaken _ _ (submitted sent)
        (λ o safe.
          let (margin, scored) = safe.promising.scored in
          let (i, o', ei, eo, j) =
            scored-IsWithinLoss config_crates env context.config o (loaded ∙ ap ok (sym same))
              margin scored in
          (i, o', ei, eo, rw (ap (λ c. c.max_loss_percent) same) at j))
        (process_orders-IsSafe crates task cycle s sent ran)

  -- Every order that the service submits while its loop runs, with a configuration that it loaded and a
  -- context that it got from its initialization, gives at least what it asks for less the configured
  -- percentage of loss.
  pub run_loop-IsWithinLoss :
      from_env config_crates env ≡ ok config
      → (initialize startup config url seen m).0 ≡ some (ok context)
      → (crates : Crates C) (ws : List Wake) (s : FillerState C)
      → let task = new_filler startup.address context in
        All
          (Every (IsWithinLoss config.max_loss_percent task.pricing_client))
          (run_loop crates task ws s).0
  run_loop-IsWithinLoss loaded started crates ws s =
      let task = new_filler startup.address context in
      run_loop-Every crates task (IsWithinLoss config.max_loss_percent task.pricing_client)
        (submitted-IsWithinLoss loaded started crates) ws s
