-- ===== src/Filler/Process.antt =====
-- `process_orders` of src/filler_task/mod.rs: one cycle.
pub mod Realistic
pub mod Safety
pub mod Kept
pub mod Filled
pub mod Accounting
pub mod Outcome
pub mod Complete
pub mod Determined
use signet_filler.Prelude.{ℕ, Option, none, some, List, [], ◌∷◌, is_empty, if◌then◌else◌}
use signet_filler.Prelude.Int.{ℤ}
use signet_filler.Order.{SignedOrder}
use signet_filler.Metrics.{Metrics, record_cycle}
use signet_filler.Filler.{Crates, FillerTask, FillerState, Cycle}
use signet_filler.Filler.Fetch.{fetch_and_score_orders}
use signet_filler.Filler.Select.{select_fillable_orders}
use signet_filler.Filler.Submit.{Submission, submit_bundles}

module _ {C : Type 0} (crates : Crates C) (task : FillerTask) (cycle : Cycle) where
  -- The submission of the selected orders, if there are any.
  unfoldable pub submit_selected :
      List SignedOrder × FillerState C → List Submission × FillerState C
  unfolding submit_bundles
  submit_selected (orders, s) =
      if is_empty orders
      then ([], s)
      else (let (sent, m) = submit_bundles task cycle orders s.metrics in
          (sent, record s { metrics = m }))

  -- From the result of `fetch_and_score_orders`: `none` is its error, which ends the cycle.
  unfoldable pub after_fetch :
      Option (List (ℤ × SignedOrder)) → FillerState C → Option (List Submission) × FillerState C
  unfolding submit_selected select_fillable_orders
  after_fetch none s = (none, s)
  after_fetch (some scored) s =
      if is_empty scored
      then (some [], s)
      else (let (sent, s') = submit_selected (select_fillable_orders crates task cycle scored s) in
          (some sent, s'))

  -- The cycle guard counts the cycle on every path.
  unfoldable pub process_orders : FillerState C → Option (List Submission) × FillerState C
  unfolding fetch_and_score_orders after_fetch record_cycle
  process_orders s =
      let (scored, m) = fetch_and_score_orders crates task cycle s in
      let (sent, s') = after_fetch scored (record s { metrics = m }) in
      (sent, record s' { metrics = record_cycle cycle.elapsed s'.metrics })
