-- ===== src/Filler/Run.antt =====
-- `run_loop` of src/filler_task/mod.rs: the wake-ups of the loop, one after the other.
pub mod Ticks
pub mod Memory
pub mod Cycles
pub mod Ideal
pub mod Bounded
pub mod History
use signet_filler.Prelude.{ℕ, ◌/◌, Bool, Option, none, some, List, [], ◌∷◌, ltb, max, if◌then◌else◌}
use signet_filler.Metrics.{record_missed_window, record_uptime}
use signet_filler.Filler.{Crates, FillerTask, FillerState, Cycle}
use signet_filler.Filler.Submit.{Submission}
use signet_filler.Filler.Process.{process_orders}

-- What `select!` finds when the loop wakes up: whether the token is cancelled, which comes first, and
-- else how late the tick is seen and how long the service runs, in nanoseconds, and what the outside
-- answers in the cycle.
pub record Wake : Type 0 where
  pub is_cancelled : Bool
  pub staleness : ℕ
  pub uptime : ℕ
  pub cycle : Cycle

-- `Duration::from_millis(100).max(self.block_lead_duration / 4)`
unfoldable pub staleness_threshold : FillerTask → ℕ
staleness_threshold task = max 100_000_000 (task.block_lead_duration / 4)

abbrev pub with_uptime : {C : Type 0} → Wake → FillerState C → FillerState C
with_uptime w s = record s { metrics = record_uptime w.uptime s.metrics }

module _ {C : Type 0} (crates : Crates C) (task : FillerTask) where
  -- One tick; `none` is a cycle that ends in an error, which is logged.
  unfoldable pub tick : Wake → FillerState C → Option (List Submission) × FillerState C
  unfolding staleness_threshold record_missed_window process_orders
  tick w s =
      if ltb (staleness_threshold task) w.staleness
      then (some [], record s { metrics = record_missed_window s.metrics })
      else process_orders crates task w.cycle s

  -- The outcome of each tick up to the cancellation.
  unfoldable pub run_loop :
      List Wake → FillerState C → List (Option (List Submission)) × FillerState C
  unfolding tick record_uptime
  run_loop [] s = ([], s)
  run_loop (w ∷ ws) s =
      let (sent, s') = tick w (with_uptime w s) in
      let (later, s'') = run_loop ws s' in if w.is_cancelled then ([], s) else (sent ∷ later, s'')
