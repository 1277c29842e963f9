-- ===== src/Filler/Deadline.antt =====
-- The Permit2 deadline that `FillerTask::new` of src/filler_task/mod.rs sets for the fills.
use native.Mathlib.Nat.{mul-le-mul}
use signet_filler.Prelude.{ℕ, ◌+◌, ◌*◌, ◌^◌, ◌≤◌, ◌<◌, ◌≡◌, arith}
use signet_filler.Filler.{FillerTask}
use signet_filler.Filler.Fetch.{as_secs, deadline_drift_buffer_secs}

-- Seconds that are added to the time of signing.
unfoldable pub deadline_offset : FillerTask → ℕ
deadline_offset task =
    as_secs task.block_lead_duration
    + task.target_blocks * task.constants.slot_duration
    + deadline_drift_buffer_secs

-- If a fill is signed no earlier than the lead duration before a block boundary (times in nanoseconds,
-- the boundary in seconds), its deadline is no earlier than the end of the last target block.
pub deadline_offset-covers :
    (task : FillerTask) (boundary signed_at : ℕ)
    → boundary * 1_000_000_000 ≤ signed_at + task.block_lead_duration
    → boundary + task.target_blocks * task.constants.slot_duration
      ≤ as_secs signed_at + deadline_offset task
unfolding deadline_offset
deadline_offset-covers task boundary signed_at h = omega arith

-- With a lead duration from a `u64` of milliseconds, at most ten target blocks and a slot duration
-- below 2^60 seconds, the sum does not overflow `u64`.
pub deadline_offset-fits :
    (task : FillerTask) (ms : ℕ)
    → task.block_lead_duration ≡ ms * 1_000_000
    → ms < 2 ^ 64
    → task.target_blocks ≤ 10
    → task.constants.slot_duration < 2 ^ 60
    → deadline_offset task < 2 ^ 64
unfolding deadline_offset
deadline_offset-fits task ms e h b s =
    let short : task.constants.slot_duration ≤ 2 ^ 60 = omega arith in
    omega (arith, mul-le-mul b short)
