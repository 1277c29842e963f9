-- ===== src/Filler/Timing.antt =====
-- When the loop of src/filler_task/mod.rs wakes up: `submission_anchor_instant`. Times of the system clock
-- are nanoseconds since the epoch, and instants are nanoseconds from an origin in the past.
pub mod Window
pub mod Expiry
use signet_filler.Prelude.{
  ℕ, ◌+◌, ◌-◌, ◌*◌, ◌≤◌, ◌≡◌, Option, none, some, leb, arith, if◌then◌else◌, not-none-some,
  Option-cases, inl, inr,
}
use signet_filler.Prelude.Result.{and_then}
use signet_filler.Filler.{FillerTask}
use signet_filler.Filler.Fetch.{as_secs}
use signet_filler.Filler.Deadline.{deadline_offset, deadline_offset-covers}

-- The differences of times; `none` is the panic of `duration_since`, and a time before the epoch or the
-- origin, about which the model says nothing.
abbrev pub checked_before : ℕ → ℕ → Option ℕ
checked_before a b = if leb b a then some (a - b) else none

-- The first tick, when the system clock shows `now_system` at the instant `now_instant`.
unfoldable pub submission_anchor_instant : FillerTask → ℕ → ℕ → Option ℕ
submission_anchor_instant task now_system now_instant =
    and_then
      (checked_before (task.constants.start_timestamp * 1_000_000_000) task.block_lead_duration)
      λ anchor.
        and_then (checked_before now_system anchor) λ elapsed. checked_before now_instant elapsed

-- The ticks of `interval_at(first_tick, slot_duration)`.
abbrev pub tick_time : FillerTask → ℕ → ℕ → ℕ
tick_time task first k = first + k * (task.constants.slot_duration * 1_000_000_000)

-- The boundary of a block, in seconds since the epoch.
abbrev pub boundary : FillerTask → ℕ → ℕ
boundary task k = task.constants.start_timestamp + k * task.constants.slot_duration

checked_before-some : (a b c : ℕ) → checked_before a b ≡ some c → a ≡ b + c
checked_before-some a b c e = ground arith

-- The k-th tick comes the lead duration before the boundary of the k-th block: when the first tick is
-- there, the system clock, as it runs along with the instants, then shows that time.
pub submission_anchor_instant_lem :
    (task : FillerTask) (now_system now_instant first k : ℕ)
    → submission_anchor_instant task now_system now_instant ≡ some first
    → tick_time task first k + now_system + task.block_lead_duration
      ≡ now_instant + boundary task k * 1_000_000_000
unfolding submission_anchor_instant
submission_anchor_instant_lem task now_system now_instant first k e =
    elim (Option-cases
      (checked_before (task.constants.start_timestamp * 1_000_000_000) task.block_lead_duration)) [
        | inl f ↦ absurd (not-none-some (rw f at e))
        | inr (anchor, f) ↦ elim (Option-cases (checked_before now_system anchor)) [
          | inl g ↦ absurd (not-none-some (rw (f, g) at e))
          | inr (elapsed, g) ↦
              let h : checked_before now_instant elapsed ≡ some first = rw (f, g) at e in
              omega (
                arith,
                checked_before-some _ _ _ f,
                checked_before-some _ _ _ g,
                checked_before-some _ _ _ h,
              )
        ]
      ]

-- If the first tick is there, a fill that is signed at the k-th tick or later, by the system clock that
-- runs along with the instants, has a deadline no earlier than the end of the last target block after
-- the k-th boundary.
pub tick-deadline :
    (task : FillerTask) (now_system now_instant first k instant signed_at : ℕ)
    → submission_anchor_instant task now_system now_instant ≡ some first
    → tick_time task first k ≤ instant
    → signed_at + now_instant ≡ now_system + instant
    → boundary task (k + task.target_blocks) ≤ as_secs signed_at + deadline_offset task
tick-deadline task now_system now_instant first k instant signed_at e late clock =
    let at_tick = submission_anchor_instant_lem task now_system now_instant first k e in
    let covered =
      deadline_offset-covers task (boundary task k) signed_at (omega (arith, at_tick)) in
    omega (arith, covered)
