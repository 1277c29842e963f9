-- ===== src/Filler/Timing/Expiry.antt =====
-- The expiry filter of `fetch_and_score_orders` in src/filler_task/mod.rs against the block that a cycle is
-- for.
use mathlib.Core.Option.{some-injective}
use signet_filler.Prelude.{
  ◌==◌, ==_iff, if◌then◌else◌, ℕ, ◌+◌, ◌%◌, ◌≤◌, ◌≡◌, true, some, List, ltb, arith, All, All-weaken,
  Bool-cases, inl, inr,
}
use signet_filler.Order.{SignedOrder}
use signet_filler.Filler.{Crates, FillerTask, FillerState}
use signet_filler.Filler.Fetch.{as_secs, earliest_fill_timestamp}
use signet_filler.Filler.Submit.{Submission}
use signet_filler.Filler.Submit.Trace.{submitted}
use signet_filler.Filler.Process.Safety.{process_orders-IsSafe}
use signet_filler.Filler.Run.{Wake, staleness_threshold, tick}
use signet_filler.Filler.Timing.{
  submission_anchor_instant, tick_time, boundary, submission_anchor_instant_lem,
}

-- What the documentation of `signet_orders` says of `not_expired_at`: it holds for the orders whose
-- deadline is not before the time.
abbrev pub ComparesDeadlines : {C : Type 0} → Crates C → Type 0
ComparesDeadlines crates =
    (t : ℕ) (o : SignedOrder) → crates.not_expired_at t o ≡ true → t ≤ o.deadline

-- The orders are valid at a time, up to a number of seconds.
abbrev pub AreValidAt : ℕ → ℕ → List SignedOrder → Type 0
AreValidAt time extra orders = All (λ o. time ≤ o.deadline + extra) orders

-- The seconds by which the filter is wide: the code takes whole seconds of the clock and of the lead
-- duration, and a part of a second in the lead adds one.
abbrev pub slack : FillerTask → ℕ
slack task = if task.block_lead_duration % 1_000_000_000 == 0 then 5 else 6

-- A cycle that reads the clock at the k-th tick or later asks for a deadline that is not before the
-- boundary by more than the slack.
earliest-boundary :
    (task : FillerTask) (now_system now_instant first k instant read_at : ℕ)
    → submission_anchor_instant task now_system now_instant ≡ some first
    → tick_time task first k ≤ instant
    → read_at + now_instant ≡ now_system + instant
    → boundary task k ≤ earliest_fill_timestamp task (as_secs read_at) + slack task
unfolding earliest_fill_timestamp
earliest-boundary task now_system now_instant first k instant read_at e late clock =
    let at_tick = submission_anchor_instant_lem task now_system now_instant first k e in
    elim (Bool-cases (task.block_lead_duration % 1_000_000_000 == 0)) [
      | inl whole ↦
          let exact : task.block_lead_duration % 1_000_000_000 ≡ 0 = (==_iff _ _).0 whole in
          rw whole (omega (arith, at_tick))
      | inr part ↦ rw part (omega (arith, at_tick))
    ]

submitted-AreValidAt :
    {C : Type 0} (crates : Crates C) (task : FillerTask) (w : Wake) (s : FillerState C)
    (sent : List Submission) (time extra : ℕ)
    → ComparesDeadlines crates
    → time ≤ earliest_fill_timestamp task w.cycle.now + extra
    → (tick crates task w s).0 ≡ some sent
    → AreValidAt time extra (submitted sent)
unfolding tick submitted
submitted-AreValidAt crates task w s sent time extra compares early e =
    elim (Bool-cases (ltb (staleness_threshold task) w.staleness)) [
      | inl late ↦ rw (← some-injective _ _ (rw late at e)) tt
      | inr timely ↦
          All-weaken _ _ (submitted sent)
            (λ o safe. omega (
              arith,
              early,
              compares (earliest_fill_timestamp task w.cycle.now) o safe.promising.timely,
            ))
            (process_orders-IsSafe crates task w.cycle s sent (rw timely at e))
    ]

-- Every order that the loop submits at its k-th tick has a deadline no earlier than five seconds before
-- the boundary of the k-th block, or six if the lead duration is not in whole seconds; if the cycle reads
-- the system clock at the tick or later and the clock runs along with the instants, and under what the
-- documentation of `signet_orders` says of the expiry predicate.
pub tick-AreValidAt :
    {C : Type 0} (crates : Crates C) (task : FillerTask) (w : Wake) (s : FillerState C)
    (sent : List Submission) (now_system now_instant first k instant read_at : ℕ)
    → ComparesDeadlines crates
    → submission_anchor_instant task now_system now_instant ≡ some first
    → tick_time task first k ≤ instant
    → read_at + now_instant ≡ now_system + instant
    → w.cycle.now ≡ as_secs read_at
    → (tick crates task w s).0 ≡ some sent
    → AreValidAt (boundary task k) (slack task) (submitted sent)
tick-AreValidAt crates task w s sent now_system now_instant first k instant read_at compares e late
      clock reads sends =
    let early =
      earliest-boundary task now_system now_instant first k instant read_at e late clock in
    submitted-AreValidAt crates task w s sent (boundary task k) (slack task) compares
      (rw reads early) sends
