-- ===== src/Filler/Timing/Window.antt =====
-- How long before a block the loop of src/filler_task/mod.rs begins a cycle.
use mathlib.Core.Option.{some-injective}
use signet_filler.Prelude.{
  ℕ, ◌+◌, ◌*◌, ◌/◌, ◌≤◌, ◌≡◌, ◌≢◌, sym, some, List, [], ltb, max, arith, Bool-cases, inl, inr,
}
use signet_filler.Filler.{Crates, FillerTask, FillerState}
use signet_filler.Filler.Submit.{Submission}
use signet_filler.Filler.Run.{Wake, staleness_threshold, tick}
use signet_filler.Filler.Timing.{
  submission_anchor_instant, tick_time, boundary, submission_anchor_instant_lem,
}

-- A tick that submits something is not late.
tick-timely :
    {C : Type 0} (crates : Crates C) (task : FillerTask) (w : Wake) (s : FillerState C)
    (sent : List Submission)
    → (tick crates task w s).0 ≡ some sent
    → sent ≢ []
    → w.staleness ≤ staleness_threshold task
unfolding tick
tick-timely crates task w s sent e ne =
    elim (Bool-cases (ltb (staleness_threshold task) w.staleness)) [
      | inl late ↦ absurd (ne (sym (some-injective _ _ (rw late at e))))
      | inr timely ↦ ground arith
    ]

-- If the loop submits anything at its k-th tick, then it began that cycle, by the system clock that runs
-- along with the instants, before the boundary of the k-th block by at least the lead duration less a
-- quarter of it, or less 0.1 seconds if that is more.
pub tick-in_time :
    {C : Type 0} (crates : Crates C) (task : FillerTask) (w : Wake) (s : FillerState C)
    (sent : List Submission) (now_system now_instant first k begun_at : ℕ)
    → submission_anchor_instant task now_system now_instant ≡ some first
    → begun_at + now_instant ≡ now_system + (tick_time task first k + w.staleness)
    → (tick crates task w s).0 ≡ some sent
    → sent ≢ []
    → begun_at + task.block_lead_duration
      ≤ boundary task k * 1_000_000_000 + max 100_000_000 (task.block_lead_duration / 4)
unfolding staleness_threshold
tick-in_time crates task w s sent now_system now_instant first k begun_at e clock sends ne =
    let at_tick = submission_anchor_instant_lem task now_system now_instant first k e in
    let timely = tick-timely crates task w s sent sends ne in omega (arith, at_tick, timely)
