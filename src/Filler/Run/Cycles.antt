-- ===== src/Filler/Run/Cycles.antt =====
-- What holds of the orders of every cycle holds of those of the whole loop in src/filler_task/mod.rs.
use signet_filler.Prelude.{
  ◌≡◌, Option, none, some, List, [], ◌∷◌, ltb, All, Bool-cases, Option-cases, inl, inr,
}
use signet_filler.Order.{SignedOrder}
use signet_filler.Filler.{Crates, FillerTask, FillerState, Cycle}
use signet_filler.Filler.Submit.{Submission}
use signet_filler.Filler.Submit.Trace.{submitted}
use signet_filler.Filler.Process.{process_orders}
use signet_filler.Filler.Run.{Wake, staleness_threshold, with_uptime, tick, run_loop}

-- Every order of a cycle is of this kind.
abbrev pub Every : (SignedOrder → Type 0) → Option (List Submission) → Type 0
Every P none = Unit
Every P (some sent) = All P (submitted sent)

module _ {C : Type 0} (crates : Crates C) (task : FillerTask) (P : SignedOrder → Type 0)
    (of_cycle : (cycle : Cycle) (s : FillerState C) (sent : List Submission)
      → (process_orders crates task cycle s).0 ≡ some sent
      → All P (submitted sent)) where
  tick-Every : (w : Wake) (s : FillerState C) → Every P (tick crates task w s).0
  unfolding tick submitted
  tick-Every w s = elim (Bool-cases (ltb (staleness_threshold task) w.staleness)) [
    | inl late ↦ rw late tt
    | inr timely ↦ rw timely (elim (Option-cases (process_orders crates task w.cycle s).0) [
      | inl failed ↦ rw failed tt
      | inr (sent, ran) ↦ rw ran (of_cycle w.cycle s sent ran)
    ])
  ]

  pub run_loop-Every :
      (ws : List Wake) (s : FillerState C) → All (Every P) (run_loop crates task ws s).0
  unfolding run_loop
  run_loop-Every [] s = tt
  run_loop-Every (w ∷ ws) s =
      let later = run_loop-Every ws (tick crates task w (with_uptime w s)).1 in
      elim (Bool-cases w.is_cancelled) [
        | inl stop ↦ rw stop tt
        | inr live ↦ rw live (tick-Every w (with_uptime w s), later)
      ]
