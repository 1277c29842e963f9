-- ===== src/Filler/Run/Bounded.antt =====
-- The loop of src/filler_task/mod.rs with its bounded cache of filled orders against the one with an ideal
-- cache.
use signet_filler.Prelude.{
  ℕ, ◌+◌, ◌≤◌, ◌≡◌, refl, ap, Option, none, some, List, [], ◌∷◌, length, arith, ltb, Bool-cases,
  inl, inr,
}
use signet_filler.Prelude.Int.{ℤ}
use signet_filler.Order.{SignedOrder}
use signet_filler.Metrics.{record_cycle, record_missed_window, record_uptime}
use signet_filler.Filler.{Crates, FillerTask, FillerState, Cycle}
use signet_filler.Filler.Fetch.{fetch_and_score_orders}
use signet_filler.Filler.Select.{select_fillable_orders}
use signet_filler.Filler.Submit.{submit_bundles}
use signet_filler.Filler.Process.{submit_selected, after_fetch, process_orders}
use signet_filler.Filler.Process.Filled.{fetch-length}
use signet_filler.Filler.Run.{Wake, staleness_threshold, with_uptime, tick, run_loop}
use signet_filler.Filler.Run.Ideal.{IdealCache, ideal, Agree, fetch-ideal, select-ideal}
use signet_filler.Filler.Run.Memory.{LruLaws, total_orders, tick-keeps}

module _ {C : Type 0} (crates : Crates C) (task : FillerTask) (cycle : Cycle) where
  submit_selected-ideal :
      (orders : List SignedOrder) (s : FillerState C) (t : FillerState IdealCache)
      → Agree crates s t
      → let r = submit_selected crates task cycle (orders, s) in
        let r' = submit_selected (ideal crates) task cycle (orders, t) in
        (r.0 ≡ r'.0) × Agree crates r.1 r'.1
  unfolding submit_selected
  submit_selected-ideal [] s t same = (refl, same)
  submit_selected-ideal (o ∷ os) s t same =
      let sent = ap (submit_bundles task cycle (o ∷ os)) same.metrics in
      (ap (λ r. r.0) sent, record { hashes = same.hashes; metrics = ap (λ r. r.1) sent })

  module _ (size : C → ℕ) (capacity : ℕ) (laws : LruLaws crates size capacity) where
    after_fetch-ideal :
        (scored : Option (List (ℤ × SignedOrder))) (s : FillerState C) (t : FillerState IdealCache)
        → ((xs : List (ℤ × SignedOrder))
            → scored ≡ some xs
            → size s.filled_orders + length xs ≤ capacity)
        → Agree crates s t
        → let r = after_fetch crates task cycle scored s in
          let r' = after_fetch (ideal crates) task cycle scored t in
          (r.0 ≡ r'.0) × Agree crates r.1 r'.1
    unfolding after_fetch
    after_fetch-ideal none s t room same = (refl, same)
    after_fetch-ideal (some []) s t room same = (refl, same)
    after_fetch-ideal (some (x ∷ xs)) s t room same =
        let (chosen, s') = select_fillable_orders crates task cycle (x ∷ xs) s in
        let t' = (select_fillable_orders (ideal crates) task cycle (x ∷ xs) t).1 in
        let selected =
          select-ideal crates task size capacity laws cycle (x ∷ xs) s t (room (x ∷ xs) refl)
            same in
        let sent = submit_selected-ideal chosen s' t' selected.1 in
        rw (← selected.0) (ap some sent.0, sent.1)

    process_orders-ideal :
        (s : FillerState C) (t : FillerState IdealCache)
        → size s.filled_orders + length cycle.order_stream ≤ capacity
        → Agree crates s t
        → let r = process_orders crates task cycle s in
          let r' = process_orders (ideal crates) task cycle t in
          (r.0 ≡ r'.0) × Agree crates r.1 r'.1
    unfolding process_orders
    process_orders-ideal s t room same =
        let (scored, m) = fetch_and_score_orders crates task cycle s in
        let ended =
          after_fetch-ideal scored (record s { metrics = m }) (record t { metrics = m })
            (λ xs e. omega (arith, fetch-length crates task cycle s xs e))
            (record { hashes = same.hashes; metrics = refl }) in
        rw (← fetch-ideal crates task cycle s t same) (
          ended.0,
          record {
            hashes = ended.1.hashes;
            metrics = ap (record_cycle cycle.elapsed) ended.1.metrics;
          },
        )

module _ {C : Type 0} (crates : Crates C) (size : C → ℕ) (capacity : ℕ)
    (laws : LruLaws crates size capacity) (task : FillerTask) where
  tick-ideal :
      (w : Wake) (s : FillerState C) (t : FillerState IdealCache)
      → size s.filled_orders + length w.cycle.order_stream ≤ capacity
      → Agree crates s t
      → let r = tick crates task w s in
        let r' = tick (ideal crates) task w t in (r.0 ≡ r'.0) × Agree crates r.1 r'.1
  unfolding tick
  tick-ideal w s t room same = elim (Bool-cases (ltb (staleness_threshold task) w.staleness)) [
    | inl late ↦
        rw late
          (refl, record { hashes = same.hashes; metrics = ap record_missed_window same.metrics })
    | inr timely ↦
        rw timely (process_orders-ideal crates task w.cycle size capacity laws s t room same)
  ]

  -- As long as the cache of filled orders has room for all the orders of the wake-ups, the loop makes the
  -- same submissions, and ends with the same metrics and the same hashes in the cache, as with a cache
  -- that keeps every hash; under what the documentation of `lru` says of the cache, and from caches with
  -- the same hashes.
  pub run_loop-ideal :
      (ws : List Wake) (s : FillerState C) (t : FillerState IdealCache)
      → size s.filled_orders + total_orders ws ≤ capacity
      → Agree crates s t
      → let r = run_loop crates task ws s in
        let r' = run_loop (ideal crates) task ws t in (r.0 ≡ r'.0) × Agree crates r.1 r'.1
  unfolding run_loop total_orders
  run_loop-ideal [] s t room same = (refl, same)
  run_loop-ideal (w ∷ ws) s t room same =
      let now = with_uptime w s in
      let now' = with_uptime w t in
      let first =
        tick-ideal w now now' (omega arith)
          (record { hashes = same.hashes; metrics = ap (record_uptime w.uptime) same.metrics }) in
      let kept = tick-keeps crates size capacity laws task w now 0 (omega arith) in
      let later =
        run_loop-ideal ws (tick crates task w now).1 (tick (ideal crates) task w now').1
          (omega (arith, kept.0)) first.1 in
      elim (Bool-cases w.is_cancelled) [
        | inl stop ↦ rw stop (refl, same)
        | inr live ↦ rw (live, first.0, later.0) (refl, later.1)
      ]
