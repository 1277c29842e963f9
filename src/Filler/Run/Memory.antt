-- ===== src/Filler/Run/Memory.antt =====
-- What the cache of filled orders in src/filler_task/mod.rs keeps out of later cycles.
use signet_filler.Prelude.{
  ℕ, ◌+◌, ◌≤◌, ◌<◌, ◌≡◌, ◌≢◌, ◌⊎◌, true, false, Option, some, List, [], ◌∷◌, map, length, ltb,
  arith, All, All-weaken, Bool-cases, Option-cases, inl, inr,
}
use signet_filler.Prelude.Int.{ℤ}
use signet_filler.Order.{SignedOrder}
use signet_filler.Filler.{Crates, FillerTask, FillerState, Cycle}
use signet_filler.Filler.Fetch.{fetch_and_score_orders}
use signet_filler.Filler.Select.{note_consumed, check_filled, check_all}
use signet_filler.Filler.Submit.{Submission}
use signet_filler.Filler.Submit.Trace.{submitted}
use signet_filler.Filler.Process.{process_orders}
use signet_filler.Filler.Process.Safety.{process_orders-IsSafe}
use signet_filler.Filler.Run.Cycles.{Every}
use signet_filler.Filler.Run.{Wake, staleness_threshold, with_uptime, tick, run_loop}
use signet_filler.Filler.Process.Filled.{fetch-length, process_orders-filled, process_orders-failed}

-- What the documentation of the crate `lru` says of a cache with a capacity: an insertion is found
-- again, it evicts nothing as long as there is room, and nothing is found that was not inserted.
pub record LruLaws {C : Type 0} (crates : Crates C) (size : C → ℕ) (capacity : ℕ) : Type 0 where
  pub contains_put : (c : C) (h : ℕ) → crates.lru_contains (crates.lru_put c h) h ≡ true
  pub contains_keep :
      (c : C) (h k : ℕ)
      → size c < capacity
      → crates.lru_contains c k ≡ true
      → crates.lru_contains (crates.lru_put c h) k ≡ true
  pub contains_only :
      (c : C) (h k : ℕ)
      → crates.lru_contains (crates.lru_put c h) k ≡ true
      → (k ≡ h) ⊎ (crates.lru_contains c k ≡ true)
  pub size_put : (c : C) (h : ℕ) → size (crates.lru_put c h) ≤ size c + 1

-- The orders that the cache may have to take over the wake-ups.
unfoldable pub total_orders : List Wake → ℕ
total_orders [] = 0
total_orders (w ∷ ws) = length w.cycle.order_stream + total_orders ws

-- No order with this hash is submitted.
abbrev pub Never : {C : Type 0} → Crates C → ℕ → Option (List Submission) → Type 0
Never crates h = Every (λ o. crates.order_hash o ≢ h)

module _ {C : Type 0} (crates : Crates C) (size : C → ℕ) (capacity : ℕ)
    (laws : LruLaws crates size capacity) where
  -- What one nonce check does to the cache.
  check_filled-keeps :
      (cycle : Cycle) (o : SignedOrder) (s : FillerState C) (h : ℕ)
      → size s.filled_orders < capacity
      → let after = (check_filled crates cycle o s).1.filled_orders in
        (size after ≤ size s.filled_orders + 1)
        × (crates.lru_contains s.filled_orders h ≡ true → crates.lru_contains after h ≡ true)
  unfolding check_filled note_consumed
  check_filled-keeps cycle o s h room = elim (Option-cases (cycle.nonce_consumed o)) [
    | inl e ↦ rw e (omega arith, λ k. k)
    | inr (true, e) ↦ rw e (
      laws.size_put s.filled_orders (crates.order_hash o),
      laws.contains_keep s.filled_orders (crates.order_hash o) h room,
    )
    | inr (false, e) ↦ rw e (omega arith, λ k. k)
  ]

  check_all-keeps :
      (cycle : Cycle) (scored : List (ℤ × SignedOrder)) (s : FillerState C) (h : ℕ)
      → size s.filled_orders + length scored ≤ capacity
      → let after = (check_all crates cycle scored s).1.filled_orders in
        (size after ≤ size s.filled_orders + length scored)
        × (crates.lru_contains s.filled_orders h ≡ true → crates.lru_contains after h ≡ true)
  unfolding check_all
  check_all-keeps cycle [] s h room = (omega arith, λ k. k)
  check_all-keeps cycle ((m, o) ∷ rest) s h room =
      let first = check_filled-keeps cycle o s h (omega arith) in
      let next = check_filled crates cycle o s in
      let later = check_all-keeps cycle rest next.1 h (omega arith) in
      (omega arith, λ k. later.1 (first.1 k))

  -- Every candidate whose nonce is reported as consumed is in the cache afterwards.
  check_all-remembers :
      (cycle : Cycle) (scored : List (ℤ × SignedOrder)) (s : FillerState C)
      → size s.filled_orders + length scored ≤ capacity
      → All
          (λ o.
            cycle.nonce_consumed o ≡ some true
            → crates.lru_contains
                (check_all crates cycle scored s).1.filled_orders
                (crates.order_hash o)
              ≡ true)
          (map (λ e. e.1) scored)
  unfolding check_all check_filled note_consumed
  check_all-remembers cycle [] s room = tt
  check_all-remembers cycle ((m, o) ∷ rest) s room =
      let first = check_filled-keeps cycle o s (crates.order_hash o) (omega arith) in
      let next = check_filled crates cycle o s in
      (
        λ e.
            (check_all-keeps cycle rest next.1 (crates.order_hash o) (omega arith)).1
              (rw e (laws.contains_put s.filled_orders (crates.order_hash o))),
        check_all-remembers cycle rest next.1 (omega arith),
      )

  -- A cycle takes at most one entry for each order of its stream, and loses none.
  process_orders-keeps :
      (task : FillerTask) (cycle : Cycle) (s : FillerState C) (h : ℕ)
      → size s.filled_orders + length cycle.order_stream ≤ capacity
      → let after = (process_orders crates task cycle s).1.filled_orders in
        (size after ≤ size s.filled_orders + length cycle.order_stream)
        × (crates.lru_contains s.filled_orders h ≡ true → crates.lru_contains after h ≡ true)
  process_orders-keeps task cycle s h room =
      elim (Option-cases (fetch_and_score_orders crates task cycle s).0) [
        | inl failed ↦ rw (process_orders-failed crates task cycle s failed) (omega arith, λ k. k)
        | inr (scored, e) ↦
            let (m, same) = process_orders-filled crates task cycle s scored e in
            let short = fetch-length crates task cycle s scored e in
            let kept =
              check_all-keeps cycle scored (record s { metrics = m }) h (omega (arith, short)) in
            rw same (omega (arith, short, kept.0), kept.1)
      ]

  pub tick-keeps :
      (task : FillerTask) (w : Wake) (s : FillerState C) (h : ℕ)
      → size s.filled_orders + length w.cycle.order_stream ≤ capacity
      → let after = (tick crates task w s).1.filled_orders in
        (size after ≤ size s.filled_orders + length w.cycle.order_stream)
        × (crates.lru_contains s.filled_orders h ≡ true → crates.lru_contains after h ≡ true)
  unfolding tick
  tick-keeps task w s h room = elim (Bool-cases (ltb (staleness_threshold task) w.staleness)) [
    | inl late ↦ rw late (omega arith, λ k. k)
    | inr timely ↦ rw timely (process_orders-keeps task w.cycle s h room)
  ]

  process_orders-Never :
      (task : FillerTask) (cycle : Cycle) (s : FillerState C) (h : ℕ)
      → crates.lru_contains s.filled_orders h ≡ true
      → Never crates h (process_orders crates task cycle s).0
  process_orders-Never task cycle s h known =
      elim (Option-cases (process_orders crates task cycle s).0) [
        | inl failed ↦ rw failed tt
        | inr (sent, ran) ↦ rw ran (
            All-weaken _ _ (submitted sent)
              (λ o safe same. cc (safe.promising.not_cached, known, same))
              (process_orders-IsSafe crates task cycle s sent ran))
      ]

  tick-Never :
      (task : FillerTask) (w : Wake) (s : FillerState C) (h : ℕ)
      → crates.lru_contains s.filled_orders h ≡ true
      → Never crates h (tick crates task w s).0
  unfolding tick submitted
  tick-Never task w s h known = elim (Bool-cases (ltb (staleness_threshold task) w.staleness)) [
    | inl late ↦ rw late tt
    | inr timely ↦ rw timely (process_orders-Never task w.cycle s h known)
  ]

  -- If the cache has room for all the orders of the coming cycles, no order whose hash is in it is
  -- submitted again.
  pub run_loop-Never :
      (task : FillerTask) (ws : List Wake) (s : FillerState C) (h : ℕ)
      → size s.filled_orders + total_orders ws ≤ capacity
      → crates.lru_contains s.filled_orders h ≡ true
      → All (Never crates h) (run_loop crates task ws s).0
  unfolding run_loop total_orders
  run_loop-Never task [] s h room known = tt
  run_loop-Never task (w ∷ ws) s h room known =
      let now = with_uptime w s in
      let kept = tick-keeps task w now h (omega arith) in
      let ih =
        run_loop-Never task ws (tick crates task w now).1 h (omega (arith, kept.0))
          (kept.1 known) in
      elim (Bool-cases w.is_cancelled) [
        | inl stop ↦ rw stop tt
        | inr live ↦ rw live (tick-Never task w now h known, ih)
      ]

  -- Once the nonce check of a cycle has reported the nonce of a candidate as consumed, no later cycle
  -- of the loop submits an order with its hash, if the tick is not late and the cache has room for all
  -- the orders of this and the later cycles; under what the documentation of `lru` says of the
  -- cache.
  pub consumed-Never :
      (task : FillerTask) (w : Wake) (ws : List Wake) (s : FillerState C)
      (scored : List (ℤ × SignedOrder))
      → w.staleness ≤ staleness_threshold task
      → (fetch_and_score_orders crates task w.cycle s).0 ≡ some scored
      → size s.filled_orders + total_orders (w ∷ ws) ≤ capacity
      → All
          (λ o.
            w.cycle.nonce_consumed o ≡ some true
            → All
                (Never crates (crates.order_hash o))
                (run_loop crates task ws (tick crates task w s).1).0)
          (map (λ e. e.1) scored)
  unfolding tick total_orders
  consumed-Never task w ws s scored timely e room =
      let (m, same) = process_orders-filled crates task w.cycle s scored e in
      let short = fetch-length crates task w.cycle s scored e in
      let s' = (tick crates task w s).1 in
      let ran : s' ≡ (process_orders crates task w.cycle s).1 = ground arith in
      let kept = tick-keeps task w s 0 (omega arith) in
      All-weaken _ _ (map (λ e. e.1) scored)
        (λ o found consumed.
          run_loop-Never task ws s' (crates.order_hash o) (omega (arith, kept.0))
            (rw (ran, same) (found consumed)))
        (check_all-remembers w.cycle scored (record s { metrics = m }) (omega (arith, short)))
