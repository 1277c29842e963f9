-- ===== src/Filler/Run/Ideal.antt =====
-- The loop of src/filler_task/mod.rs with an ideal cache of filled orders, which forgets nothing: what the
-- bounded cache of the crate `lru` stands for.
use signet_filler.Prelude.{
  ℕ, ◌+◌, ◌≤◌, ◌<◌, ◌≡◌, refl, sym, ◌∙◌, ap, Bool, true, false, Option, none, some, List, [], ◌∷◌,
  ◌||◌, length, arith,
}
use signet_filler.Prelude.Eq.{nat_eq, ◌=?◌}
use signet_filler.Prelude.Int.{ℤ}
use signet_filler.Order.{SignedOrder}
use signet_filler.Metrics.{Metrics, record_order_skipped, already_filled, record_nonce_check_error}
use signet_filler.Filler.{Crates, FillerTask, FillerState, Cycle}
use signet_filler.Filler.Fetch.{
  earliest_fill_timestamp, Progress, visit, collect, fetch_and_score_orders,
}
use signet_filler.Filler.Select.{
  note_consumed, check_filled, check_all, consider, select_loop, record_failures,
  select_fillable_orders,
}
use signet_filler.Filler.Select.Effects.{contains-put_lem, size-note_consumed}
use signet_filler.Filler.Process.Accounting.{consumed_hashes, check_all-eq-consumed}
use signet_filler.Filler.Run.Memory.{LruLaws}
use signet_filler.Preflight.{tokens_needed, build}

-- The hashes that were inserted, as a test.
abbrev pub IdealCache : Type 0
IdealCache = ℕ → Bool

abbrev pub ideal : {C : Type 0} → Crates C → Crates IdealCache
ideal crates = record {
  order_hash = crates.order_hash;
  not_expired_at = crates.not_expired_at;
  lru_contains = λ known h. known h;
  lru_put = λ known h k. k =? h || known k;
}

-- The same metrics, and the same hashes in the cache.
pub record Agree {C : Type 0} (crates : Crates C) (s : FillerState C) (t : FillerState IdealCache)
    : Type 0 where
  pub hashes : (h : ℕ) → crates.lru_contains s.filled_orders h ≡ t.filled_orders h
  pub metrics : s.metrics ≡ t.metrics

module _ {C : Type 0} (crates : Crates C) where
  collect-ideal :
      (c : C) (known : IdealCache) (earliest : ℕ) (stream : List (Option SignedOrder))
      (p : Progress)
      → ((h : ℕ) → crates.lru_contains c h ≡ known h)
      → collect crates c earliest stream p ≡ collect (ideal crates) known earliest stream p
  unfolding collect visit
  collect-ideal c known earliest [] p same = refl
  collect-ideal c known earliest (none ∷ rest) p same = refl
  collect-ideal c known earliest (some o ∷ rest) p same =
      rw (same (crates.order_hash o), collect-ideal c known earliest rest _ same) refl

  pub fetch-ideal :
      (task : FillerTask) (cycle : Cycle) (s : FillerState C) (t : FillerState IdealCache)
      → Agree crates s t
      → fetch_and_score_orders crates task cycle s
        ≡ fetch_and_score_orders (ideal crates) task cycle t
  unfolding fetch_and_score_orders
  fetch-ideal task cycle s t same =
      rw
        (
          same.metrics,
          collect-ideal s.filled_orders t.filled_orders (earliest_fill_timestamp task cycle.now)
              cycle.order_stream _ same.hashes,
        )
        refl

  pub select_loop-ideal :
      (filled : List ℕ) (scored : List (ℤ × SignedOrder)) (w : _) (m : Metrics)
      → select_loop crates filled scored w m ≡ select_loop (ideal crates) filled scored w m
  unfolding select_loop consider
  select_loop-ideal filled [] w m = refl
  select_loop-ideal filled ((x, o) ∷ rest) w m = rw (select_loop-ideal filled rest _ _) refl

  consumed_hashes-ideal :
      (cycle : Cycle) (scored : List (ℤ × SignedOrder))
      → consumed_hashes crates cycle scored ≡ consumed_hashes (ideal crates) cycle scored
  unfolding consumed_hashes
  consumed_hashes-ideal cycle [] = refl
  consumed_hashes-ideal cycle ((m, o) ∷ rest) = rw (consumed_hashes-ideal cycle rest) refl

  module _ (task : FillerTask) (size : C → ℕ) (capacity : ℕ)
      (laws : LruLaws crates size capacity) where
    note_consumed-ideal :
        (cycle : Cycle) (o : SignedOrder) (answer : Option Bool) (s : FillerState C)
        (t : FillerState IdealCache)
        → size s.filled_orders < capacity
        → Agree crates s t
        → Agree crates
            (note_consumed crates o answer s).1
            (note_consumed (ideal crates) o answer t).1
    unfolding note_consumed
    note_consumed-ideal cycle o none s t room same = record {
      hashes = same.hashes;
      metrics = ap record_nonce_check_error same.metrics;
    }
    note_consumed-ideal cycle o (some true) s t room same = record {
      hashes = λ h.
          contains-put_lem crates task cycle size capacity laws s.filled_orders h
            (crates.order_hash o) room
          ∙ ap (λ b. h =? crates.order_hash o || b) (same.hashes h);
      metrics = ap (record_order_skipped already_filled) same.metrics;
    }
    note_consumed-ideal cycle o (some false) s t room same = same

    check_all-ideal :
        (cycle : Cycle) (scored : List (ℤ × SignedOrder)) (s : FillerState C)
        (t : FillerState IdealCache)
        → size s.filled_orders + length scored ≤ capacity
        → Agree crates s t
        → Agree crates
            (check_all crates cycle scored s).1
            (check_all (ideal crates) cycle scored t).1
    unfolding check_all check_filled
    check_all-ideal cycle [] s t room same = same
    check_all-ideal cycle ((m, o) ∷ rest) s t room same =
        check_all-ideal cycle rest _ _
          (omega (
            arith,
            size-note_consumed crates task cycle size capacity laws o (cycle.nonce_consumed o) s,
          ))
          (note_consumed-ideal cycle o (cycle.nonce_consumed o) s t (omega arith) same)

    pub select-ideal :
        (cycle : Cycle) (scored : List (ℤ × SignedOrder)) (s : FillerState C)
        (t : FillerState IdealCache)
        → size s.filled_orders + length scored ≤ capacity
        → Agree crates s t
        → let r = select_fillable_orders crates task cycle scored s in
          let r' = select_fillable_orders (ideal crates) task cycle scored t in
          (r.0 ≡ r'.0) × Agree crates r.1 r'.1
    unfolding select_fillable_orders
    select-ideal cycle scored s t room same =
        let keys = tokens_needed task.constants scored [] in
        let count = record_failures task.constants cycle.balances task.filler_address keys in
        let s' : FillerState C = record s { metrics = count s.metrics } in
        let t' : FillerState IdealCache = record t { metrics = count t.metrics } in
        let (hashes, s'') = check_all crates cycle scored s' in
        let (hashes', t'') = check_all (ideal crates) cycle scored t' in
        let w = build task.constants cycle.balances task.filler_address cycle.cached scored in
        let checked : Agree crates s'' t'' =
          check_all-ideal cycle scored s' t' room
            (record { hashes = same.hashes; metrics = ap count same.metrics }) in
        let found : hashes ≡ hashes' =
          check_all-eq-consumed crates cycle scored s'
          ∙ consumed_hashes-ideal cycle scored
          ∙ sym (check_all-eq-consumed (ideal crates) cycle scored t') in
        let chosen : select_loop crates hashes scored w s''.metrics
            ≡ select_loop (ideal crates) hashes' scored w t''.metrics =
          rw (found, checked.metrics) (select_loop-ideal hashes' scored w t''.metrics) in
        (ap (λ r. r.0) chosen, record { hashes = checked.hashes; metrics = ap (λ r. r.1) chosen })
