-- ===== src/Filler/Fetch/Accounting.antt =====
-- The metrics of `fetch_and_score_orders` in src/filler_task/mod.rs account for every order fetched.
use signet_filler.Prelude.{
  ℕ, suc, ◌+◌, ◌≡◌, ◌≢◌, refl, Bool, true, false, Option, none, some, List, [], ◌∷◌, length, arith,
}
use signet_filler.Prelude.Int.{ℤ}
use signet_filler.Prelude.Result.{Result, ok, err}
use signet_filler.Order.{SignedOrder}
use signet_filler.Pricing.{FixedPricingClient, FixedPricingError, unknown_token, profitability}
use signet_filler.Metrics.{
  Metrics, record_order_skipped, record_pricing_error, record_orders_fetched,
  record_fetch_order_error,
}
use signet_filler.Filler.{Crates, FillerTask, FillerState, Cycle}
use signet_filler.Filler.Fetch.{
  Progress, visit, keep_if, collect, scored_as, record_score, cons_if, score_orders, insert_entry,
  sort_entries, start, finish, after_collect, earliest_fill_timestamp, fetch_and_score_orders,
}

-- Every counter that an order can go to while the orders are fetched and scored.
abbrev pub turned_away : Metrics → ℕ
turned_away m =
    m.skipped_already_filled + m.skipped_expired + m.skipped_exceeds_max_loss
    + m.skipped_unknown_token + m.pricing_errors

abbrev count_if : Bool → ℕ
count_if true = 1
count_if false = 0

module _ {C : Type 0} (crates : Crates C) (filled : C) (earliest : ℕ) where
  visit-counts :
      (order : SignedOrder) (p : Progress)
      → let r = visit crates filled earliest order p in
        (r.1.orders_count ≡ p.orders_count + 1)
        × (turned_away r.1.metrics + count_if r.0 ≡ turned_away p.metrics + 1)
        × (r.1.metrics.orders_fetched ≡ p.metrics.orders_fetched)
        × (r.1.metrics.fetch_order_errors ≡ p.metrics.fetch_order_errors)
  unfolding visit
  visit-counts order p = ground arith

  length-keep_if :
      (kept : Bool) (order : SignedOrder) (orders : Option (List SignedOrder))
      (xs : List SignedOrder)
      → keep_if kept order orders ≡ some xs
      → (ys : List SignedOrder) × (orders ≡ some ys) × (length xs ≡ count_if kept + length ys)
  length-keep_if kept order none xs e = cc
  length-keep_if true order (some ys) xs e = (ys, refl, ground arith)
  length-keep_if false order (some ys) xs e = (ys, refl, ground arith)

  collect-counts :
      (stream : List (Option SignedOrder)) (p : Progress) (xs : List SignedOrder)
      → let r = collect crates filled earliest stream p in
        r.0 ≡ some xs
        → (r.1.orders_count ≡ p.orders_count + length stream)
          × (turned_away r.1.metrics + length xs ≡ turned_away p.metrics + length stream)
          × (r.1.metrics.orders_fetched ≡ p.metrics.orders_fetched)
  unfolding collect
  collect-counts [] p xs e = ground arith
  collect-counts (none ∷ rest) p xs e = cc
  collect-counts (some order ∷ rest) p xs e =
      let v = visit crates filled earliest order p in
      let (ys, ey, n) = length-keep_if v.0 order (collect crates filled earliest rest v.1).0 xs e in
      omega (arith, visit-counts order p, collect-counts rest v.1 ys ey)

  collect-error :
      (stream : List (Option SignedOrder)) (p : Progress)
      → let r = collect crates filled earliest stream p in
        (r.1.metrics.orders_fetched ≡ p.metrics.orders_fetched)
        × (r.1.metrics.fetch_order_errors ≡ p.metrics.fetch_order_errors)
  unfolding collect
  collect-error [] p = (refl, refl)
  collect-error (none ∷ rest) p = (refl, refl)
  collect-error (some order ∷ rest) p =
      let v = visit crates filled earliest order p in
      omega (arith, visit-counts order p, collect-error rest v.1)

score_counts :
    (order : SignedOrder) (r : Result FixedPricingError (Option ℤ)) (rest : List (ℤ × SignedOrder))
    (m : Metrics)
    → (turned_away (record_score r m) + length (cons_if (scored_as order r) rest)
        ≡ turned_away m + 1 + length rest)
      × ((record_score r m).orders_fetched ≡ m.orders_fetched)
unfolding record_order_skipped record_pricing_error
score_counts order (ok (some margin)) rest m = ground arith
score_counts order (ok none) rest m = ground arith
score_counts order (err (unknown_token a)) rest m = ground arith
score_counts order (err e) rest m = ground arith

score_orders-counts :
    (client : FixedPricingClient) (orders : List SignedOrder) (m : Metrics)
    → let r = score_orders client orders m in
      (turned_away r.1 + length r.0 ≡ turned_away m + length orders)
      × (r.1.orders_fetched ≡ m.orders_fetched)
unfolding score_orders
score_orders-counts client [] m = (refl, refl)
score_orders-counts client (order ∷ rest) m =
    let result = profitability client order in
    let r = score_orders client rest (record_score result m) in
    omega (
      arith,
      score_counts order result r.0 m,
      score_orders-counts client rest (record_score result m),
    )

length-insert_entry :
    (e : ℤ × SignedOrder) (xs : List (ℤ × SignedOrder))
    → length (insert_entry e xs) ≡ suc (length xs)
unfolding insert_entry
length-insert_entry e [] = refl
length-insert_entry e (x ∷ rest) = ground (arith, length-insert_entry e rest)

pub length-sort_entries : (xs : List (ℤ × SignedOrder)) → length (sort_entries xs) ≡ length xs
unfolding sort_entries
length-sort_entries [] = refl
length-sort_entries (x ∷ rest) =
    omega (arith, length-insert_entry x (sort_entries rest), length-sort_entries rest)

finish-counts :
    (scored : List (ℤ × SignedOrder)) (m : Metrics) (xs : List (ℤ × SignedOrder))
    → (finish (scored, m)).0 ≡ some xs
    → (length xs ≡ length scored)
unfolding finish
finish-counts [] m xs e = ground arith
finish-counts (x ∷ rest) m xs e = ground (arith, length-sort_entries (x ∷ rest))

finish-metrics : (scored : List (ℤ × SignedOrder)) (m : Metrics) → (finish (scored, m)).1 ≡ m
unfolding finish
finish-metrics [] m = refl
finish-metrics (x ∷ rest) m = refl

after_collect-counts :
    (client : FixedPricingClient) (orders : List SignedOrder) (p : Progress)
    (xs : List (ℤ × SignedOrder))
    → let r = after_collect client (some orders) p in
      r.0 ≡ some xs
      → (r.1.orders_fetched ≡ p.metrics.orders_fetched + p.orders_count)
        × (turned_away r.1 + length xs ≡ turned_away p.metrics + length orders)
unfolding after_collect record_orders_fetched
after_collect-counts client [] p xs e = ground arith
after_collect-counts client (order ∷ rest) p xs e =
    let m = record_orders_fetched p.orders_count p.metrics in
    let r = score_orders client (order ∷ rest) m in
    let n : length xs ≡ length r.0 = finish-counts r.0 r.1 xs e in
    rw (finish-metrics r.0 r.1) (omega (arith, n, score_orders-counts client (order ∷ rest) m))

not-after_error :
    (client : FixedPricingClient) (p : Progress) (xs : List (ℤ × SignedOrder))
    → (after_collect client none p).0 ≢ some xs
unfolding after_collect
not-after_error client p xs e = cc

fetch_counts :
    (client : FixedPricingClient) (o : Option (List SignedOrder)) (p : Progress)
    (xs : List (ℤ × SignedOrder)) (n fetched turned : ℕ)
    → ((orders : List SignedOrder)
        → o ≡ some orders
        → (p.orders_count ≡ n)
          × (turned_away p.metrics + length orders ≡ turned + n)
          × (p.metrics.orders_fetched ≡ fetched))
    → let r = after_collect client o p in
      r.0 ≡ some xs
      → (r.1.orders_fetched ≡ fetched + n) × (turned_away r.1 + length xs ≡ turned + n)
fetch_counts client none p xs n fetched turned h = λ e. absurd (not-after_error client p xs e)
fetch_counts client (some orders) p xs n fetched turned h =
    λ e. omega (arith, h orders refl, after_collect-counts client orders p xs e)

-- If the stream of orders has no error, the fetched orders are counted, and each of them is either
-- returned as a candidate or counted once as already filled, expired, above the maximum loss, of an
-- unknown token, or failed in pricing.
pub fetch_accounting :
    {C : Type 0} (crates : Crates C) (task : FillerTask) (cycle : Cycle) (s : FillerState C)
    (xs : List (ℤ × SignedOrder))
    → (fetch_and_score_orders crates task cycle s).0 ≡ some xs
    → let r = fetch_and_score_orders crates task cycle s in
      (r.1.orders_fetched ≡ s.metrics.orders_fetched + length cycle.order_stream)
      × (turned_away r.1 + length xs ≡ turned_away s.metrics + length cycle.order_stream)
unfolding fetch_and_score_orders
fetch_accounting crates task cycle s xs e =
    let earliest = earliest_fill_timestamp task cycle.now in
    let r = collect crates s.filled_orders earliest cycle.order_stream (start s.metrics) in
    fetch_counts task.pricing_client r.0 r.1 xs (length cycle.order_stream) s.metrics.orders_fetched
      (turned_away s.metrics)
      (λ orders e'. omega (
        arith,
        collect-counts crates s.filled_orders earliest cycle.order_stream (start s.metrics) orders
            e',
      ))
      e

after_collect-error :
    (client : FixedPricingClient) (o : Option (List SignedOrder)) (p : Progress)
    → let r = after_collect client o p in
      r.0 ≡ none
      → (r.1.orders_fetched ≡ p.metrics.orders_fetched)
        × (r.1.fetch_order_errors ≡ p.metrics.fetch_order_errors + 1)
unfolding after_collect finish record_fetch_order_error
after_collect-error client none p e = (refl, refl)
after_collect-error client (some orders) p e = ground arith

-- If the stream of orders fails, no order is returned or counted as fetched, and one fetch error is
-- counted.
pub fetch_error :
    {C : Type 0} (crates : Crates C) (task : FillerTask) (cycle : Cycle) (s : FillerState C)
    → (fetch_and_score_orders crates task cycle s).0 ≡ none
    → let r = fetch_and_score_orders crates task cycle s in
      (r.1.orders_fetched ≡ s.metrics.orders_fetched)
      × (r.1.fetch_order_errors ≡ s.metrics.fetch_order_errors + 1)
unfolding fetch_and_score_orders
fetch_error crates task cycle s e =
    let earliest = earliest_fill_timestamp task cycle.now in
    let r = collect crates s.filled_orders earliest cycle.order_stream (start s.metrics) in
    omega (
      arith,
      collect-error crates s.filled_orders earliest cycle.order_stream (start s.metrics),
      after_collect-error task.pricing_client r.0 r.1 e,
    )
