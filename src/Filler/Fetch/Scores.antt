-- ===== src/Filler/Fetch/Scores.antt =====
-- Which candidates `fetch_and_score_orders` of src/filler_task/mod.rs returns.
use mathlib.Core.Option
use mathlib.Core.Option.{some-injective}
use mathlib.Core.Path.{subst}
use signet_filler.Prelude.{
  ℕ, ◌≡◌, refl, ap, sym, ◌∙◌, not-none-some, true, false, Option, none, some, List, [], ◌∷◌,
  if◌then◌else◌, arith, All, Bool-cases, Option-cases, inl, inr,
}
use signet_filler.Prelude.Int.{ℤ, ltb_ℤ}
use signet_filler.Prelude.Result.{Result, ok, err}
use signet_filler.Order.{SignedOrder}
use signet_filler.Pricing.{FixedPricingClient, FixedPricingError, profitability}
use signet_filler.Metrics.{Metrics, record_orders_fetched}
use signet_filler.Filler.{Crates, FillerTask, FillerState, Cycle}
use signet_filler.Filler.Fetch.{
  Progress, visit, keep_if, collect, scored_as, cons_if, score_orders, insert_entry, sort_entries,
  start, finish, after_collect, earliest_fill_timestamp, fetch_and_score_orders,
}

module _ {C : Type 0} (crates : Crates C) (client : FixedPricingClient) (filled : C)
    (earliest : ℕ) where
  -- The decision on one order, in one piece.
  abbrev pub candidate : SignedOrder → Option (ℤ × SignedOrder)
  candidate order =
      if crates.not_expired_at earliest order
      then (if crates.lru_contains filled (crates.order_hash order)
          then none
          else scored_as order (profitability client order))
      else none

  -- The candidates of a stream, in its order; `none` if the stream has an error.
  unfoldable pub candidates : List (Option SignedOrder) → Option (List (ℤ × SignedOrder))
  candidates [] = some []
  candidates (none ∷ rest) = none
  candidates (some order ∷ rest) = Option.map (cons_if (candidate order)) (candidates rest)

  unfoldable scores : List SignedOrder → List (ℤ × SignedOrder)
  scores [] = []
  scores (order ∷ rest) = cons_if (scored_as order (profitability client order)) (scores rest)

  score_orders-eq-scores :
      (orders : List SignedOrder) (m : Metrics) → (score_orders client orders m).0 ≡ scores orders
  unfolding score_orders scores
  score_orders-eq-scores [] m = refl
  score_orders-eq-scores (order ∷ rest) m = rw (score_orders-eq-scores rest _)

  keep_if-scores :
      (order : SignedOrder) (p : Progress) (orders : Option (List SignedOrder))
      → Option.map scores (keep_if (visit crates filled earliest order p).0 order orders)
        ≡ Option.map (cons_if (candidate order)) (Option.map scores orders)
  unfolding visit scores
  keep_if-scores order p none = refl
  keep_if-scores order p (some orders) = ground arith

  collect-eq-candidates :
      (stream : List (Option SignedOrder)) (p : Progress)
      → Option.map scores (collect crates filled earliest stream p).0 ≡ candidates stream
  unfolding collect candidates scores
  collect-eq-candidates [] p = refl
  collect-eq-candidates (none ∷ rest) p = refl
  collect-eq-candidates (some order ∷ rest) p =
      rw (← collect-eq-candidates rest (visit crates filled earliest order p).1) (
        keep_if-scores order p
          (collect crates filled earliest rest (visit crates filled earliest order p).1).0)

  finish-eq-sorted :
      (scored : List (ℤ × SignedOrder)) (m : Metrics)
      → (finish (scored, m)).0 ≡ some (sort_entries scored)
  unfolding finish
  finish-eq-sorted [] m = refl
  finish-eq-sorted (x ∷ xs) m = refl

  after_collect-eq-sorted :
      (orders : Option (List SignedOrder)) (p : Progress)
      → (after_collect client orders p).0 ≡ Option.map sort_entries (Option.map scores orders)
  unfolding after_collect scores sort_entries
  after_collect-eq-sorted none p = refl
  after_collect-eq-sorted (some []) p = refl
  after_collect-eq-sorted (some (order ∷ rest)) p =
      let r = score_orders client (order ∷ rest) (record_orders_fetched p.orders_count p.metrics) in
      finish-eq-sorted r.0 r.1
      ∙ ap (λ xs. some (sort_entries xs)) (score_orders-eq-scores (order ∷ rest) _)

-- The result is the error if the stream has one, and else the orders that have not expired, are not in
-- the cache of filled orders and are scored by `profitability`, each with its margin, sorted.
pub fetch_and_score_orders_lem :
    {C : Type 0} (crates : Crates C) (task : FillerTask) (cycle : Cycle) (s : FillerState C)
    → (fetch_and_score_orders crates task cycle s).0
      ≡ Option.map sort_entries (
          candidates crates task.pricing_client s.filled_orders
            (earliest_fill_timestamp task cycle.now)
            cycle.order_stream)
unfolding fetch_and_score_orders
fetch_and_score_orders_lem crates task cycle s =
    let client = task.pricing_client in
    let earliest = earliest_fill_timestamp task cycle.now in
    let r = collect crates s.filled_orders earliest cycle.order_stream (start s.metrics) in
    after_collect-eq-sorted crates client s.filled_orders earliest r.0 r.1
    ∙ ap (Option.map sort_entries) (
        collect-eq-candidates crates client s.filled_orders earliest cycle.order_stream
          (start s.metrics))

-- What makes an order a candidate with a margin.
pub record IsEligible {C : Type 0} (crates : Crates C) (client : FixedPricingClient) (filled : C)
    (earliest : ℕ) (entry : ℤ × SignedOrder) : Type 0 where
  pub timely : crates.not_expired_at earliest entry.1 ≡ true
  pub not_cached : crates.lru_contains filled (crates.order_hash entry.1) ≡ false
  pub scored : profitability client entry.1 ≡ ok (some entry.0)

module _ {C : Type 0} (crates : Crates C) (client : FixedPricingClient) (filled : C)
    (earliest : ℕ) where
  abbrev Eligible : ℤ × SignedOrder → Type 0
  Eligible = IsEligible crates client filled earliest

  scored_as-margin :
      (order : SignedOrder) (r : Result FixedPricingError (Option ℤ)) (entry : ℤ × SignedOrder)
      → scored_as order r ≡ some entry
      → (r ≡ ok (some entry.0)) × (order ≡ entry.1)
  scored_as-margin order (ok (some m)) entry e = ground arith
  scored_as-margin order (ok none) entry e = cc
  scored_as-margin order (err x) entry e = cc

  candidate-IsEligible :
      (order : SignedOrder) (entry : ℤ × SignedOrder)
      → candidate crates client filled earliest order ≡ some entry
      → Eligible entry
  candidate-IsEligible order entry e = elim (Bool-cases (crates.not_expired_at earliest order)) [
    | inl timely ↦ elim (Bool-cases (crates.lru_contains filled (crates.order_hash order))) [
      | inl cached ↦ absurd (not-none-some (rw (timely, cached) at e))
      | inr fresh ↦
          let (score, same) =
            scored_as-margin order (profitability client order) entry (rw (timely, fresh) at e) in
          let here : Eligible (entry.0, order) = record {
            timely = timely;
            not_cached = fresh;
            scored = score;
          } in
          subst (λ o. Eligible (entry.0, o)) same here
    ]
    | inr late ↦ absurd (not-none-some (rw late at e))
  ]

  cons_if-All :
      (o : Option (ℤ × SignedOrder)) (rest : List (ℤ × SignedOrder))
      → ((entry : ℤ × SignedOrder) → o ≡ some entry → Eligible entry)
      → All Eligible rest
      → All Eligible (cons_if o rest)
  cons_if-All none rest h a = a
  cons_if-All (some entry) rest h a = (h entry refl, a)

  candidates-All :
      (stream : List (Option SignedOrder)) (xs : List (ℤ × SignedOrder))
      → candidates crates client filled earliest stream ≡ some xs
      → All Eligible xs
  unfolding candidates
  candidates-All [] xs e = rw (← some-injective _ _ e) tt
  candidates-All (none ∷ rest) xs e = absurd (not-none-some e)
  candidates-All (some order ∷ rest) xs e =
      elim (Option-cases (candidates crates client filled earliest rest)) [
        | inl bad ↦ absurd (not-none-some (rw bad at e))
        | inr (ys, good) ↦ rw (← some-injective _ _ (rw good at e)) (
            cons_if-All (candidate crates client filled earliest order) ys
              (candidate-IsEligible order) (candidates-All rest ys good))
      ]

  insert_entry-All :
      (x : ℤ × SignedOrder) (xs : List (ℤ × SignedOrder))
      → Eligible x
      → All Eligible xs
      → All Eligible (insert_entry x xs)
  unfolding insert_entry
  insert_entry-All x [] h a = (h, tt)
  insert_entry-All x (y ∷ rest) h a = elim (Bool-cases (ltb_ℤ x.0 y.0)) [
    | inl before ↦ rw before (a.0, insert_entry-All x rest h a.1)
    | inr after ↦ rw after (h, a)
  ]

  sort_entries-All :
      (xs : List (ℤ × SignedOrder)) → All Eligible xs → All Eligible (sort_entries xs)
  unfolding sort_entries
  sort_entries-All [] a = tt
  sort_entries-All (x ∷ rest) a =
      insert_entry-All x (sort_entries rest) a.0 (sort_entries-All rest a.1)

-- Every order that is returned has not expired, is not in the cache of filled orders, and stands with
-- the margin that `profitability` gives it.
pub fetch-IsEligible :
    {C : Type 0} (crates : Crates C) (task : FillerTask) (cycle : Cycle) (s : FillerState C)
    (scored : List (ℤ × SignedOrder))
    → (fetch_and_score_orders crates task cycle s).0 ≡ some scored
    → All
        (IsEligible crates task.pricing_client s.filled_orders
          (earliest_fill_timestamp task cycle.now))
        scored
fetch-IsEligible crates task cycle s scored e =
    let client = task.pricing_client in
    let earliest = earliest_fill_timestamp task cycle.now in
    let e' = sym (fetch_and_score_orders_lem crates task cycle s) ∙ e in
    elim (Option-cases (candidates crates client s.filled_orders earliest cycle.order_stream)) [
      | inl bad ↦ absurd (not-none-some (rw bad at e'))
      | inr (xs, good) ↦ rw (← some-injective _ _ (rw good at e')) (
          sort_entries-All crates client s.filled_orders earliest xs
            (candidates-All crates client s.filled_orders earliest cycle.order_stream xs good))
    ]
