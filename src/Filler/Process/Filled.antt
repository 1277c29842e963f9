-- ===== src/Filler/Process/Filled.antt =====
-- What a cycle of src/filler_task/mod.rs does to the cache of filled orders.
use mathlib.Core.Option.{some-injective}
use signet_filler.Prelude.{
  ℕ, ◌≤◌, ◌≡◌, refl, sym, ◌∙◌, not-none-some, Option, none, some, List, [], ◌∷◌, length, arith,
  Option-cases, inl, inr,
}
use signet_filler.Prelude.Int.{ℤ}
use signet_filler.Order.{SignedOrder}
use signet_filler.Metrics.{Metrics}
use signet_filler.Pricing.{FixedPricingClient}
use signet_filler.Filler.{Crates, FillerTask, FillerState, Cycle}
use signet_filler.Filler.Fetch.{earliest_fill_timestamp, fetch_and_score_orders}
use signet_filler.Filler.Fetch.Scores.{candidates, fetch_and_score_orders_lem}
use signet_filler.Filler.Fetch.Accounting.{length-sort_entries}
use signet_filler.Filler.Select.{check_all, select_fillable_orders, record_failures}
use signet_filler.Filler.Process.{submit_selected, after_fetch, process_orders}
use signet_filler.Preflight.{tokens_needed}

candidates-length :
    {C : Type 0} (crates : Crates C) (client : FixedPricingClient) (filled : C) (earliest : ℕ)
    (stream : List (Option SignedOrder)) (xs : List (ℤ × SignedOrder))
    → candidates crates client filled earliest stream ≡ some xs
    → length xs ≤ length stream
unfolding candidates
candidates-length crates client filled earliest [] xs e = ground arith
candidates-length crates client filled earliest (none ∷ rest) xs e = cc
candidates-length crates client filled earliest (some o ∷ rest) xs e =
    elim (Option-cases (candidates crates client filled earliest rest)) [
      | inl failed ↦ absurd (ground arith)
      | inr (ys, ok) ↦ ground (arith, candidates-length crates client filled earliest rest ys ok)
    ]

pub fetch-length :
    {C : Type 0} (crates : Crates C) (task : FillerTask) (cycle : Cycle) (s : FillerState C)
    (scored : List (ℤ × SignedOrder))
    → (fetch_and_score_orders crates task cycle s).0 ≡ some scored
    → length scored ≤ length cycle.order_stream
fetch-length crates task cycle s scored e =
    let earliest = earliest_fill_timestamp task cycle.now in
    let found : Option (List (ℤ × SignedOrder)) =
      candidates crates task.pricing_client s.filled_orders earliest cycle.order_stream in
    let sorted = sym (fetch_and_score_orders_lem crates task cycle s) ∙ e in
    elim (Option-cases found) [
      | inl failed ↦ absurd (not-none-some (rw failed at sorted))
      | inr (xs, ok) ↦ rw (← some-injective _ _ (rw ok at sorted)) (
          omega (
            arith,
            length-sort_entries xs,
            candidates-length crates task.pricing_client s.filled_orders earliest cycle.order_stream
                xs ok,
          ))
    ]

-- The submission leaves the cache as it is.
pub submit_selected-filled :
    {C : Type 0} (crates : Crates C) (task : FillerTask) (cycle : Cycle) (orders : List SignedOrder)
    (s : FillerState C)
    → (submit_selected crates task cycle (orders, s)).1.filled_orders ≡ s.filled_orders
unfolding submit_selected
submit_selected-filled crates task cycle [] s = refl
submit_selected-filled crates task cycle (o ∷ os) s = refl

-- After a cycle the cache is as the nonce checks of the candidates leave it.
after_fetch-filled :
    {C : Type 0} (crates : Crates C) (task : FillerTask) (cycle : Cycle)
    (scored : List (ℤ × SignedOrder)) (s : FillerState C)
    → (m : Metrics) × ((after_fetch crates task cycle (some scored) s).1.filled_orders
        ≡ (check_all crates cycle scored (record s { metrics = m })).1.filled_orders)
unfolding after_fetch select_fillable_orders check_all
after_fetch-filled crates task cycle [] s = (s.metrics, refl)
after_fetch-filled crates task cycle (x ∷ xs) s =
    let r = select_fillable_orders crates task cycle (x ∷ xs) s in
    (
      record_failures task.constants cycle.balances task.filler_address
          (tokens_needed task.constants (x ∷ xs) []) s.metrics,
      submit_selected-filled crates task cycle r.0 r.1,
    )

pub process_orders-filled :
    {C : Type 0} (crates : Crates C) (task : FillerTask) (cycle : Cycle) (s : FillerState C)
    (scored : List (ℤ × SignedOrder))
    → (fetch_and_score_orders crates task cycle s).0 ≡ some scored
    → (m : Metrics) × ((process_orders crates task cycle s).1.filled_orders
        ≡ (check_all crates cycle scored (record s { metrics = m })).1.filled_orders)
unfolding process_orders
process_orders-filled {C} crates task cycle s scored e =
    let after : FillerState C = record s {
      metrics = (fetch_and_score_orders crates task cycle s).1;
    } in
    rw e (after_fetch-filled crates task cycle scored after)

pub process_orders-failed :
    {C : Type 0} (crates : Crates C) (task : FillerTask) (cycle : Cycle) (s : FillerState C)
    → (fetch_and_score_orders crates task cycle s).0 ≡ none
    → (process_orders crates task cycle s).1.filled_orders ≡ s.filled_orders
unfolding process_orders after_fetch
process_orders-failed crates task cycle s e = rw e refl
