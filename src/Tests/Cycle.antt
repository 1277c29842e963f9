-- ===== src/Tests/Cycle.antt =====
-- The theorems on a whole cycle of src/filler_task/mod.rs at sample inputs.
use mathlib.Core.List.Permᴰ
use mathlib.Core.Path.{subst}
use mathlib.Core.Option.{some-injective}
use signet_filler.Prelude.{
  ap, ℕ, ◌≡◌, ◌||◌, ◌↔◌, refl, sym, some, List, [], ◌∷◌, length, arith, Bool-cases, inl, inr,
}
use signet_filler.Prelude.Eq.{nat_eq, ◌=?◌, contains}
use signet_filler.Prelude.Int.{ℤ, pos}
use signet_filler.Tokens.{ChainTokenPair, pair_eq, pair_eqb_iff}
use signet_filler.Order.{SignedOrder}
use signet_filler.Preflight.{tokens_needed, tokens_of, query_balance, allowance_for, provider_for}
use signet_filler.Preflight.Budget.{demanded}
use signet_filler.Filler.Select.{select_fillable_orders}
use signet_filler.Filler.Select.Choice.{Greedy, Within, demanded_all}
use signet_filler.Filler.Select.Concurrent.{Arrival, queried, checked, select_arriving}
use signet_filler.Filler.Select.AnyOrder.{select-any_order}
use signet_filler.Filler.Submit.Trace.{submitted}
use signet_filler.Filler.Process.{process_orders}
use signet_filler.Filler.Process.Accounting.{consumed_hashes}
use signet_filler.Filler.Process.Outcome.{Outcome, budgets_for}
use signet_filler.Filler.Process.Determined.{process_orders_iff}
use signet_filler.Filler.Process.Complete.{unreported, orders_of, process_orders_complete}
use signet_filler.Tests.Samples.{usdc_order, usdc, crates, task, state}
use signet_filler.Tests.Process.{short, sent, fetched, cycle_runs, realistic}
use signet_filler.Tests.Run.{laws}

abbrev ranked : List (ℤ × SignedOrder)
ranked = (pos 100_000_000_000_000_000, usdc_order 1 1_000_000 900_000) ∷ []

process_orders_iff_example : Outcome crates task short state.filled_orders (some sent) (4 ∷ []) ↔ (
    ((process_orders crates task short state).0 ≡ some sent)
    × ((process_orders crates task short state).1.filled_orders ≡ 4 ∷ []))
process_orders_iff_example =
    process_orders_iff crates task short state (some sent) (4 ∷ []) realistic

-- The candidate asks for 0.9 USDC, and there is one.
plenty :
    (key : ChainTokenPair)
    → Within
        (budgets_for task.constants short.balances task.filler_address short.cached ranked)
        key
        (demanded_all key (orders_of ranked))
unfolding demanded_all demanded query_balance allowance_for provider_for
plenty key b e = elim (Bool-cases (usdc =? key)) [
  | inl same ↦
      let same' : usdc ≡ key = (pair_eqb_iff usdc key).0 same in
      let e' : budgets_for task.constants short.balances task.filler_address short.cached ranked
            usdc
          ≡ some b =
        subst
          (λ k.
            budgets_for task.constants short.balances task.filler_address short.cached ranked k
            ≡ some b)
          (sym same') e in
      let b' : record { balance = 1_000_000; allowance = 1_000_000 } ≡ b = some-injective _ _ e' in
      rw same (omega (arith, ap (λ t. t.balance) b', ap (λ t. t.allowance) b'))
  | inr other ↦ rw other (omega arith)
]

process_orders_complete_example :
    submitted sent ≡ unreported crates (consumed_hashes crates short ranked) (orders_of ranked)
process_orders_complete_example =
    process_orders_complete crates task short realistic state ranked sent fetched plenty cycle_runs
      refl

-- The nonce check is answered before the balance query.
abbrev arrivals : List Arrival
arrivals = checked (usdc_order 1 1_000_000 900_000) ∷ queried usdc ∷ []

select-any_order_example :
    let r = select_arriving crates task short arrivals ranked state in
    let r' = select_fillable_orders crates task short ranked state in
    Greedy crates
      (consumed_hashes crates short ranked)
      (budgets_for task.constants short.balances task.filler_address short.cached ranked)
      []
      ranked
      r.0
    × (r.0 ≡ r'.0)
    × (r.1.metrics ≡ r'.1.metrics)
    × ((h : ℕ)
        → crates.lru_contains r.1.filled_orders h ≡ (
            contains h (consumed_hashes crates short ranked)
            || crates.lru_contains state.filled_orders h))
unfolding tokens_needed tokens_of
select-any_order_example =
    select-any_order crates task short length 100 ranked arrivals state realistic laws (omega arith)
      ∣ Permᴰ.swap refl refl ∣₁
