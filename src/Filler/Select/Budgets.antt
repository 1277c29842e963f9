-- ===== src/Filler/Select/Budgets.antt =====
-- What the greedy selection of src/filler_task/mod.rs guarantees of the orders that it takes.
use signet_filler.Prelude.{
  ℕ, ◌+◌, ◌≤◌, ◌≡◌, ◌≢◌, ◌⊎◌, false, some, List, [], ◌∷◌, map, Bool-cases, inl, inr, arith, All,
  IsSubsequence, done, keep, skip,
}
use signet_filler.Prelude.Eq.{nat_eq, contains}
use signet_filler.Prelude.Int.{ℤ}
use signet_filler.Prelude.HashMap.{get}
use signet_filler.Words.{u256_max}
use signet_filler.Tokens.{ChainTokenPair, pair_eq}
use signet_filler.Order.{SignedOrder}
use signet_filler.Preflight.{TokenBudget, WorkingMap, can_fill, accept_order}
use signet_filler.Metrics.{Metrics, insufficient_filler_balance, record_order_skipped}
use signet_filler.Filler.{Crates}
use signet_filler.Filler.Select.{select_loop, consider}
use signet_filler.Filler.Select.Choice.{
  Budgets, budgets_in, demanded_all, IsRealistic, Within, Greedy, stop, drop_filled, take_it,
  drop_costly, select_loop-Greedy,
}

module _ {C : Type 0} {crates : Crates C} {filled : List ℕ} {budgets : Budgets} where
  Greedy-Within :
      (key : ChainTokenPair) {taken : List SignedOrder} {scored : List (ℤ × SignedOrder)}
      {out : List SignedOrder}
      → Greedy crates filled budgets taken scored out
      → Within budgets key (demanded_all key taken)
      → Within budgets key (demanded_all key out + demanded_all key taken)
  unfolding demanded_all
  Greedy-Within key (stop taken) h = λ b e. ground (arith, h b e)
  Greedy-Within key (drop_filled m order f g) h = Greedy-Within key g h
  Greedy-Within key (take_it m order f a g) h =
      λ b e. ground (arith, Greedy-Within key g (a key) b e)
  Greedy-Within key (drop_costly m order f a g) h = Greedy-Within key g h

-- The form of a bound in which the largest allowance is no limit.
pub unless_max :
    {n : ℕ} {b : TokenBudget}
    → (n + 0 ≤ b.balance) × (b.allowance ≢ u256_max → n + 0 ≤ b.allowance)
    → (n ≤ b.balance) × ((n ≤ b.allowance) ⊎ (b.allowance ≡ u256_max))
unless_max h = ground arith

-- With realistic budgets, what all selected orders together ask for of a token with a budget is at
-- most its balance, and at most its allowance or the allowance is the largest number.
pub select_loop-within_budget :
    {C : Type 0} (crates : Crates C) (filled : List ℕ) (w : WorkingMap)
    (scored : List (ℤ × SignedOrder)) (m : Metrics) (key : ChainTokenPair) (b : TokenBudget)
    → IsRealistic w
    → get key w.inner ≡ some b
    → let asked = demanded_all key (select_loop crates filled scored w m).0 in
      (asked ≤ b.balance) × ((asked ≤ b.allowance) ⊎ (b.allowance ≡ u256_max))
unfolding demanded_all
select_loop-within_budget crates filled w scored m key b real e = unless_max (
    Greedy-Within {budgets = budgets_in w} key (select_loop-Greedy crates filled w scored m real)
      (λ b' e'. omega arith) b e)

-- The selected orders are candidates in the order of the candidates, and the hash of none is among
-- the filled ones.
pub select_loop-IsSubsequence :
    {C : Type 0} (crates : Crates C) (filled : List ℕ) (scored : List (ℤ × SignedOrder))
    (w : WorkingMap) (m : Metrics)
    → let out = (select_loop crates filled scored w m).0 in
      IsSubsequence out (map (λ e. e.1) scored)
      × All (λ o. contains (crates.order_hash o) filled ≡ false) out
unfolding select_loop consider
select_loop-IsSubsequence crates filled [] w m = (done, tt)
select_loop-IsSubsequence crates filled ((x, o) ∷ rest) w m =
    elim (Bool-cases (contains (crates.order_hash o) filled)) [
      | inl old ↦
          let ih = select_loop-IsSubsequence crates filled rest w m in rw old (skip o ih.0, ih.1)
      | inr new ↦ elim (Bool-cases (can_fill w o)) [
        | inl fits ↦
            let ih = select_loop-IsSubsequence crates filled rest (accept_order w o) m in
            rw (new, fits) (keep o ih.0, (new, ih.1))
        | inr costly ↦
            let m' = record_order_skipped insufficient_filler_balance m in
            let ih = select_loop-IsSubsequence crates filled rest w m' in
            rw (new, costly) (skip o ih.0, ih.1)
      ]
    ]
