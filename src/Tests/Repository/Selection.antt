-- ===== src/Tests/Repository/Selection.antt =====
-- The unit tests of src/filler_task/preflight.rs about `accept_order`.
use signet_filler.Prelude.{
  ℕ, ◌≡◌, refl, Bool, true, not, ◌&&◌, List, [], ◌∷◌, ◌++◌, map, if◌then◌else◌,
}
use signet_filler.Prelude.HashMap.{get, insert, extend, modify, all}
use signet_filler.Tokens.{pair_eq}
use signet_filler.Order.{Output, SignedOrder}
use signet_filler.Preflight.{
  WorkingMap, can_cover, decrement, can_fill, totals, add_output, covers, accept_order,
  accept_outputs,
}
use signet_filler.Tests.Repository.{are_equal}
use signet_filler.Tests.Repository.Budgets.{
  chain_a, token_x, pair_x, from_entries, order_with_outputs, output,
}

abbrev order_of : ℕ → SignedOrder
order_of amount = order_with_outputs (output chain_a token_x amount ∷ [])

abbrev accept_order_decrements_budget : Bool
accept_order_decrements_budget =
    let after = accept_order (from_entries ((pair_x, 1000, 1000) ∷ [])) (order_of 300) in
    not (can_fill after (order_of 800)) && can_fill after (order_of 700)

-- The loop of the test, which collects the accepted orders.
abbrev accept_loop : WorkingMap → List SignedOrder → List SignedOrder → List SignedOrder
accept_loop w [] accepted = accepted
accept_loop w (order ∷ rest) accepted =
    if can_fill w order
    then accept_loop (accept_order w order) rest (accepted ++ order ∷ [])
    else accept_loop w rest accepted

-- For a hash of orders.
abbrev budget_exhaustion_accepts_orders_in_profitability_order : (SignedOrder → ℕ) → Bool
budget_exhaustion_accepts_orders_in_profitability_order order_hash =
    let accepted =
      accept_loop (from_entries ((pair_x, 500, 500) ∷ []))
        (order_of 300 ∷ order_of 200 ∷ order_of 100 ∷ []) [] in
    are_equal (map order_hash accepted) (map order_hash (order_of 300 ∷ order_of 200 ∷ []))

-- A hash that tells the three orders apart.
abbrev amount_of : List Output → ℕ
amount_of [] = 0
amount_of (o ∷ os) = o.amount

accept_order_tests_pass :
    (accept_order_decrements_budget ≡ true)
    × (budget_exhaustion_accepts_orders_in_profitability_order (λ o. amount_of o.outputs) ≡ true)
unfolding can_fill totals add_output covers can_cover accept_order accept_outputs decrement get
    insert extend modify all
accept_order_tests_pass = (refl, refl)
