-- ===== src/Filler/Select/Extent.antt =====
-- The selection loop of src/filler_task/mod.rs reads of the budgets only what each token has, and of the
-- filled hashes only which they are.
use signet_filler.Prelude.{ℕ, ◌≡◌, refl, List, [], ◌∷◌, Bool-cases, inl, inr}
use signet_filler.Prelude.Eq.{nat_eq, contains}
use signet_filler.Prelude.Int.{ℤ}
use signet_filler.Prelude.HashMap.{HashMap, get, modify, get-modify, all}
use signet_filler.Tokens.{ChainTokenPair, pair_eq}
use signet_filler.Order.{Output, SignedOrder, output_key}
use signet_filler.Preflight.{
  TokenBudget, WorkingMap, decrement, totals, covers, can_fill, accept_outputs, accept_order,
}
use signet_filler.Metrics.{Metrics}
use signet_filler.Filler.{Crates}
use signet_filler.Filler.Select.{consider, select_loop}

-- Two maps with the same budget for each token.
abbrev pub AreAlike :
    HashMap ChainTokenPair TokenBudget → HashMap ChainTokenPair TokenBudget → Type 0
AreAlike m n = (key : ChainTokenPair) → get key m ≡ get key n

all-covers :
    (v w : WorkingMap) (totals : HashMap ChainTokenPair ℕ)
    → AreAlike v.inner w.inner
    → all (covers v) totals ≡ all (covers w) totals
unfolding all covers
all-covers v w [] same = refl
all-covers v w ((key, n) ∷ rest) same = rw (same key, all-covers v w rest same) refl

can_fill-AreAlike :
    (v w : WorkingMap) (order : SignedOrder)
    → AreAlike v.inner w.inner
    → can_fill v order ≡ can_fill w order
unfolding can_fill
can_fill-AreAlike v w order same = all-covers v w (totals [] order.outputs) same

accept_outputs-AreAlike :
    (m n : HashMap ChainTokenPair TokenBudget) (os : List Output)
    → AreAlike m n
    → AreAlike (accept_outputs m os) (accept_outputs n os)
unfolding accept_outputs
accept_outputs-AreAlike m n [] same = same
accept_outputs-AreAlike m n (o ∷ os) same =
    accept_outputs-AreAlike (modify (output_key o) (decrement o.amount) m)
      (modify (output_key o) (decrement o.amount) n) os
      λ key. rw (get-modify, get-modify, same key) refl

accept_order-AreAlike :
    (v w : WorkingMap) (order : SignedOrder)
    → AreAlike v.inner w.inner
    → AreAlike (accept_order v order).inner (accept_order w order).inner
unfolding accept_order
accept_order-AreAlike v w order same = accept_outputs-AreAlike v.inner w.inner order.outputs same

module _ {C : Type 0} (crates : Crates C) (filled reported : List ℕ)
    (known : (h : ℕ) → contains h filled ≡ contains h reported) where
  pub select_loop-AreAlike :
      (scored : List (ℤ × SignedOrder)) (v w : WorkingMap) (m : Metrics)
      → AreAlike v.inner w.inner
      → select_loop crates filled scored v m ≡ select_loop crates reported scored w m
  unfolding select_loop consider
  select_loop-AreAlike [] v w m same = refl
  select_loop-AreAlike ((margin, order) ∷ rest) v w m same =
      rw (known (crates.order_hash order), can_fill-AreAlike v w order same)
        (elim (Bool-cases (contains (crates.order_hash order) reported)) [
          | inl old ↦ rw (old, select_loop-AreAlike rest v w m same) refl
          | inr new ↦ elim (Bool-cases (can_fill w order)) [
            | inl yes' ↦
                rw
                  (
                    new,
                    yes',
                    select_loop-AreAlike rest (accept_order v order) (accept_order w order) m
                        (accept_order-AreAlike v w order same),
                  )
                  refl
            | inr no' ↦ rw (new, no', select_loop-AreAlike rest v w _ same) refl
          ]
        ])
