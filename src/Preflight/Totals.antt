-- ===== src/Preflight/Totals.antt =====
-- `can_fill` of src/filler_task/preflight.rs: the check aggregates an order's outputs by token.
use signet_filler.Prelude.{
  ◌∙◌, sym, ap, ℕ, ◌+◌, ◌≤◌, ◌≡◌, ◌↔◌, refl, true, Option, none, some, List, [], ◌∷◌, arith, min,
  if◌then◌else◌, Bool-cases, Option-cases, inl, inr,
}
use signet_filler.Prelude.Eq.{◌=?◌}
use signet_filler.Prelude.HashMap.{
  HashMap, get, insert, get-insert, insert-HasUniqueKeys, HasUniqueKeys, all, all_iff,
}
use signet_filler.Words.{u256_max, saturating_add}
use signet_filler.Tokens.{ChainTokenPair, pair_eq, pair_eqb_iff}
use signet_filler.Order.{Output, SignedOrder, output_key}
use signet_filler.Preflight.{
  TokenBudget, or_default, within, can_cover, WorkingMap, total_of, add_output, totals, covers,
  can_fill,
}
use signet_filler.Preflight.Budget.{demanded}

add_total :
    (k key : ChainTokenPair) (m : HashMap ChainTokenPair ℕ) (n : ℕ)
    → total_of key m ≤ u256_max
    → total_of key (insert k (saturating_add (total_of k m) n) m)
      ≡ min (total_of key m + (if k =? key then n else 0)) u256_max
add_total k key m n h = elim (Bool-cases (k =? key)) [
  | inl same ↦ rw (get-insert, same, (pair_eqb_iff k key).0 same) refl
  | inr other ↦ rw (get-insert, other) (omega arith)
]

total_of-add_output :
    (key : ChainTokenPair) (m : HashMap ChainTokenPair ℕ) (o : Output)
    → total_of key m ≤ u256_max
    → total_of key (add_output m o)
      ≡ min (total_of key m + (if output_key o =? key then o.amount else 0)) u256_max
unfolding add_output
total_of-add_output key m o h = add_total (output_key o) key m o.amount h

-- The aggregated total of a token is the sum of its amounts, cut off at the largest number.
totals-demanded :
    (key : ChainTokenPair) (m : HashMap ChainTokenPair ℕ) (os : List Output)
    → total_of key m ≤ u256_max
    → total_of key (totals m os) ≡ min (total_of key m + demanded key os) u256_max
unfolding totals demanded
totals-demanded key m [] h = omega arith
totals-demanded key m (o ∷ os) h = omega (
  arith,
  total_of-add_output key m o h,
  totals-demanded key (add_output m o) os (omega (arith, total_of-add_output key m o h)),
)

totals-HasUniqueKeys :
    (m : HashMap ChainTokenPair ℕ) (os : List Output)
    → HasUniqueKeys m
    → HasUniqueKeys (totals m os)
unfolding totals add_output
totals-HasUniqueKeys m [] u = u
totals-HasUniqueKeys m (o ∷ os) u =
    totals-HasUniqueKeys (add_output m o) os (insert-HasUniqueKeys _ _ m u)

within_zero : (b : Option TokenBudget) → within b 0 ≡ true
unfolding can_cover
within_zero none = refl
within_zero (some b) = ground arith

within_total :
    (w : WorkingMap) (key : ChainTokenPair) (t : Option ℕ)
    → ((v : ℕ) → t ≡ some v → covers w key v ≡ true)
    → covers w key (or_default t) ≡ true
unfolding covers
within_total w key none h = within_zero (get key w.inner)
within_total w key (some v) h = h v refl

total_lem :
    (key : ChainTokenPair) (os : List Output)
    → total_of key (totals [] os) ≡ min (demanded key os) u256_max
unfolding get
total_lem key os = omega (arith, totals-demanded key [] os)

-- Within the budget of the token, if it has one.
abbrev pub Fits : WorkingMap → ChainTokenPair → ℕ → Type 0
Fits w key n = (b : TokenBudget) → get key w.inner ≡ some b → (n ≤ b.balance) × (n ≤ b.allowance)

covers_iff :
    (w : WorkingMap) (key : ChainTokenPair) (n : ℕ) → (covers w key n ≡ true) ↔ Fits w key n
unfolding covers
covers_iff w key n = elim (Option-cases (get key w.inner)) [
  | inl e ↦ rw e ((λ h b q. cc), (λ h. refl))
  | inr (b, e) ↦ rw e ((λ h b' q. ground arith), (λ h. ground (arith, h b refl)))
]

-- An order can be filled exactly when, for every token with a budget, the sum of the order's outputs
-- of that token, cut off at the largest number, is within the balance and within the allowance.
pub can_fill_iff :
    (w : WorkingMap) (order : SignedOrder)
    → (can_fill w order ≡ true)
      ↔ ((key : ChainTokenPair) → Fits w key (min (demanded key order.outputs) u256_max))
unfolding can_fill
can_fill_iff w order =
    let ts : HashMap ChainTokenPair ℕ = totals [] order.outputs in
    let tests : (all (covers w) ts ≡ true)
        ↔ ((k : ChainTokenPair) (v : ℕ) → get k ts ≡ some v → covers w k v ≡ true) =
      all_iff (covers w) ts (totals-HasUniqueKeys [] order.outputs tt) in
    (
      λ h key. rw (← total_lem key order.outputs) (
          (covers_iff w key (total_of key ts)).0 (within_total w key (get key ts) (tests.0 h key))),
      λ h. tests.1 λ key v e.
          (covers_iff w key v).1 (rw (sym (ap or_default e) ∙ total_lem key order.outputs) (h key)),
    )
