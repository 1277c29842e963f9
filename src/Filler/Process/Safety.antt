-- ===== src/Filler/Process/Safety.antt =====
-- What one cycle of src/filler_task/mod.rs guarantees of the orders that it submits.
use mathlib.Core.Option.{some-injective}
use signet_filler.Prelude.{
  ℕ, ◌≤◌, ◌≡◌, ◌≢◌, ◌⊎◌, refl, ◌∙◌, not-none-some, true, false, Option, none, some, List, [], ◌∷◌,
  ◌++◌, map, arith, All, All-map, All-zip, All-weaken, All-append_left, IsSubsequence-All,
  Option-cases, inl, inr,
}
use signet_filler.Prelude.Int.{ℤ}
use signet_filler.Prelude.Eq.{nat_eq, contains}
use signet_filler.Prelude.HashMap.{get}
use signet_filler.Words.{u256_max}
use signet_filler.Tokens.{ChainTokenPair, pair_eq}
use signet_filler.Order.{SignedOrder}
use signet_filler.Preflight.{tokens_needed, TokenBudget, WorkingMap, build}
use signet_filler.Preflight.Build.{is_asked, budget_of, build_lem}
use signet_filler.Filler.{Crates, FillerTask, FillerState, Cycle}
use signet_filler.Filler.Select.{add_hash, note_consumed, check_filled, check_all}
use signet_filler.Pricing.{profitability}
use signet_filler.Prelude.Result.{ok}
use signet_filler.Filler.Fetch.{earliest_fill_timestamp, fetch_and_score_orders}
use signet_filler.Filler.Fetch.Scores.{IsEligible, fetch-IsEligible}
use signet_filler.Filler.Select.{select_fillable_orders, record_failures}
use signet_filler.Filler.Select.Choice.{IsRealistic, demanded_all}
use signet_filler.Filler.Select.Budgets.{select_loop-within_budget, select_loop-IsSubsequence}
use signet_filler.Filler.Submit.{Submission}
use signet_filler.Filler.Submit.Trace.{submitted, submit_bundles-prefix}
use signet_filler.Filler.Process.{submit_selected, after_fetch, process_orders}
use signet_filler.Filler.Process.Realistic.{IsRealisticRpc, build-IsRealistic}

module _ {C : Type 0} (crates : Crates C) (cycle : Cycle) where
  contains-add_hash :
      (hash : Option ℕ) (h : ℕ) (hashes : List ℕ)
      → contains h hashes ≡ true
      → contains h (add_hash hash hashes) ≡ true
  contains-add_hash none h hashes e = e
  contains-add_hash (some j) h hashes e = ground arith

  -- The hash of every candidate whose nonce is consumed is found.
  check_all-finds :
      (scored : List (ℤ × SignedOrder)) (s : FillerState C) (more : List ℕ → List ℕ)
      → ((h : ℕ) (hs : List ℕ) → contains h hs ≡ true → contains h (more hs) ≡ true)
      → All
          (λ o.
            cycle.nonce_consumed o ≡ some true
            → contains (crates.order_hash o) (more (check_all crates cycle scored s).0) ≡ true)
          (map (λ e. e.1) scored)
  unfolding check_all check_filled note_consumed
  check_all-finds [] s more grows = tt
  check_all-finds ((m, order) ∷ rest) s more grows =
      let first = check_filled crates cycle order s in
      (
        λ e. grows _ _ (rw e (ground arith)),
        check_all-finds rest first.1 (λ hs. more (add_hash first.0 hs))
            (λ h hs e. grows h _ (contains-add_hash first.0 h hs e)),
      )

-- Apart from its nonce, why an order may be submitted.
pub record IsPromising {C : Type 0} (crates : Crates C) (task : FillerTask) (cycle : Cycle)
    (filled : C) (order : SignedOrder) : Type 0 where
  pub timely : crates.not_expired_at (earliest_fill_timestamp task cycle.now) order ≡ true
  pub not_cached : crates.lru_contains filled (crates.order_hash order) ≡ false
  pub scored : (m : ℤ) × (profitability task.pricing_client order ≡ ok (some m))

-- The order has not expired, is not known as filled, is scored by the pricing client, and its nonce was
-- not reported as consumed.
pub record IsSafe {C : Type 0} (crates : Crates C) (task : FillerTask) (cycle : Cycle) (filled : C)
    (order : SignedOrder) : Type 0 where
  pub promising : IsPromising crates task cycle filled order
  pub unconsumed : cycle.nonce_consumed order ≢ some true

submitted-from_selected :
    {C : Type 0} (crates : Crates C) (task : FillerTask) (cycle : Cycle) (orders : List SignedOrder)
    (s : FillerState C)
    → (rest : List SignedOrder) × (submitted (submit_selected crates task cycle (orders, s)).0
          ++ rest
        ≡ orders)
unfolding submit_selected submitted
submitted-from_selected crates task cycle [] s = ([], refl)
submitted-from_selected crates task cycle (o ∷ os) s =
    let (rest, same, few, all) = submit_bundles-prefix task cycle (o ∷ os) s.metrics in (rest, same)

-- What a cycle submits is a prefix of what it selects from the candidates.
after_fetch-prefix :
    {C : Type 0} (crates : Crates C) (task : FillerTask) (cycle : Cycle)
    (scored : List (ℤ × SignedOrder)) (s : FillerState C) (sent : List Submission)
    → (after_fetch crates task cycle (some scored) s).0 ≡ some sent
    → (rest : List SignedOrder) × (submitted sent ++ rest
        ≡ (select_fillable_orders crates task cycle scored s).0)
unfolding after_fetch submitted select_fillable_orders
after_fetch-prefix crates task cycle [] s sent e = rw (← some-injective _ _ e) ([], refl)
after_fetch-prefix crates task cycle (x ∷ xs) s sent e =
    let selected = select_fillable_orders crates task cycle (x ∷ xs) s in
    rw (← some-injective _ _ e) (submitted-from_selected crates task cycle selected.0 selected.1)

demanded_all-prefix :
    (key : ChainTokenPair) (xs ys : List SignedOrder)
    → demanded_all key xs ≤ demanded_all key (xs ++ ys)
unfolding demanded_all
demanded_all-prefix key [] ys = omega arith
demanded_all-prefix key (x ∷ xs) ys = omega (arith, demanded_all-prefix key xs ys)

module _ {C : Type 0} (crates : Crates C) (task : FillerTask) (cycle : Cycle) (s : FillerState C)
    (scored : List (ℤ × SignedOrder)) where
  abbrev budget_map : WorkingMap
  budget_map = build task.constants cycle.balances task.filler_address cycle.cached scored

  -- The orders selected from the candidates.
  abbrev pub selected : List SignedOrder
  selected = (select_fillable_orders crates task cycle scored s).0

  module _ (real : IsRealisticRpc cycle.balances cycle.cached) where
    budget_map-IsRealistic : IsRealistic budget_map
    budget_map-IsRealistic =
        build-IsRealistic task.constants cycle.balances task.filler_address cycle.cached real scored

    selected-Within :
        (key : ChainTokenPair) (b : TokenBudget)
        → get key budget_map.inner ≡ some b
        → (demanded_all key selected ≤ b.balance)
          × ((demanded_all key selected ≤ b.allowance) ⊎ (b.allowance ≡ u256_max))
    unfolding select_fillable_orders
    selected-Within key b e =
        select_loop-within_budget crates _ budget_map scored _ key b budget_map-IsRealistic e

  module _
      (scored-IsEligible : All
        (IsEligible crates task.pricing_client s.filled_orders
          (earliest_fill_timestamp task cycle.now))
        scored) where
    selected-IsSafe : All (IsSafe crates task cycle s.filled_orders) selected
    unfolding select_fillable_orders
    selected-IsSafe =
        let m =
          record_failures task.constants cycle.balances task.filler_address
            (tokens_needed task.constants scored []) s.metrics in
        let checked = check_all crates cycle scored (record s { metrics = m }) in
        let (sub, unfilled) =
          select_loop-IsSubsequence crates checked.0 scored budget_map checked.1.metrics in
        let good = IsSubsequence-All (IsPromising crates task cycle s.filled_orders) sub (
          All-map (IsPromising crates task cycle s.filled_orders) (λ e. e.1) scored
            (All-weaken _ _ scored
              (λ e h. record {
                timely = h.timely;
                not_cached = h.not_cached;
                scored = (e.0, h.scored);
              })
              scored-IsEligible)) in
        let found = IsSubsequence-All _ sub (
          check_all-finds crates cycle scored (record s { metrics = m }) (λ hs. hs)
            (λ h hs e. e)) in
        All-weaken _ _ selected
          (λ o h. record { promising = h.0; unconsumed = λ c. cc (h.1.0 c, h.1.1) })
          (All-zip _ _ selected good (All-zip _ _ selected found unfilled))

module _ {C : Type 0} (crates : Crates C) (task : FillerTask) (cycle : Cycle) (s : FillerState C)
    (sent : List Submission) (ran : (process_orders crates task cycle s).0 ≡ some sent) where
  -- Every order that a cycle submits has not expired, is not in the cache of filled orders, is
  -- accepted by the pricing client, and has a nonce that the nonce check did not report as consumed.
  pub process_orders-IsSafe : All (IsSafe crates task cycle s.filled_orders) (submitted sent)
  unfolding process_orders
  process_orders-IsSafe =
      let fetched = fetch_and_score_orders crates task cycle s in
      let after : FillerState C = record s { metrics = fetched.1 } in
      elim (Option-cases fetched.0) [
        | inl failed ↦ absurd (not-none-some (rw failed at ran))
        | inr (scored, e) ↦
            let (rest, same) =
              after_fetch-prefix crates task cycle scored after sent (rw e at ran) in
            All-append_left _ (submitted sent) rest (
              rw same (
                selected-IsSafe crates task cycle after scored
                  (fetch-IsEligible crates task cycle s scored e)))
      ]

  -- All orders that a cycle submits together ask, of any token that some candidate asks for and
  -- whose balance is known, for at most that balance, and for at most the allowance or the allowance
  -- is the largest number. The condition is that the chains report balances below the largest
  -- number, and that cached allowances fit 256 bits.
  pub process_orders-Within :
      IsRealisticRpc cycle.balances cycle.cached
      → (scored : List (ℤ × SignedOrder)) (key : ChainTokenPair) (b : TokenBudget)
      → (fetch_and_score_orders crates task cycle s).0 ≡ some scored
      → is_asked task.constants key scored ≡ true
      → budget_of task.constants cycle.balances task.filler_address cycle.cached key ≡ some b
      → (demanded_all key (submitted sent) ≤ b.balance)
        × ((demanded_all key (submitted sent) ≤ b.allowance) ⊎ (b.allowance ≡ u256_max))
  unfolding process_orders
  process_orders-Within real scored key b e asked known =
      let fetched = fetch_and_score_orders crates task cycle s in
      let after : FillerState C = record s { metrics = fetched.1 } in
      let (rest, same) = after_fetch-prefix crates task cycle scored after sent (rw e at ran) in
      let limits = selected-Within crates task cycle after scored real key b (
        build_lem task.constants cycle.balances task.filler_address cycle.cached scored key
        ∙ rw asked known) in
      let less : demanded_all key (submitted sent)
          ≤ demanded_all key (selected crates task cycle after scored) =
        rw (← same) (demanded_all-prefix key (submitted sent) rest) in
      ground (arith, limits, less)
