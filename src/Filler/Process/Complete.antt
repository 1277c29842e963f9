-- ===== src/Filler/Process/Complete.antt =====
-- When one cycle of src/filler_task/mod.rs submits all that it can.
use mathlib.Core.Option.{some-injective}
use mathlib.Core.List.{append-nil}
use signet_filler.Prelude.{
  ℕ, ◌+◌, ◌≡◌, refl, sym, ◌∙◌, ap, false, some, List, [], ◌∷◌, ◌++◌, map, if◌then◌else◌, arith,
}
use signet_filler.Prelude.Eq.{nat_eq, contains}
use signet_filler.Prelude.Int.{ℤ}
use signet_filler.Tokens.{ChainTokenPair}
use signet_filler.Order.{SignedOrder}
use signet_filler.Filler.{Crates, FillerTask, FillerState, Cycle}
use signet_filler.Filler.Chunks.{flatten-chunk_orders}
use signet_filler.Filler.Fetch.{fetch_and_score_orders}
use signet_filler.Filler.Select.{select_fillable_orders}
use signet_filler.Filler.Select.Choice.{
  Budgets, demanded_all, Within, Greedy, stop, drop_filled, take_it, drop_costly,
}
use signet_filler.Filler.Submit.{Submission}
use signet_filler.Filler.Submit.Trace.{submitted, outcomes, Follows-prefix}
use signet_filler.Filler.Process.{after_fetch, process_orders}
use signet_filler.Filler.Process.Accounting.{consumed_hashes}
use signet_filler.Filler.Process.Outcome.{
  Submits, nothing, in_chunks, budgets_for, submit_selected-Submits, select-Greedy,
}
use signet_filler.Filler.Process.Realistic.{IsRealisticRpc}

-- The orders whose hash is not among the given ones, in their order.
unfoldable pub unreported : {C : Type 0} → Crates C → List ℕ → List SignedOrder → List SignedOrder
unreported crates hashes [] = []
unreported crates hashes (o ∷ os) =
    let later = unreported crates hashes os in
    if contains (crates.order_hash o) hashes then later else o ∷ later

abbrev pub orders_of : List (ℤ × SignedOrder) → List SignedOrder
orders_of = map (λ e. e.1)

-- All candidates together are within every budget, on top of the orders taken before.
abbrev Covered : Budgets → List SignedOrder → List (ℤ × SignedOrder) → Type 0
Covered budgets taken scored =
    (key : ChainTokenPair)
    → Within budgets key (demanded_all key (orders_of scored) + demanded_all key taken)

module _ {C : Type 0} {crates : Crates C} {filled : List ℕ} {budgets : Budgets} where
  -- The greedy choice takes every unreported order if the budgets cover all candidates.
  Greedy-unreported :
      {taken : List SignedOrder} {scored : List (ℤ × SignedOrder)} {out : List SignedOrder}
      → Greedy crates filled budgets taken scored out
      → Covered budgets taken scored
      → out ≡ unreported crates filled (orders_of scored)
  unfolding unreported demanded_all
  Greedy-unreported (stop taken) h = refl
  Greedy-unreported (drop_filled m o f g) h =
      rw (f, Greedy-unreported g (λ key b e. ground (arith, h key b e))) refl
  Greedy-unreported (take_it m o f a g) h =
      rw (f, Greedy-unreported g (λ key b e. ground (arith, h key b e))) refl
  Greedy-unreported (drop_costly m o f a g) h = absurd (a (λ key b e. ground (arith, h key b e)))

Submits-all :
    {task : FillerTask} {cycle : Cycle} {orders : List SignedOrder} {sent : List Submission}
    → Submits task cycle orders sent
    → outcomes false sent ≡ 0
    → submitted sent ≡ orders
unfolding submitted
Submits-all nothing z = refl
Submits-all {task = task} (in_chunks orders {sent = sent} ne f) z =
    let (rest, same, few, all) = Follows-prefix f in
    sym (append-nil (submitted sent))
    ∙ ap (λ r. submitted sent ++ r) (sym (all z))
    ∙ same
    ∙ flatten-chunk_orders orders task.max_orders_per_bundle

module _ {C : Type 0} (crates : Crates C) (task : FillerTask) (cycle : Cycle)
    (real : IsRealisticRpc cycle.balances cycle.cached) where
  after_fetch_complete :
      (ranked : List (ℤ × SignedOrder)) (s : FillerState C) (sent : List Submission)
      → Covered
          (budgets_for task.constants cycle.balances task.filler_address cycle.cached ranked)
          []
          ranked
      → (after_fetch crates task cycle (some ranked) s).0 ≡ some sent
      → outcomes false sent ≡ 0
      → submitted sent ≡ unreported crates (consumed_hashes crates cycle ranked) (orders_of ranked)
  unfolding after_fetch unreported submitted
  after_fetch_complete [] s sent h e z = rw (← some-injective _ _ e) refl
  after_fetch_complete (x ∷ xs) s sent h e z =
      let (chosen, s') = select_fillable_orders crates task cycle (x ∷ xs) s in
      Submits-all {task = task} {cycle = cycle}
        (rw (← some-injective _ _ e) (submit_selected-Submits crates task cycle chosen s')) z
      ∙ Greedy-unreported (select-Greedy crates task cycle real (x ∷ xs) s) h

  -- If the budgets of a cycle cover what all its candidates together ask for, and no call fails, the
  -- cycle submits every candidate whose hash is not that of a candidate with a consumed nonce, once
  -- and in the order of the margins; under the condition that the chains report balances below the
  -- largest number and cached allowances fit 256 bits.
  pub process_orders_complete :
      (s : FillerState C) (ranked : List (ℤ × SignedOrder)) (sent : List Submission)
      → (fetch_and_score_orders crates task cycle s).0 ≡ some ranked
      → ((key : ChainTokenPair)
          → Within
              (budgets_for task.constants cycle.balances task.filler_address cycle.cached ranked)
              key
              (demanded_all key (orders_of ranked)))
      → (process_orders crates task cycle s).0 ≡ some sent
      → outcomes false sent ≡ 0
      → submitted sent ≡ unreported crates (consumed_hashes crates cycle ranked) (orders_of ranked)
  unfolding process_orders demanded_all
  process_orders_complete s ranked sent e h sends z =
      let after = record s { metrics = (fetch_and_score_orders crates task cycle s).1 } in
      after_fetch_complete ranked after sent (λ key b q. ground (arith, h key b q)) (rw e at sends)
        z
