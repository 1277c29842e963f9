-- ===== src/Filler/Process/Outcome.antt =====
-- What one cycle of src/filler_task/mod.rs is to do: its specification, apart from how the code does it.
use mathlib.Core.Path.{subst, fun_ext}
use signet_filler.Prelude.{
  ℕ, ◌≡◌, ◌≢◌, Option, none, some, List, [], ◌∷◌, true, false, if◌then◌else◌, Option-cases, inl,
  inr, refl, sym, ◌∙◌,
}
use signet_filler.Prelude.Int.{ℤ}
use signet_filler.Tokens.{Address, SystemConstants, ChainTokenPair}
use signet_filler.Order.{SignedOrder}
use signet_filler.Preflight.{Balances, build, tokens_needed}
use signet_filler.Preflight.Build.{is_asked, budget_of, build_lem}
use signet_filler.Filler.{Crates, FillerTask, FillerState, Cycle}
use signet_filler.Filler.Chunks.{chunk_orders}
use signet_filler.Filler.Fetch.{earliest_fill_timestamp, sort_entries, fetch_and_score_orders}
use signet_filler.Filler.Fetch.Scores.{candidates, fetch_and_score_orders_lem}
use signet_filler.Filler.Fetch.Sorting.{
  IsDescending, with_margin, sort_entries-IsDescending, sort_entries-with_margin,
}
use signet_filler.Filler.Select.{
  note_consumed, check_filled, check_all, record_failures, select_fillable_orders,
}
use signet_filler.Filler.Select.Choice.{Budgets, budgets_in, Greedy, stop, select_loop-Greedy}
use signet_filler.Filler.Submit.{Submission}
use signet_filler.Filler.Submit.Trace.{Follows, submit_loop-Follows}
use signet_filler.Filler.Process.{submit_selected, after_fetch, process_orders}
use signet_filler.Filler.Process.Filled.{submit_selected-filled}
use signet_filler.Filler.Process.Accounting.{consumed_hashes, check_all-eq-consumed}
use signet_filler.Filler.Process.Realistic.{IsRealisticRpc, build-IsRealistic}

-- The largest margin comes first, and entries of one margin keep their order.
pub record IsRanking (found ranked : List (ℤ × SignedOrder)) : Type 0 where
  pub descending : IsDescending ranked
  pub stable : (m : ℤ) → with_margin m ranked ≡ with_margin m found

-- The budgets of a cycle: what the chains and the cache say of the tokens that the candidates ask for.
abbrev pub budgets_for :
    SystemConstants
    → Balances
    → Address
    → (ChainTokenPair → Option ℕ)
    → List (ℤ × SignedOrder)
    → Budgets
budgets_for c rpc filler cached ranked key =
    if is_asked c key ranked then budget_of c rpc filler cached key else none

-- The calls for the chosen orders: none if there are no orders, and else one for each chunk, in order,
-- up to the first that fails.
pub data Submits (task : FillerTask) (cycle : Cycle)
    : List SignedOrder → List Submission → Type 0 where
  nothing : Submits task cycle [] []
  in_chunks :
      (orders : List SignedOrder) {sent : List Submission}
      → orders ≢ []
      → Follows task cycle 0 (chunk_orders orders task.max_orders_per_bundle) sent
      → Submits task cycle orders sent

-- The cache after the insertion of the hashes, in order.
abbrev pub put_all : {C : Type 0} → Crates C → List ℕ → C → C
put_all crates [] filled = filled
put_all crates (hash ∷ hashes) filled = put_all crates hashes (crates.lru_put filled hash)

-- What a cycle comes to: an error if the stream of orders has one, and else the submission of the greedy
-- choice, by margin, of the orders that are in time, not known as filled and accepted in price, less
-- those that are reported as filled, within the budgets; the cache then holds the reported hashes too.
pub data Outcome {C : Type 0} (crates : Crates C) (task : FillerTask) (cycle : Cycle) (filled : C)
    : Option (List Submission) → C → Type 0 where
  stream_failed :
      candidates crates task.pricing_client filled
          (earliest_fill_timestamp task cycle.now)
          cycle.order_stream
        ≡ none
      → Outcome crates task cycle filled none filled
  ran :
      (found ranked : List (ℤ × SignedOrder)) {chosen : List SignedOrder} {sent : List Submission}
      → candidates crates task.pricing_client filled
          (earliest_fill_timestamp task cycle.now)
          cycle.order_stream
        ≡ some found
      → IsRanking found ranked
      → Greedy crates
          (consumed_hashes crates cycle ranked)
          (budgets_for task.constants cycle.balances task.filler_address cycle.cached ranked)
          []
          ranked
          chosen
      → Submits task cycle chosen sent
      → Outcome crates task cycle filled
          (some sent)
          (put_all crates (consumed_hashes crates cycle ranked) filled)

-- The sort of the scored orders puts the largest margin first, and keeps all entries of one margin in
-- their order.
pub sort_entries-IsRanking : (xs : List (ℤ × SignedOrder)) → IsRanking xs (sort_entries xs)
sort_entries-IsRanking xs = record {
  descending = sort_entries-IsDescending xs;
  stable = λ m. sort_entries-with_margin m xs;
}

check_all-put_all :
    {C : Type 0} (crates : Crates C) (cycle : Cycle) (scored : List (ℤ × SignedOrder))
    (s : FillerState C)
    → (check_all crates cycle scored s).1.filled_orders
      ≡ put_all crates (consumed_hashes crates cycle scored) s.filled_orders
unfolding check_all check_filled note_consumed consumed_hashes
check_all-put_all crates cycle [] s = refl
check_all-put_all crates cycle ((m, o) ∷ rest) s =
    let ih = check_all-put_all crates cycle rest (check_filled crates cycle o s).1 in
    elim (Option-cases (cycle.nonce_consumed o)) [
      | inl e ↦ rw e (rw e at ih)
      | inr (true, e) ↦ rw e (rw e at ih)
      | inr (false, e) ↦ rw e (rw e at ih)
    ]

module _ {C : Type 0} (crates : Crates C) (task : FillerTask) (cycle : Cycle) where
  pub submit_selected-Submits :
      (orders : List SignedOrder) (s : FillerState C)
      → Submits task cycle orders (submit_selected crates task cycle (orders, s)).0
  unfolding submit_selected
  submit_selected-Submits [] s = nothing
  submit_selected-Submits (o ∷ os) s =
      in_chunks (o ∷ os) (λ e. cc)
        (submit_loop-Follows task cycle 0 (chunk_orders (o ∷ os) task.max_orders_per_bundle) _)

  module _ (real : IsRealisticRpc cycle.balances cycle.cached) where
    pub select-Greedy :
        (ranked : List (ℤ × SignedOrder)) (s : FillerState C)
        → Greedy crates
            (consumed_hashes crates cycle ranked)
            (budgets_for task.constants cycle.balances task.filler_address cycle.cached ranked)
            []
            ranked
            (select_fillable_orders crates task cycle ranked s).0
    unfolding select_fillable_orders
    select-Greedy ranked s =
        let c = task.constants in
        let w = build c cycle.balances task.filler_address cycle.cached ranked in
        let m =
          record_failures c cycle.balances task.filler_address (tokens_needed c ranked [])
            s.metrics in
        let checked = check_all crates cycle ranked (record s { metrics = m }) in
        subst
          (λ budgets.
            Greedy crates (consumed_hashes crates cycle ranked) budgets [] ranked
              (select_fillable_orders crates task cycle ranked s).0)
          (fun_ext (build_lem c cycle.balances task.filler_address cycle.cached ranked))
          (subst
            (λ hashes.
              Greedy crates hashes (budgets_in w) [] ranked
                (select_fillable_orders crates task cycle ranked s).0)
            (check_all-eq-consumed crates cycle ranked (record s { metrics = m }))
            (select_loop-Greedy crates checked.0 w ranked checked.1.metrics
              (build-IsRealistic c cycle.balances task.filler_address cycle.cached real ranked)))

    after_fetch-Outcome :
        (found ranked : List (ℤ × SignedOrder)) (s : FillerState C)
        → candidates crates task.pricing_client s.filled_orders
            (earliest_fill_timestamp task cycle.now)
            cycle.order_stream
          ≡ some found
        → IsRanking found ranked
        → Outcome crates task cycle s.filled_orders
            (after_fetch crates task cycle (some ranked) s).0
            (after_fetch crates task cycle (some ranked) s).1.filled_orders
    unfolding after_fetch consumed_hashes select_fillable_orders
    after_fetch-Outcome found [] s e r = ran found [] e r (stop []) nothing
    after_fetch-Outcome found (x ∷ xs) s e r =
        let (chosen, s') = select_fillable_orders crates task cycle (x ∷ xs) s in
        let m =
          record_failures task.constants cycle.balances task.filler_address
            (tokens_needed task.constants (x ∷ xs) []) s.metrics in
        subst
          (Outcome crates task cycle s.filled_orders
            (some (submit_selected crates task cycle (chosen, s')).0))
          (sym (
            submit_selected-filled crates task cycle chosen s'
            ∙ check_all-put_all crates cycle (x ∷ xs) (record s { metrics = m })))
          (ran found (x ∷ xs) e r (select-Greedy (x ∷ xs) s) (submit_selected-Submits chosen s'))

-- If the chains report balances below the largest number and cached allowances fit 256 bits, a cycle has
-- the outcome of its specification: an error if the stream of orders has one, and else the calls, chunk
-- by chunk up to the first failure, for the greedy choice by margin within the budgets among the orders
-- that are in time, not known or reported as filled, and accepted in price; and it puts exactly the hashes
-- that are reported as filled into the cache.
pub process_orders-Outcome :
    {C : Type 0} (crates : Crates C) (task : FillerTask) (cycle : Cycle) (s : FillerState C)
    → IsRealisticRpc cycle.balances cycle.cached
    → Outcome crates task cycle s.filled_orders
        (process_orders crates task cycle s).0
        (process_orders crates task cycle s).1.filled_orders
unfolding process_orders after_fetch
process_orders-Outcome crates task cycle s real =
    let fetched = fetch_and_score_orders_lem crates task cycle s in
    let after = record s { metrics = (fetch_and_score_orders crates task cycle s).1 } in
    elim (Option-cases (
      candidates crates task.pricing_client s.filled_orders (earliest_fill_timestamp task cycle.now)
        cycle.order_stream)) [
          | inl e ↦ rw (fetched, e) (stream_failed e)
          | inr (found, e) ↦
              rw (fetched, e)
                (after_fetch-Outcome crates task cycle real found (sort_entries found) after e
                  (sort_entries-IsRanking found))
        ]
