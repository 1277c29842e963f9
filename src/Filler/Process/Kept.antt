-- ===== src/Filler/Process/Kept.antt =====
-- Counters that most of a cycle leaves alone: a measure of the metrics that the recording functions
-- keep, and the parts of a cycle in src/filler_task/mod.rs that then keep it.
use signet_filler.Prelude.{
  ℕ, ◌+◌, ◌≡◌, ◌≢◌, refl, ◌∙◌, true, false, Option, none, some, List, [], ◌∷◌, length, Bool-cases,
  Option-cases, inl, inr, is_empty,
}
use signet_filler.Prelude.Int.{ℤ}
use signet_filler.Prelude.Eq.{nat_eq}
use signet_filler.Prelude.Result.{Result, ok, err}
use signet_filler.Tokens.{Address, SystemConstants, ChainTokenPair}
use signet_filler.Order.{SignedOrder}
use signet_filler.Metrics
use signet_filler.Metrics.{
  Metrics, OrderSkippedReason, PreflightQuery, SubmissionResult, record_order_skipped,
  record_pricing_error, record_orders_fetched, record_fetch_order_error,
  record_preflight_query_error, record_nonce_check_error, record_cycle, record_missed_window,
  record_bundle, record_orders_in_bundle, record_orders_per_bundle, record_chunks_per_cycle,
}
use signet_filler.Pricing.{
  FixedPricingClient, FixedPricingError, unknown_token, no_inputs, no_outputs, overflow,
  profitability,
}
use signet_filler.Preflight.{Balances, query_balance, provider_for}
use signet_filler.Filler.{Crates, FillerTask, FillerState, Cycle}
use signet_filler.Filler.Chunks.{chunk_orders}
use signet_filler.Filler.Fetch.{
  Progress, visit, collect, record_score, score_orders, finish, after_collect,
  fetch_and_score_orders,
}
use signet_filler.Filler.Select.{
  note_consumed, check_filled, check_all, count_failure, record_failures,
}
use signet_filler.Filler.Submit.{submit_one_bundle, submit_loop, record_chunks, submit_bundles}
use signet_filler.Filler.Process.{submit_selected}

-- Recording anything but a cycle, a missed window or an order beyond the budgets keeps the measure.
pub record Keeps (f : Metrics → ℕ) : Type 0 where
  pub skipped :
      (r : OrderSkippedReason) (m : Metrics)
      → r ≢ Metrics.insufficient_filler_balance
      → f (record_order_skipped r m) ≡ f m
  pub pricing : (m : Metrics) → f (record_pricing_error m) ≡ f m
  pub fetched : (n : ℕ) (m : Metrics) → f (record_orders_fetched n m) ≡ f m
  pub fetch_error : (m : Metrics) → f (record_fetch_order_error m) ≡ f m
  pub query_error : (q : PreflightQuery) (m : Metrics) → f (record_preflight_query_error q m) ≡ f m
  pub nonce_error : (m : Metrics) → f (record_nonce_check_error m) ≡ f m
  pub bundle : (r : SubmissionResult) (m : Metrics) → f (record_bundle r m) ≡ f m
  pub in_bundle : (n : ℕ) (m : Metrics) → f (record_orders_in_bundle n m) ≡ f m
  pub per_bundle : (n : ℕ) (m : Metrics) → f (record_orders_per_bundle n m) ≡ f m
  pub chunks : (n : ℕ) (m : Metrics) → f (record_chunks_per_cycle n m) ≡ f m

module _ (f : Metrics → ℕ) (k : Keeps f) where
  record_score-kept :
      (r : Result FixedPricingError (Option ℤ)) (m : Metrics) → f (record_score r m) ≡ f m
  record_score-kept (ok none) m = k.skipped Metrics.exceeds_max_loss m (λ e. cc)
  record_score-kept (ok (some x)) m = refl
  record_score-kept (err (unknown_token a)) m = k.skipped Metrics.unknown_token m (λ e. cc)
  record_score-kept (err no_inputs) m = k.pricing m
  record_score-kept (err no_outputs) m = k.pricing m
  record_score-kept (err overflow) m = k.pricing m

  score_orders-kept :
      (client : FixedPricingClient) (orders : List SignedOrder) (m : Metrics)
      → f (score_orders client orders m).1 ≡ f m
  unfolding score_orders
  score_orders-kept client [] m = refl
  score_orders-kept client (o ∷ os) m =
      score_orders-kept client os (record_score (profitability client o) m)
      ∙ record_score-kept (profitability client o) m

  count_failure-kept : (b : Option ℕ) (m : Metrics) → f (count_failure b m) ≡ f m
  count_failure-kept none m = k.query_error Metrics.balance m
  count_failure-kept (some n) m = refl

  pub record_failures-kept :
      (c : SystemConstants) (rpc : Balances) (filler : Address) (keys : List ChainTokenPair)
      (m : Metrics)
      → f (record_failures c rpc filler keys m) ≡ f m
  unfolding record_failures
  record_failures-kept c rpc filler [] m = refl
  record_failures-kept c rpc filler (key ∷ keys) m =
      let answer = query_balance c rpc (provider_for c key) filler key.token in
      record_failures-kept c rpc filler keys (count_failure answer m) ∙ count_failure-kept answer m

  recorded :
      (n : ℕ) (m : Metrics) → f (record_orders_per_bundle n (record_orders_in_bundle n m)) ≡ f m
  recorded n m = k.per_bundle n (record_orders_in_bundle n m) ∙ k.in_bundle n m

  submit_loop-kept :
      (task : FillerTask) (cycle : Cycle) (index : ℕ) (chunks : List (List SignedOrder))
      (m : Metrics)
      → f (submit_loop task cycle index chunks m).1 ≡ f m
  unfolding submit_loop submit_one_bundle
  submit_loop-kept task cycle index [] m = refl
  submit_loop-kept task cycle index (c ∷ cs) m =
      let n = length c in
      let m' = record_orders_per_bundle n (record_orders_in_bundle n m) in
      elim (Option-cases (cycle.fill index c task.target_blocks)) [
        | inl e ↦ rw e (k.bundle Metrics.failure m' ∙ recorded n m)
        | inr (ids, e) ↦ rw e (
            submit_loop-kept task cycle (index + 1) cs (record_bundle Metrics.success m')
            ∙ k.bundle Metrics.success m'
            ∙ recorded n m)
      ]

  record_chunks-kept : (limit : Option ℕ) (n : ℕ) (m : Metrics) → f (record_chunks limit n m) ≡ f m
  record_chunks-kept none n m = refl
  record_chunks-kept (some limit) n m = k.chunks n m

  module _ {C : Type 0} (crates : Crates C) where
    visit-kept :
        (filled : C) (earliest : ℕ) (o : SignedOrder) (p : Progress)
        → f (visit crates filled earliest o p).1.metrics ≡ f p.metrics
    unfolding visit
    visit-kept filled earliest o p = elim (Bool-cases (crates.not_expired_at earliest o)) [
      | inr late ↦ rw late (k.skipped Metrics.expired p.metrics (λ e. cc))
      | inl timely ↦ elim (Bool-cases (crates.lru_contains filled (crates.order_hash o))) [
        | inl old ↦ rw (timely, old) (k.skipped Metrics.already_filled p.metrics (λ e. cc))
        | inr new ↦ rw (timely, new) refl
      ]
    ]

    collect-kept :
        (filled : C) (earliest : ℕ) (xs : List (Option SignedOrder)) (p : Progress)
        → f (collect crates filled earliest xs p).1.metrics ≡ f p.metrics
    unfolding collect
    collect-kept filled earliest [] p = refl
    collect-kept filled earliest (none ∷ xs) p = refl
    collect-kept filled earliest (some o ∷ xs) p =
        collect-kept filled earliest xs (visit crates filled earliest o p).1
        ∙ visit-kept filled earliest o p

    pub check_all-kept :
        (cycle : Cycle) (scored : List (ℤ × SignedOrder)) (s : FillerState C)
        → f (check_all crates cycle scored s).1.metrics ≡ f s.metrics
    unfolding check_all check_filled note_consumed
    check_all-kept cycle [] s = refl
    check_all-kept cycle ((x, o) ∷ rest) s =
        check_all-kept cycle rest (check_filled crates cycle o s).1
        ∙ elim (Option-cases (cycle.nonce_consumed o)) [
          | inl e ↦ rw e (k.nonce_error s.metrics)
          | inr (true, e) ↦ rw e (k.skipped Metrics.already_filled s.metrics (λ q. cc))
          | inr (false, e) ↦ rw e refl
        ]

    after_collect-kept :
        (client : FixedPricingClient) (orders : Option (List SignedOrder)) (p : Progress)
        → f (after_collect client orders p).1 ≡ f p.metrics
    unfolding after_collect finish
    after_collect-kept client none p = k.fetch_error p.metrics
    after_collect-kept client (some []) p = k.fetched p.orders_count p.metrics
    after_collect-kept client (some (o ∷ os)) p =
        let m = record_orders_fetched p.orders_count p.metrics in
        let same = score_orders-kept client (o ∷ os) m ∙ k.fetched p.orders_count p.metrics in
        elim (Bool-cases (is_empty (score_orders client (o ∷ os) m).0)) [
          | inl e ↦ rw e same
          | inr e ↦ rw e same
        ]

    pub fetch-kept :
        (task : FillerTask) (cycle : Cycle) (s : FillerState C)
        → f (fetch_and_score_orders crates task cycle s).1 ≡ f s.metrics
    unfolding fetch_and_score_orders
    fetch-kept task cycle s = after_collect-kept _ _ _ ∙ collect-kept _ _ cycle.order_stream _

    pub submit-kept :
        (task : FillerTask) (cycle : Cycle) (orders : List SignedOrder) (s : FillerState C)
        → f (submit_selected crates task cycle (orders, s)).1.metrics ≡ f s.metrics
    unfolding submit_selected submit_bundles
    submit-kept task cycle [] s = refl
    submit-kept task cycle (o ∷ os) s =
        let chunks = chunk_orders (o ∷ os) task.max_orders_per_bundle in
        submit_loop-kept task cycle 0 chunks
          (record_chunks task.max_orders_per_bundle (length chunks) s.metrics)
        ∙ record_chunks-kept task.max_orders_per_bundle (length chunks) s.metrics
