-- ===== src/Filler/Process/Accounting.antt =====
-- Where the candidates of one cycle of src/filler_task/mod.rs go.
use mathlib.Core.Option.{some-injective}
use signet_filler.Prelude.{
  ℕ, ◌+◌, ◌≡◌, ◌≢◌, refl, ap, sym, ◌∙◌, Bool, true, false, Option, none, some, List, [], ◌∷◌,
  length, length-append, if◌then◌else◌, arith, Bool-cases, Option-cases, inl, inr,
}
use signet_filler.Prelude.Int.{ℤ}
use signet_filler.Prelude.Eq.{nat_eq, contains}
use signet_filler.Order.{SignedOrder}
use signet_filler.Metrics
use signet_filler.Metrics.{
  Metrics, OrderSkippedReason, PreflightQuery, SubmissionResult, insufficient_filler_balance,
  record_order_skipped, record_pricing_error, record_orders_fetched, record_fetch_order_error,
  record_preflight_query_error, record_nonce_check_error, record_bundle, record_orders_in_bundle,
  record_orders_per_bundle, record_chunks_per_cycle, record_cycle,
}
use signet_filler.Preflight.{WorkingMap, build, tokens_needed, can_fill, accept_order}
use signet_filler.Filler.{Crates, FillerTask, FillerState, Cycle}
use signet_filler.Filler.Fetch.{fetch_and_score_orders}
use signet_filler.Filler.Select.{
  note_consumed, check_filled, check_all, consider, select_loop, record_failures,
  select_fillable_orders,
}
use signet_filler.Filler.Submit.{Submission}
use signet_filler.Filler.Submit.Trace.{submitted, outcomes, submit_bundles-prefix}
use signet_filler.Filler.Process.{submit_selected, after_fetch, process_orders}
use signet_filler.Filler.Process.Kept.{
  Keeps, record_failures-kept, check_all-kept, fetch-kept, submit-kept,
}

abbrev beyond : Metrics → ℕ
beyond m = m.skipped_insufficient_filler_balance

skipped-beyond :
    (r : OrderSkippedReason) (m : Metrics)
    → r ≢ insufficient_filler_balance
    → beyond (record_order_skipped r m) ≡ beyond m
unfolding record_order_skipped
skipped-beyond Metrics.already_filled m ne = refl
skipped-beyond Metrics.expired m ne = refl
skipped-beyond Metrics.exceeds_max_loss m ne = refl
skipped-beyond Metrics.unknown_token m ne = refl
skipped-beyond Metrics.insufficient_filler_balance m ne = absurd (ne refl)

beyond-Keeps : Keeps beyond
unfolding record_pricing_error record_orders_fetched record_fetch_order_error
    record_preflight_query_error record_nonce_check_error record_bundle record_orders_in_bundle
    record_orders_per_bundle record_chunks_per_cycle
beyond-Keeps = record {
  skipped = skipped-beyond;
  pricing = λ m. refl;
  fetched = λ n m. refl;
  fetch_error = λ m. refl;
  query_error = λ q m. ground arith;
  nonce_error = λ m. refl;
  bundle = λ r m. ground arith;
  in_bundle = λ n m. refl;
  per_bundle = λ n m. refl;
  chunks = λ n m. refl;
}

abbrev pub is_reported : Option Bool → Bool
is_reported none = false
is_reported (some consumed) = consumed

abbrev one_if : Bool → ℕ
one_if true = 1
one_if false = 0

module _ {C : Type 0} (crates : Crates C) where
  -- The hashes of the candidates whose nonce is reported as consumed.
  unfoldable pub consumed_hashes : Cycle → List (ℤ × SignedOrder) → List ℕ
  consumed_hashes cycle [] = []
  consumed_hashes cycle ((m, o) ∷ rest) =
      let later = consumed_hashes cycle rest in
      if is_reported (cycle.nonce_consumed o) then crates.order_hash o ∷ later else later

  -- The candidates whose hash is among the given ones.
  unfoldable pub count_among : List ℕ → List (ℤ × SignedOrder) → ℕ
  count_among hashes [] = 0
  count_among hashes ((m, o) ∷ rest) =
      one_if (contains (crates.order_hash o) hashes) + count_among hashes rest

  pub check_all-eq-consumed :
      (cycle : Cycle) (scored : List (ℤ × SignedOrder)) (s : FillerState C)
      → (check_all crates cycle scored s).0 ≡ consumed_hashes cycle scored
  unfolding check_all check_filled note_consumed consumed_hashes
  check_all-eq-consumed cycle [] s = refl
  check_all-eq-consumed cycle ((m, o) ∷ rest) s =
      let ih = check_all-eq-consumed cycle rest (check_filled crates cycle o s).1 in
      elim (Option-cases (cycle.nonce_consumed o)) [
        | inl e ↦ rw e (rw e at ih)
        | inr (true, e) ↦ rw e (ap (λ t. crates.order_hash o ∷ t) (rw e at ih))
        | inr (false, e) ↦ rw e (rw e at ih)
      ]

  select_loop-counts :
      (filled : List ℕ) (scored : List (ℤ × SignedOrder)) (w : WorkingMap) (m : Metrics)
      → let r = select_loop crates filled scored w m in
        beyond r.1 + length r.0 + count_among filled scored ≡ beyond m + length scored
  unfolding select_loop consider count_among record_order_skipped
  select_loop-counts filled [] w m = omega arith
  select_loop-counts filled ((x, o) ∷ rest) w m =
      elim (Bool-cases (contains (crates.order_hash o) filled)) [
        | inl old ↦ rw old (omega (arith, select_loop-counts filled rest w m))
        | inr new ↦ elim (Bool-cases (can_fill w o)) [
          | inl fits ↦
              rw (new, fits) (omega (arith, select_loop-counts filled rest (accept_order w o) m))
          | inr costly ↦
              rw (new, costly)
                (omega (
                  arith,
                  select_loop-counts filled rest w
                      (record_order_skipped insufficient_filler_balance m),
                ))
        ]
      ]

  select-counts :
      (task : FillerTask) (cycle : Cycle) (scored : List (ℤ × SignedOrder)) (s : FillerState C)
      → let r = select_fillable_orders crates task cycle scored s in
        beyond r.1.metrics + length r.0 + count_among (consumed_hashes cycle scored) scored
        ≡ beyond s.metrics + length scored
  unfolding select_fillable_orders
  select-counts task cycle scored s =
      let keys = tokens_needed task.constants scored [] in
      let m = record_failures task.constants cycle.balances task.filler_address keys s.metrics in
      let checked = check_all crates cycle scored (record s { metrics = m }) in
      let w = build task.constants cycle.balances task.filler_address cycle.cached scored in
      rw (← check_all-eq-consumed cycle scored (record s { metrics = m })) (
        omega (
          arith,
          select_loop-counts checked.0 scored w checked.1.metrics,
          check_all-kept beyond beyond-Keeps crates cycle scored (record s { metrics = m }),
          record_failures-kept beyond beyond-Keeps task.constants cycle.balances task.filler_address
              keys s.metrics,
        ))

  submit-left :
      (task : FillerTask) (cycle : Cycle) (orders : List SignedOrder) (s : FillerState C)
      → let sent = (submit_selected crates task cycle (orders, s)).0 in
        (unsent : ℕ) × (length (submitted sent) + unsent ≡ length orders)
        × (outcomes false sent ≡ 0 → unsent ≡ 0)
  unfolding submit_selected submitted
  submit-left task cycle [] s = (0, refl, λ e. refl)
  submit-left task cycle (o ∷ os) s =
      let (rest, same, few, all) = submit_bundles-prefix task cycle (o ∷ os) s.metrics in
      (length rest, sym (length-append _ rest) ∙ ap length same, λ e. ap length (all e))

  after_fetch-counts :
      (task : FillerTask) (cycle : Cycle) (scored : List (ℤ × SignedOrder)) (s : FillerState C)
      (sent : List Submission)
      → (after_fetch crates task cycle (some scored) s).0 ≡ some sent
      → (unsent : ℕ) × (beyond (after_fetch crates task cycle (some scored) s).1.metrics
            + length (submitted sent)
            + unsent
            + count_among (consumed_hashes cycle scored) scored
          ≡ beyond s.metrics + length scored)
        × (outcomes false sent ≡ 0 → unsent ≡ 0)
  unfolding after_fetch submitted count_among
  after_fetch-counts task cycle [] s sent e =
      rw (← some-injective _ _ e) (0, omega arith, λ q. refl)
  after_fetch-counts task cycle (x ∷ xs) s sent e =
      let r = select_fillable_orders crates task cycle (x ∷ xs) s in
      let (unsent, all, none_left) = submit-left task cycle r.0 r.1 in
      rw (← some-injective _ _ e) (
        unsent,
        omega (
          arith,
          all,
          select-counts task cycle (x ∷ xs) s,
          submit-kept beyond beyond-Keeps crates task cycle r.0 r.1,
        ),
        none_left,
      )

-- In a cycle without a fetch error, every candidate is submitted, or counted as beyond the budgets, or
-- left out because its hash is that of a candidate whose nonce is reported as consumed, or left over
-- after a submission that failed.
pub process_orders-accounting :
    {C : Type 0} (crates : Crates C) (task : FillerTask) (cycle : Cycle) (s : FillerState C)
    (scored : List (ℤ × SignedOrder)) (sent : List Submission)
    → (fetch_and_score_orders crates task cycle s).0 ≡ some scored
    → (process_orders crates task cycle s).0 ≡ some sent
    → (unsent : ℕ) × ((process_orders crates task cycle
            s).1.metrics.skipped_insufficient_filler_balance
          + length (submitted sent)
          + unsent
          + count_among crates (consumed_hashes crates cycle scored) scored
        ≡ s.metrics.skipped_insufficient_filler_balance + length scored)
      × (outcomes false sent ≡ 0 → unsent ≡ 0)
unfolding process_orders record_cycle
process_orders-accounting {C} crates task cycle s scored sent e ran =
    let after : FillerState C = record s {
      metrics = (fetch_and_score_orders crates task cycle s).1;
    } in
    let (unsent, all, none_left) =
      after_fetch-counts crates task cycle scored after sent (rw e at ran) in
    (
      unsent,
      rw e (omega (arith, all, fetch-kept beyond beyond-Keeps crates task cycle s)),
      none_left,
    )
