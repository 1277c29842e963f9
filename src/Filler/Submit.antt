-- ===== src/Filler/Submit.antt =====
-- `submit_bundles` and `submit_one_bundle` of src/filler_task/mod.rs.
pub mod Trace
use signet_filler.Prelude.{
  ℕ, ◌+◌, Bool, true, false, Option, none, some, List, [], ◌∷◌, length, if◌then◌else◌,
}
use signet_filler.Order.{SignedOrder}
use signet_filler.Metrics.{
  Metrics, success, failure, record_bundle, record_orders_in_bundle, record_orders_per_bundle,
  record_chunks_per_cycle,
}
use signet_filler.Filler.{FillerTask, Cycle}
use signet_filler.Filler.Chunks.{chunk_orders}

-- After `Filler::fill` has answered with bundle ids, or an error.
abbrev record_answer : Option (List ℕ) → Metrics → Bool × Metrics
record_answer (some ids) m = (true, record_bundle success m)
record_answer none m = (false, record_bundle failure m)

unfoldable pub submit_one_bundle :
    FillerTask → Cycle → ℕ → List SignedOrder → Metrics → Bool × Metrics
unfolding record_orders_in_bundle record_orders_per_bundle record_bundle
submit_one_bundle task cycle index orders m =
    record_answer (cycle.fill index orders task.target_blocks)
      (record_orders_per_bundle (length orders) (record_orders_in_bundle (length orders) m))

-- A call of `Filler::fill` with its orders, and whether it succeeded.
pub record Submission : Type 0 where
  pub orders : List SignedOrder
  pub succeeded : Bool

-- The loop over the chunks, which ends at the first failure: the calls made, in order.
unfoldable pub submit_loop :
    FillerTask → Cycle → ℕ → List (List SignedOrder) → Metrics → List Submission × Metrics
unfolding submit_one_bundle
submit_loop task cycle index [] m = ([], m)
submit_loop task cycle index (chunk ∷ rest) m =
    let (done, m') = submit_one_bundle task cycle index chunk m in
    let (later, m'') = submit_loop task cycle (index + 1) rest m' in
    if done
    then (record { orders = chunk; succeeded = true } ∷ later, m'')
    else (record { orders = chunk; succeeded = false } ∷ [], m')

abbrev pub record_chunks : Option ℕ → ℕ → Metrics → Metrics
record_chunks none n m = m
record_chunks (some limit) n m = record_chunks_per_cycle n m

unfoldable pub submit_bundles :
    FillerTask → Cycle → List SignedOrder → Metrics → List Submission × Metrics
unfolding chunk_orders submit_loop record_chunks_per_cycle
submit_bundles task cycle orders m =
    let chunks = chunk_orders orders task.max_orders_per_bundle in
    submit_loop task cycle 0 chunks (record_chunks task.max_orders_per_bundle (length chunks) m)
