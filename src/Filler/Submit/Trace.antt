-- ===== src/Filler/Submit/Trace.antt =====
-- The calls that `submit_bundles` of src/filler_task/mod.rs makes, and their metrics.
use mathlib.Core.List.{append-nil, append_assoc}
use signet_filler.Prelude.{
  ap, ◌∙◌, ℕ, ◌+◌, ◌≤◌, ◌≡◌, refl, Bool, true, false, Option, none, some, List, [], ◌∷◌, ◌++◌,
  length, length-append, arith, Option-cases, inl, inr,
}
use signet_filler.Order.{SignedOrder}
use signet_filler.Metrics.{Metrics, record_chunks_per_cycle}
use signet_filler.Filler.{FillerTask, Cycle}
use signet_filler.Filler.Chunks.{chunk_orders, flatten, flatten-chunk_orders}
use signet_filler.Filler.Submit.{
  Submission, submit_one_bundle, submit_loop, record_chunks, submit_bundles,
}

-- The calls follow the chunks in order: each but the last succeeded, and there is no call after a
-- failure. A chunk is left out only after a failure.
pub data Follows (task : FillerTask) (cycle : Cycle)
    : ℕ → List (List SignedOrder) → List Submission → Type 0 where
  finished : (index : ℕ) → Follows task cycle index [] []
  went_on :
      (index : ℕ) (chunk : List SignedOrder) (ids : List ℕ) {rest : List (List SignedOrder)}
      {later : List Submission}
      → cycle.fill index chunk task.target_blocks ≡ some ids
      → Follows task cycle (index + 1) rest later
      → Follows task cycle index
          (chunk ∷ rest)
          (record { orders = chunk; succeeded = true } ∷ later)
  stopped :
      (index : ℕ) (chunk : List SignedOrder) (rest : List (List SignedOrder))
      → cycle.fill index chunk task.target_blocks ≡ none
      → Follows task cycle index (chunk ∷ rest) (record { orders = chunk; succeeded = false } ∷ [])

pub submit_loop-Follows :
    (task : FillerTask) (cycle : Cycle) (index : ℕ) (chunks : List (List SignedOrder)) (m : Metrics)
    → Follows task cycle index chunks (submit_loop task cycle index chunks m).0
unfolding submit_loop
submit_loop-Follows task cycle index [] m = finished index
submit_loop-Follows task cycle index (chunk ∷ rest) m =
    elim (Option-cases (cycle.fill index chunk task.target_blocks)) [
      | inl e ↦ rw e (stopped index chunk rest e)
      | inr (ids, e) ↦
          rw e (went_on index chunk ids e (submit_loop-Follows task cycle (index + 1) rest _))
    ]

-- The orders of the calls, in order.
unfoldable pub submitted : List Submission → List SignedOrder
submitted [] = []
submitted (s ∷ rest) = s.orders ++ submitted rest

abbrev count_with : Bool → Bool → ℕ
count_with true true = 1
count_with false false = 1
count_with _ _ = 0

-- The calls with a given outcome.
abbrev pub outcomes : Bool → List Submission → ℕ
outcomes b [] = 0
outcomes b (s ∷ rest) = count_with b s.succeeded + outcomes b rest

pub Follows-prefix :
    {task : FillerTask} {cycle : Cycle} {index : ℕ} {chunks : List (List SignedOrder)}
    {sent : List Submission}
    → Follows task cycle index chunks sent
    → (rest : List SignedOrder) × (submitted sent ++ rest ≡ flatten chunks)
      × (outcomes false sent ≤ 1)
      × (outcomes false sent ≡ 0 → rest ≡ [])
unfolding submitted flatten
Follows-prefix (finished index) = ([], refl, omega arith, λ e. refl)
Follows-prefix (went_on index chunk ids {later = later} e f) =
    let (rest, same, few, all) = Follows-prefix f in
    (
      rest,
      append_assoc chunk (submitted later) rest ∙ ap (λ t. chunk ++ t) same,
      omega arith,
      λ z. all (omega arith),
    )
Follows-prefix (stopped index chunk rest e) =
    (flatten rest, rw append-nil, omega arith, λ z. absurd (omega arith))

-- The calls submit a prefix of the orders, in order; at most one call fails, and if none fails all
-- orders are submitted.
pub submit_bundles-prefix :
    (task : FillerTask) (cycle : Cycle) (orders : List SignedOrder) (m : Metrics)
    → let sent = (submit_bundles task cycle orders m).0 in
      (rest : List SignedOrder) × (submitted sent ++ rest ≡ orders)
      × (outcomes false sent ≤ 1)
      × (outcomes false sent ≡ 0 → rest ≡ [])
unfolding submit_bundles
submit_bundles-prefix task cycle orders m =
    let chunks = chunk_orders orders task.max_orders_per_bundle in
    let (rest, same, few, all) = Follows-prefix (
      submit_loop-Follows task cycle 0 chunks
        (record_chunks task.max_orders_per_bundle (length chunks) m)) in
    (rest, same ∙ flatten-chunk_orders orders task.max_orders_per_bundle, few, all)

one_bundle-counts :
    (task : FillerTask) (cycle : Cycle) (index : ℕ) (orders : List SignedOrder) (m : Metrics)
    → let r = submit_one_bundle task cycle index orders m in
      (r.1.bundles_success ≡ m.bundles_success + count_with true r.0)
      × (r.1.bundles_failure ≡ m.bundles_failure + count_with false r.0)
      × (r.1.orders_in_bundles ≡ m.orders_in_bundles + length orders)
unfolding submit_one_bundle
one_bundle-counts task cycle index orders m = ground arith

submit_loop-counts :
    (task : FillerTask) (cycle : Cycle) (index : ℕ) (chunks : List (List SignedOrder)) (m : Metrics)
    → let r = submit_loop task cycle index chunks m in
      (r.1.bundles_success ≡ m.bundles_success + outcomes true r.0)
      × (r.1.bundles_failure ≡ m.bundles_failure + outcomes false r.0)
      × (r.1.orders_in_bundles ≡ m.orders_in_bundles + length (submitted r.0))
unfolding submit_loop submitted
submit_loop-counts task cycle index [] m = omega arith
submit_loop-counts task cycle index (chunk ∷ rest) m =
    let one = submit_one_bundle task cycle index chunk m in
    let later = submit_loop task cycle (index + 1) rest one.1 in
    ground (
      arith,
      one_bundle-counts task cycle index chunk m,
      submit_loop-counts task cycle (index + 1) rest one.1,
      length-append chunk (submitted later.0),
      length-append chunk [],
    )

record_chunks-counts :
    (limit : Option ℕ) (n : ℕ) (m : Metrics)
    → let r = record_chunks limit n m in
      (r.bundles_success ≡ m.bundles_success)
      × (r.bundles_failure ≡ m.bundles_failure)
      × (r.orders_in_bundles ≡ m.orders_in_bundles)
unfolding record_chunks_per_cycle
record_chunks-counts none n m = omega arith
record_chunks-counts (some limit) n m = omega arith

-- Every call is counted once, as a success or as a failure, and its orders are counted either way.
pub submit_bundles-counts :
    (task : FillerTask) (cycle : Cycle) (orders : List SignedOrder) (m : Metrics)
    → let r = submit_bundles task cycle orders m in
      (r.1.bundles_success ≡ m.bundles_success + outcomes true r.0)
      × (r.1.bundles_failure ≡ m.bundles_failure + outcomes false r.0)
      × (r.1.orders_in_bundles ≡ m.orders_in_bundles + length (submitted r.0))
unfolding submit_bundles
submit_bundles-counts task cycle orders m =
    let limit = task.max_orders_per_bundle in
    let chunks = chunk_orders orders limit in
    omega (
      arith,
      submit_loop-counts task cycle 0 chunks (record_chunks limit (length chunks) m),
      record_chunks-counts limit (length chunks) m,
    )
