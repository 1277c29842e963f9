-- ===== src/Tests/Filler.antt =====
-- The theorems on a cycle at the sample cycle and at small lists.
use signet_filler.Prelude.{◌+◌, ◌≤◌, ◌≡◌, ◌++◌, true, length, false, some, List, [], ◌∷◌, arith}
use mathlib.Core.List.{flatten}
use signet_filler.Prelude.Eq.{nat_eq}
use signet_filler.Tokens.{pair_eq}
use signet_filler.Order.{SignedOrder}
use signet_filler.Metrics.{no_metrics}
use signet_filler.Filler.Chunks.{
  chunk_orders, AreChunks, flatten-chunk_orders, chunk_orders-AreChunks,
}
use signet_filler.Filler.Submit.{submit_bundles}
use signet_filler.Filler.Submit.Trace.{
  submitted, outcomes, submit_bundles-prefix, submit_bundles-counts,
}
use signet_filler.Tests.Samples.{usdc_order, task, cycle}

abbrev pair : List SignedOrder
pair = usdc_order 1 70 60 ∷ usdc_order 3 90 60 ∷ []

abbrev three : List SignedOrder
three = usdc_order 2 50 40 ∷ pair

flatten-chunk_orders_example : flatten (chunk_orders three (some 2)) ≡ three
flatten-chunk_orders_example = flatten-chunk_orders three (some 2)

chunk_orders-AreChunks_example : AreChunks 2 (chunk_orders three (some 2))
chunk_orders-AreChunks_example = chunk_orders-AreChunks three 2 (omega arith) (λ e. ground arith)

submit_bundles-prefix_example :
    let sent = (submit_bundles task cycle pair no_metrics).0 in
    (rest : List SignedOrder) × (submitted sent ++ rest ≡ pair)
    × (outcomes false sent ≤ 1)
    × (outcomes false sent ≡ 0 → rest ≡ [])
submit_bundles-prefix_example = submit_bundles-prefix task cycle pair no_metrics

submit_bundles-counts_example :
    let r = submit_bundles task cycle pair no_metrics in
    (r.1.bundles_success ≡ no_metrics.bundles_success + outcomes true r.0)
    × (r.1.bundles_failure ≡ no_metrics.bundles_failure + outcomes false r.0)
    × (r.1.orders_in_bundles ≡ no_metrics.orders_in_bundles + length (submitted r.0))
submit_bundles-counts_example = submit_bundles-counts task cycle pair no_metrics
