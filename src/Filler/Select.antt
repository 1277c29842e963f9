-- ===== src/Filler/Select.antt =====
-- `check_filled` and `select_fillable_orders` of src/filler_task/mod.rs.
pub mod Budgets
pub mod Choice
pub mod Concurrent
pub mod Effects
pub mod Gathered
pub mod Extent
pub mod AnyOrder
use signet_filler.Prelude.{ℕ, Bool, true, false, Option, none, some, List, [], ◌∷◌, if◌then◌else◌}
use signet_filler.Prelude.Int.{ℤ}
use signet_filler.Prelude.Eq.{nat_eq, contains}
use signet_filler.Tokens.{Address, SystemConstants, ChainTokenPair}
use signet_filler.Order.{SignedOrder}
use signet_filler.Preflight.{
  Balances, WorkingMap, can_fill, accept_order, build, tokens_needed, query_balance, provider_for,
}
use signet_filler.Metrics.{
  Metrics, already_filled, insufficient_filler_balance, balance, record_order_skipped,
  record_nonce_check_error, record_preflight_query_error,
}
use signet_filler.Filler.{Crates, FillerTask, FillerState, Cycle}

abbrev pub add_hash : Option ℕ → List ℕ → List ℕ
add_hash none hashes = hashes
add_hash (some hash) hashes = hash ∷ hashes

module _ {C : Type 0} (crates : Crates C) where
  -- After the nonce bitmap has been read: `none` is an RPC error.
  unfoldable pub note_consumed :
      SignedOrder → Option Bool → FillerState C → Option ℕ × FillerState C
  unfolding record_order_skipped record_nonce_check_error
  note_consumed order none s = (none, record s { metrics = record_nonce_check_error s.metrics })
  note_consumed order (some true) s = (
    some (crates.order_hash order),
    record {
      filled_orders = crates.lru_put s.filled_orders (crates.order_hash order);
      metrics = record_order_skipped already_filled s.metrics;
    },
  )
  note_consumed order (some false) s = (none, s)

  unfoldable pub check_filled : Cycle → SignedOrder → FillerState C → Option ℕ × FillerState C
  unfolding note_consumed
  check_filled cycle order = note_consumed order (cycle.nonce_consumed order)

  -- The `join_all` of the checks, in the order of the candidates, and the set of filled hashes.
  unfoldable pub check_all : Cycle → List (ℤ × SignedOrder) → FillerState C → List ℕ × FillerState C
  unfolding check_filled
  check_all cycle [] s = ([], s)
  check_all cycle ((margin, order) ∷ rest) s =
      let (hash, s') = check_filled cycle order s in
      let (hashes, s'') = check_all cycle rest s' in (add_hash hash hashes, s'')

  -- One round of the selection loop: whether the order is taken, and the budgets left.
  unfoldable pub consider :
      List ℕ → SignedOrder → WorkingMap → Metrics → Bool × WorkingMap × Metrics
  unfolding record_order_skipped
  consider filled order w m =
      if contains (crates.order_hash order) filled
      then (false, w, m)
      else if can_fill w order
      then (true, accept_order w order, m)
      else (false, w, record_order_skipped insufficient_filler_balance m)

  unfoldable pub select_loop :
      List ℕ → List (ℤ × SignedOrder) → WorkingMap → Metrics → List SignedOrder × Metrics
  unfolding consider
  select_loop filled [] w m = ([], m)
  select_loop filled ((margin, order) ∷ rest) w m =
      let (taken, w', m') = consider filled order w m in
      let (orders, m'') = select_loop filled rest w' m' in
      ((if taken then order ∷ orders else orders), m'')

abbrev pub count_failure : Option ℕ → Metrics → Metrics
count_failure none m = record_preflight_query_error balance m
count_failure (some b) m = m

-- The metrics of `WorkingMap::build`: one error for each balance query that failed.
unfoldable pub record_failures :
    SystemConstants → Balances → Address → List ChainTokenPair → Metrics → Metrics
unfolding record_preflight_query_error
record_failures c rpc filler [] m = m
record_failures c rpc filler (key ∷ keys) m =
    record_failures c rpc filler keys
      (count_failure (query_balance c rpc (provider_for c key) filler key.token) m)

unfoldable pub select_fillable_orders :
    {C : Type 0}
    → Crates C
    → FillerTask
    → Cycle
    → List (ℤ × SignedOrder)
    → FillerState C
    → List SignedOrder × FillerState C
unfolding check_all select_loop record_failures
select_fillable_orders crates task cycle scored s =
    let working_map = build task.constants cycle.balances task.filler_address cycle.cached scored in
    let m =
      record_failures task.constants cycle.balances task.filler_address
        (tokens_needed task.constants scored []) s.metrics in
    let (filled_hashes, s') = check_all crates cycle scored (record s { metrics = m }) in
    let (orders, m') = select_loop crates filled_hashes scored working_map s'.metrics in
    (orders, record s' { metrics = m' })
