-- ===== src/Filler/Select/AnyOrder.antt =====
-- The answers to the concurrent requests of `select_fillable_orders` in src/filler_task/mod.rs may
-- arrive in any order.
use mathlib.Core.List.{Perm, Permᴰ}
use mathlib.Core.Path.{subst}
use native.Mathlib.Nat.{ℕ_set}
use mathlib.Core.Logic.{∥∥₁_elim}
use signet_filler.Prelude.{
  ℕ, ◌+◌, ◌≤◌, ◌≡◌, refl, sym, ◌∙◌, ap, false, ◌||◌, none, List, [], ◌∷◌, ◌++◌, map, length, arith,
}
use signet_filler.Prelude.Eq.{nat_eq, contains}
use signet_filler.Prelude.HashMap.{get}
use signet_filler.Prelude.Int.{ℤ}
use signet_filler.Tokens.{ChainTokenPair, pair_eq}
use signet_filler.Order.{SignedOrder}
use signet_filler.Preflight.{tokens_needed, build}
use signet_filler.Preflight.Build.{build_lem}
use signet_filler.Filler.{Crates, FillerTask, FillerState, Cycle}
use signet_filler.Filler.Select.{check_all, select_loop, record_failures, select_fillable_orders}
use signet_filler.Filler.Select.Choice.{Greedy}
use signet_filler.Filler.Select.Concurrent.{
  Arrival, queried, checked, run_all, run_all-append, run_all-Permᴰ, Gathered, ask, arrive,
  select_arriving,
}
use signet_filler.Filler.Process.Accounting.{check_all-eq-consumed, consumed_hashes}
use signet_filler.Filler.Process.Complete.{orders_of}
use signet_filler.Filler.Process.Outcome.{budgets_for, select-Greedy}
use signet_filler.Filler.Process.Realistic.{IsRealisticRpc}
use signet_filler.Filler.Run.Memory.{LruLaws}
use signet_filler.Filler.Select.Effects.{
  add, add_comm, effect, run_all-metrics, reports, reports_comm, total_cost, total_cost-Permᴰ,
  run_all-known,
}
use signet_filler.Filler.Select.Extent.{AreAlike, select_loop-AreAlike}
use signet_filler.Filler.Select.Gathered.{
  funds, funds_comm, run_all-budgets, run_all-filled, in_turn, in_turn-funds, in_turn-reports,
}

or_false : (b : _) → (b || false) ≡ b
or_false b = ground arith

module _ {C : Type 0} (crates : Crates C) (task : FillerTask) (cycle : Cycle) where
  queries-in_turn :
      (keys : List ChainTokenPair) (g : Gathered C)
      → (run_all (arrive crates task cycle) (map queried keys) g).state ≡ record g.state {
        metrics =
            record_failures task.constants cycle.balances task.filler_address keys g.state.metrics;
      }
  unfolding arrive record_failures
  queries-in_turn [] g = refl
  queries-in_turn (key ∷ keys) g = queries-in_turn keys _

  checks-in_turn :
      (scored : List (ℤ × SignedOrder)) (g : Gathered C)
      → (run_all (arrive crates task cycle) (map checked (orders_of scored)) g).state
        ≡ (check_all crates cycle scored g.state).1
  unfolding arrive check_all
  checks-in_turn [] g = refl
  checks-in_turn ((m, o) ∷ rest) g = checks-in_turn rest (arrive crates task cycle (checked o) g)

  -- The state of the model of `select_fillable_orders` before its selection loop.
  abbrev checked_state : List (ℤ × SignedOrder) → FillerState C → FillerState C
  checked_state scored s =
      (check_all crates cycle scored (record s {
        metrics =
            record_failures task.constants cycle.balances task.filler_address
              (tokens_needed task.constants scored []) s.metrics;
      })).1

  in_turn-state :
      (scored : List (ℤ × SignedOrder)) (s : FillerState C)
      → (run_all (arrive crates task cycle) (in_turn crates task cycle scored) (ask s)).state
        ≡ checked_state scored s
  in_turn-state scored s =
      let keys = tokens_needed task.constants scored [] in
      let asked = run_all (arrive crates task cycle) (map queried keys) (ask s) in
      ap (λ g. g.state)
        (run_all-append (arrive crates task cycle) (map queried keys)
          (map checked (orders_of scored)) (ask s))
      ∙ checks-in_turn scored asked
      ∙ ap (λ t. (check_all crates cycle scored t).1) (queries-in_turn keys (ask s))

  total_cost-in_turn :
      (keys : List ChainTokenPair) (scored : List (ℤ × SignedOrder))
      → total_cost (map queried keys ++ map checked (orders_of scored)) ≡ length scored
  total_cost-in_turn [] [] = refl
  total_cost-in_turn [] (x ∷ xs) = omega (arith, total_cost-in_turn [] xs)
  total_cost-in_turn (key ∷ keys) scored = omega (arith, total_cost-in_turn keys scored)

  module _ (scored : List (ℤ × SignedOrder)) (arrivals : List Arrival) (s : FillerState C)
      (perm : Permᴰ arrivals (in_turn crates task cycle scored)) where
    -- What the answers leave.
    abbrev end : Gathered C
    end = run_all (arrive crates task cycle) arrivals (ask s)

    end-filled : (h : ℕ) → contains h end.filled ≡ contains h (consumed_hashes crates cycle scored)
    end-filled h =
        run_all-filled crates task cycle h arrivals (ask s)
        ∙ run_all-Permᴰ (reports crates task cycle h) (reports_comm crates task cycle h) perm false
        ∙ in_turn-reports crates task cycle h scored false
        ∙ or_false (contains h (consumed_hashes crates cycle scored))

    end-budgets :
        AreAlike end.budgets
          (build task.constants cycle.balances task.filler_address cycle.cached scored).inner
    unfolding get
    end-budgets key =
        run_all-budgets crates task cycle key arrivals (ask s)
        ∙ run_all-Permᴰ (funds crates task cycle key) (funds_comm crates task cycle key) perm none
        ∙ in_turn-funds crates task cycle key scored
        ∙ sym (build_lem task.constants cycle.balances task.filler_address cycle.cached scored key)

    end-metrics : end.state.metrics ≡ (checked_state scored s).metrics
    end-metrics =
        run_all-metrics crates task cycle arrivals (ask s)
        ∙ run_all-Permᴰ (λ a. add (effect crates task cycle a))
            (λ a b. add_comm (effect crates task cycle a) (effect crates task cycle b)) perm
            s.metrics
        ∙ sym (run_all-metrics crates task cycle (in_turn crates task cycle scored) (ask s))
        ∙ ap (λ t. t.metrics) (in_turn-state scored s)

    end-known :
        (size : C → ℕ) (capacity : ℕ)
        → LruLaws crates size capacity
        → size s.filled_orders + length scored ≤ capacity
        → (h : ℕ)
        → crates.lru_contains end.state.filled_orders h ≡ (
            contains h (consumed_hashes crates cycle scored)
            || crates.lru_contains s.filled_orders h)
    end-known size capacity laws room h =
        let cheap = total_cost-in_turn (tokens_needed task.constants scored []) scored in
        run_all-known crates task cycle size capacity laws h arrivals (ask s)
          (omega (arith, total_cost-Permᴰ perm, cheap))
        ∙ run_all-Permᴰ (reports crates task cycle h) (reports_comm crates task cycle h) perm
            (crates.lru_contains s.filled_orders h)
        ∙ in_turn-reports crates task cycle h scored (crates.lru_contains s.filled_orders h)

    end-select :
        let r = select_arriving crates task cycle arrivals scored s in
        let r' = select_fillable_orders crates task cycle scored s in
        (r.0 ≡ r'.0) × (r.1.metrics ≡ r'.1.metrics)
    unfolding select_arriving select_fillable_orders
    end-select =
        let start = record s {
          metrics =
              record_failures task.constants cycle.balances task.filler_address
                (tokens_needed task.constants scored []) s.metrics;
        } in
        let same =
          select_loop-AreAlike crates end.filled (check_all crates cycle scored start).0
            (λ h.
              end-filled h
              ∙ ap (contains h) (sym (check_all-eq-consumed crates cycle scored start)))
            scored (record { inner = end.budgets })
            (build task.constants cycle.balances task.filler_address cycle.cached scored)
            end.state.metrics end-budgets
          ∙ ap
              (λ m.
                select_loop crates (check_all crates cycle scored start).0 scored
                  (build task.constants cycle.balances task.filler_address cycle.cached scored) m)
              end-metrics in
        (ap (λ r. r.0) same, ap (λ r. r.1) same)

  -- In whatever order the answers to the balance queries and to the nonce checks of a cycle arrive, with
  -- the budgets and the reported hashes made from them as they come in: the selected orders are the
  -- greedy choice of the candidates whose nonce is not reported as consumed, within what the chains and
  -- the cached allowances say of each token; the orders and the metrics are those of
  -- `select_fillable_orders` with the answers in turn; and the cache of filled orders holds the reported
  -- hashes beside those it held. The answers are realistic (`IsRealisticRpc`), the cache has room for
  -- the candidates, and `lru` keeps to its documentation (`LruLaws`).
  pub select-any_order :
      (size : C → ℕ) (capacity : ℕ) (scored : List (ℤ × SignedOrder)) (arrivals : List Arrival)
      (s : FillerState C)
      → IsRealisticRpc cycle.balances cycle.cached
      → LruLaws crates size capacity
      → size s.filled_orders + length scored ≤ capacity
      → Perm arrivals (in_turn crates task cycle scored)
      → let r = select_arriving crates task cycle arrivals scored s in
        let r' = select_fillable_orders crates task cycle scored s in
        Greedy crates
          (consumed_hashes crates cycle scored)
          (budgets_for task.constants cycle.balances task.filler_address cycle.cached scored)
          []
          scored
          r.0
        × (r.0 ≡ r'.0)
        × (r.1.metrics ≡ r'.1.metrics)
        × ((h : ℕ)
            → crates.lru_contains r.1.filled_orders h ≡ (
                contains h (consumed_hashes crates cycle scored)
                || crates.lru_contains s.filled_orders h))
  unfolding select_arriving
  select-any_order size capacity scored arrivals s real laws room perm =
      let (orders, metrics) = ∥∥₁_elim perm (hlevel ℕ_set) (λ p. end-select scored arrivals s p) in
      let known =
        ∥∥₁_elim perm (hlevel ℕ_set) (λ p. end-known scored arrivals s p size capacity laws room) in
      (
        subst
            (Greedy crates (consumed_hashes crates cycle scored)
              (budgets_for task.constants cycle.balances task.filler_address cycle.cached scored) []
              scored)
            (sym orders) (select-Greedy crates task cycle real scored s),
        orders,
        metrics,
        known,
      )
