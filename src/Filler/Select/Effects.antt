-- ===== src/Filler/Select/Effects.antt =====
-- What the answers to the concurrent requests of `select_fillable_orders` in src/filler_task/mod.rs add
-- to the metrics and to the cache of filled orders, each by itself.
use mathlib.Core.List.{Permᴰ}
use signet_filler.Prelude.{
  ℕ, ◌+◌, ◌≤◌, ◌<◌, ◌≡◌, refl, ◌∙◌, ap, Bool, true, false, Option, none, some, List, [], ◌∷◌, arith,
  ◌||◌, ◌&&◌,
}
use signet_filler.Prelude.Eq.{nat_eq, ◌=?◌}
use signet_filler.Order.{SignedOrder}
use signet_filler.Preflight.{query_balance, provider_for}
use signet_filler.Metrics.{
  Metrics, record_order_skipped, record_nonce_check_error, record_preflight_query_error,
}
use signet_filler.Filler.{Crates, FillerTask, FillerState, Cycle}
use signet_filler.Filler.Select.{note_consumed, check_filled, count_failure}
use signet_filler.Filler.Select.Concurrent.{Arrival, queried, checked, run_all, Gathered, arrive}
use signet_filler.Filler.Process.Accounting.{is_reported}
use signet_filler.Filler.Run.Memory.{LruLaws}

-- The three counters that an answer may add to.
pub record Effect : Type 0 where
  skipped : ℕ
  nonce_errors : ℕ
  balance_errors : ℕ

abbrev pub add : Effect → Metrics → Metrics
add e m = record m {
  skipped_already_filled = m.skipped_already_filled + e.skipped;
  nonce_check_errors = m.nonce_check_errors + e.nonce_errors;
  preflight_balance_errors = m.preflight_balance_errors + e.balance_errors;
}

pub add_comm : (d e : Effect) (m : Metrics) → add d (add e m) ≡ add e (add d m)
add_comm d e m = ground arith

abbrev nonce_effect : Option Bool → Effect
nonce_effect none = record { skipped = 0; nonce_errors = 1; balance_errors = 0 }
nonce_effect (some true) = record { skipped = 1; nonce_errors = 0; balance_errors = 0 }
nonce_effect (some false) = record { skipped = 0; nonce_errors = 0; balance_errors = 0 }

abbrev query_effect : Option ℕ → Effect
query_effect none = record { skipped = 0; nonce_errors = 0; balance_errors = 1 }
query_effect (some b) = record { skipped = 0; nonce_errors = 0; balance_errors = 0 }

add-count_failure : (b : Option ℕ) (m : Metrics) → count_failure b m ≡ add (query_effect b) m
unfolding record_preflight_query_error
add-count_failure none m = ground arith
add-count_failure (some b) m = ground arith

-- The largest number of entries that an answer adds to the cache.
abbrev pub cost : Arrival → ℕ
cost (queried key) = 0
cost (checked o) = 1

abbrev pub total_cost : List Arrival → ℕ
total_cost [] = 0
total_cost (a ∷ rest) = cost a + total_cost rest

pub total_cost-Permᴰ : {xs ys : List Arrival} → Permᴰ xs ys → total_cost xs ≡ total_cost ys
total_cost-Permᴰ Permᴰ.nil = refl
total_cost-Permᴰ (Permᴰ.cons e d) = rw (e, total_cost-Permᴰ d) refl
total_cost-Permᴰ (Permᴰ.swap p q) = rw (p, q) (omega arith)
total_cost-Permᴰ (Permᴰ.trans p q) = total_cost-Permᴰ p ∙ total_cost-Permᴰ q

module _ {C : Type 0} (crates : Crates C) (task : FillerTask) (cycle : Cycle) where
  add-note_consumed :
      (o : SignedOrder) (answer : Option Bool) (s : FillerState C)
      → (note_consumed crates o answer s).1.metrics ≡ add (nonce_effect answer) s.metrics
  unfolding note_consumed record_order_skipped record_nonce_check_error
  add-note_consumed o none s = ground arith
  add-note_consumed o (some true) s = ground arith
  add-note_consumed o (some false) s = ground arith

  abbrev pub effect : Arrival → Effect
  effect (queried key) = query_effect (
      query_balance task.constants cycle.balances (provider_for task.constants key)
        task.filler_address key.token)
  effect (checked o) = nonce_effect (cycle.nonce_consumed o)

  arrive-metrics :
      (a : Arrival) (g : Gathered C)
      → (arrive crates task cycle a g).state.metrics ≡ add (effect a) g.state.metrics
  unfolding arrive check_filled
  arrive-metrics (queried key) g = add-count_failure _ g.state.metrics
  arrive-metrics (checked o) g = add-note_consumed o (cycle.nonce_consumed o) g.state

  pub run_all-metrics :
      (arrivals : List Arrival) (g : Gathered C)
      → (run_all (arrive crates task cycle) arrivals g).state.metrics
        ≡ run_all (λ a. add (effect a)) arrivals g.state.metrics
  run_all-metrics [] g = refl
  run_all-metrics (a ∷ rest) g =
      run_all-metrics rest (arrive crates task cycle a g)
      ∙ ap (run_all (λ a. add (effect a)) rest) (arrive-metrics a g)

  -- Whether the answer reports the hash as filled, or it was known before.
  abbrev pub reports : ℕ → Arrival → Bool → Bool
  reports h (queried key) known = known
  reports h (checked o) known =
      (is_reported (cycle.nonce_consumed o) && h =? crates.order_hash o) || known

  pub reports_comm :
      (h : ℕ) (a b : Arrival) (known : Bool)
      → reports h a (reports h b known) ≡ reports h b (reports h a known)
  reports_comm h (queried j) b known = refl
  reports_comm h (checked o) (queried k) known = refl
  reports_comm h (checked o) (checked p) known = ground arith

  module _ (size : C → ℕ) (capacity : ℕ) (laws : LruLaws crates size capacity) where
    pub contains-put_lem :
        (c : C) (h k : ℕ)
        → size c < capacity
        → crates.lru_contains (crates.lru_put c k) h ≡ (h =? k || crates.lru_contains c h)
    contains-put_lem c h k room =
        grind
          (arith, laws.contains_put c k, laws.contains_keep c k h room, laws.contains_only c k h)

    known-note_consumed :
        (h : ℕ) (o : SignedOrder) (answer : Option Bool) (s : FillerState C)
        → size s.filled_orders < capacity
        → crates.lru_contains (note_consumed crates o answer s).1.filled_orders h ≡ (
            (is_reported answer && h =? crates.order_hash o)
            || crates.lru_contains s.filled_orders h)
    unfolding note_consumed
    known-note_consumed h o none s room = refl
    known-note_consumed h o (some true) s room =
        contains-put_lem s.filled_orders h (crates.order_hash o) room
    known-note_consumed h o (some false) s room = refl

    pub size-note_consumed :
        (o : SignedOrder) (answer : Option Bool) (s : FillerState C)
        → size (note_consumed crates o answer s).1.filled_orders ≤ size s.filled_orders + 1
    unfolding note_consumed
    size-note_consumed o none s = omega arith
    size-note_consumed o (some true) s = laws.size_put s.filled_orders (crates.order_hash o)
    size-note_consumed o (some false) s = omega arith

    arrive-known :
        (h : ℕ) (a : Arrival) (g : Gathered C)
        → size g.state.filled_orders + cost a ≤ capacity
        → crates.lru_contains (arrive crates task cycle a g).state.filled_orders h
          ≡ reports h a (crates.lru_contains g.state.filled_orders h)
    unfolding arrive check_filled
    arrive-known h (queried key) g room = refl
    arrive-known h (checked o) g room =
        known-note_consumed h o (cycle.nonce_consumed o) g.state (omega arith)

    arrive-size :
        (a : Arrival) (g : Gathered C)
        → size (arrive crates task cycle a g).state.filled_orders
          ≤ size g.state.filled_orders + cost a
    unfolding arrive check_filled
    arrive-size (queried key) g = omega arith
    arrive-size (checked o) g = size-note_consumed o (cycle.nonce_consumed o) g.state

    pub run_all-known :
        (h : ℕ) (arrivals : List Arrival) (g : Gathered C)
        → size g.state.filled_orders + total_cost arrivals ≤ capacity
        → crates.lru_contains (run_all (arrive crates task cycle) arrivals g).state.filled_orders h
          ≡ run_all (reports h) arrivals (crates.lru_contains g.state.filled_orders h)
    run_all-known h [] g room = refl
    run_all-known h (a ∷ rest) g room =
        run_all-known h rest (arrive crates task cycle a g) (omega (arith, arrive-size a g))
        ∙ ap (run_all (reports h) rest) (arrive-known h a g (omega arith))
