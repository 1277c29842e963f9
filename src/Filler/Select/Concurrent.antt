-- ===== src/Filler/Select/Concurrent.antt =====
-- `select_fillable_orders` of src/filler_task/mod.rs with the answers to its concurrent requests in any
-- order: `tokio::join!` runs the balance queries beside the nonce checks, and each of them notes its
-- result when its answer arrives.
use mathlib.Core.List.{Permᴰ}
use signet_filler.Prelude.{ℕ, ◌≡◌, refl, ◌∙◌, Option, ap, List, [], ◌∷◌, ◌++◌}
use signet_filler.Prelude.Int.{ℤ}
use signet_filler.Prelude.HashMap.{HashMap}
use signet_filler.Tokens.{ChainTokenPair}
use signet_filler.Order.{SignedOrder}
use signet_filler.Preflight.{TokenBudget, query_balance, allowance_for, provider_for}
use signet_filler.Preflight.Build.{put_answer}
use signet_filler.Filler.{Crates, FillerTask, FillerState, Cycle}
use signet_filler.Filler.Select.{add_hash, check_filled, count_failure, select_loop}

-- An answer that arrives: to the balance query for a token, or to the nonce check of an order.
pub data Arrival : Type 0 where
  queried : ChainTokenPair → Arrival
  checked : SignedOrder → Arrival

module _ {A S : Type 0} (f : A → S → S) where
  -- The steps of a list, the first one first.
  abbrev pub run_all : List A → S → S
  run_all [] s = s
  run_all (a ∷ rest) s = run_all rest (f a s)

  pub run_all-append : (xs ys : List A) (s : S) → run_all (xs ++ ys) s ≡ run_all ys (run_all xs s)
  run_all-append [] ys s = refl
  run_all-append (x ∷ xs) ys s = run_all-append xs ys (f x s)

  -- The order of steps that commute does not matter.
  pub run_all-Permᴰ :
      ((a b : A) (s : S) → f a (f b s) ≡ f b (f a s))
      → {xs ys : List A} → Permᴰ xs ys
      → (s : S) → run_all xs s ≡ run_all ys s
  run_all-Permᴰ commute Permᴰ.nil s = refl
  run_all-Permᴰ commute (Permᴰ.cons {a = a} {l₁ = l₁} e d) s =
      rw (← e) (run_all-Permᴰ commute d (f a s))
  run_all-Permᴰ commute (Permᴰ.swap {a = a} {b = b} {l = l} p q) s =
      rw (← p, ← q) (ap (run_all l) (commute b a s))
  run_all-Permᴰ commute (Permᴰ.trans p q) s = run_all-Permᴰ commute p s ∙ run_all-Permᴰ commute q s

-- What the cycle has so far: the state, the budgets that have come in, and the reported hashes.
pub record Gathered (C : Type 0) : Type 0 where
  pub state : FillerState C
  pub budgets : HashMap ChainTokenPair TokenBudget
  pub filled : List ℕ

-- Before any answer.
abbrev pub ask : {C : Type 0} → FillerState C → Gathered C
ask s = record { state = s; budgets = []; filled = [] }

module _ {C : Type 0} (crates : Crates C) (task : FillerTask) (cycle : Cycle) where
  abbrev pub answer_for : ChainTokenPair → Option ℕ
  answer_for key =
      query_balance task.constants cycle.balances (provider_for task.constants key)
        task.filler_address key.token

  -- What an answer does when it arrives: a balance makes a budget, a failed query is counted, and a nonce
  -- check notes an order that was consumed, in the cache and among the reported hashes.
  unfoldable pub arrive : Arrival → Gathered C → Gathered C
  unfolding check_filled
  arrive (queried key) g = record g {
    state = record g.state { metrics = count_failure (answer_for key) g.state.metrics };
    budgets =
        put_answer key (allowance_for task.constants cycle.cached key) (answer_for key) g.budgets;
  }
  arrive (checked order) g =
      let (hash, s) = check_filled crates cycle order g.state in
      record g { state = s; filled = add_hash hash g.filled }

  -- `select_fillable_orders` when the answers arrive in the given order: the selection loop runs on what
  -- the answers have left.
  unfoldable pub select_arriving :
      List Arrival → List (ℤ × SignedOrder) → FillerState C → List SignedOrder × FillerState C
  unfolding arrive select_loop
  select_arriving arrivals scored s =
      let g = run_all arrive arrivals (ask s) in
      let (orders, m) =
        select_loop crates g.filled scored (record { inner = g.budgets }) g.state.metrics in
      (orders, record g.state { metrics = m })
