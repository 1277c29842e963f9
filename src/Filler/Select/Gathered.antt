-- ===== src/Filler/Select/Gathered.antt =====
-- What the answers to the concurrent requests of `select_fillable_orders` in src/filler_task/mod.rs add
-- to the budgets and to the reported hashes, each by itself.
use signet_filler.Prelude.{
  ℕ, ◌≡◌, refl, ◌∙◌, ap, Bool, true, false, Option, none, some, List, [], ◌∷◌, ◌++◌, map, arith,
  ◌||◌, ◌&&◌, if◌then◌else◌,
}
use signet_filler.Prelude.Eq.{nat_eq, ◌=?◌, contains}
use signet_filler.Prelude.HashMap.{get}
use signet_filler.Prelude.Int.{ℤ}
use signet_filler.Tokens.{ChainTokenPair, pair_eq}
use signet_filler.Order.{SignedOrder}
use signet_filler.Preflight.{TokenBudget, tokens_needed}
use signet_filler.Preflight.Build.{
  first_some, budget_of, get-answer, contains-tokens_needed, is_asked, first_some-none,
}
use signet_filler.Filler.{Crates, FillerTask, FillerState, Cycle}
use signet_filler.Filler.Select.{add_hash, note_consumed, check_filled}
use signet_filler.Filler.Select.Concurrent.{
  Arrival, queried, checked, run_all, run_all-append, Gathered, arrive,
}
use signet_filler.Filler.Select.Effects.{reports}
use signet_filler.Filler.Process.Accounting.{is_reported, consumed_hashes}
use signet_filler.Filler.Process.Complete.{orders_of}

module _ {C : Type 0} (crates : Crates C) (task : FillerTask) (cycle : Cycle) where
  -- The budget of a token that a cycle knows of if its query is answered.
  abbrev budget_in : ChainTokenPair → Option TokenBudget
  budget_in = budget_of task.constants cycle.balances task.filler_address cycle.cached

  -- What is known of the budget of a token after an answer.
  abbrev pub funds : ChainTokenPair → Arrival → Option TokenBudget → Option TokenBudget
  funds key (queried k) known = if k =? key then first_some (budget_in key) known else known
  funds key (checked o) known = known

  pub funds_comm :
      (key : ChainTokenPair) (a b : Arrival) (known : Option TokenBudget)
      → funds key a (funds key b known) ≡ funds key b (funds key a known)
  funds_comm key (queried j) (queried k) known = ground arith
  funds_comm key (queried j) (checked p) known = refl
  funds_comm key (checked o) b known = refl

  arrive-budgets :
      (key : ChainTokenPair) (a : Arrival) (g : Gathered C)
      → get key (arrive crates task cycle a g).budgets ≡ funds key a (get key g.budgets)
  unfolding arrive
  arrive-budgets key (queried k) g =
      get-answer task.constants cycle.balances task.filler_address cycle.cached k key g.budgets
  arrive-budgets key (checked o) g = refl

  pub run_all-budgets :
      (key : ChainTokenPair) (arrivals : List Arrival) (g : Gathered C)
      → get key (run_all (arrive crates task cycle) arrivals g).budgets
        ≡ run_all (funds key) arrivals (get key g.budgets)
  run_all-budgets key [] g = refl
  run_all-budgets key (a ∷ rest) g =
      run_all-budgets key rest (arrive crates task cycle a g)
      ∙ ap (run_all (funds key) rest) (arrive-budgets key a g)

  contains-note_consumed :
      (h : ℕ) (o : SignedOrder) (answer : Option Bool) (s : FillerState C) (hashes : List ℕ)
      → contains h (add_hash (note_consumed crates o answer s).0 hashes)
        ≡ ((is_reported answer && h =? crates.order_hash o) || contains h hashes)
  unfolding note_consumed
  contains-note_consumed h o none s hashes = refl
  contains-note_consumed h o (some true) s hashes = ground arith
  contains-note_consumed h o (some false) s hashes = refl

  arrive-filled :
      (h : ℕ) (a : Arrival) (g : Gathered C)
      → contains h (arrive crates task cycle a g).filled
        ≡ reports crates task cycle h a (contains h g.filled)
  unfolding arrive check_filled
  arrive-filled h (queried key) g = refl
  arrive-filled h (checked o) g =
      contains-note_consumed h o (cycle.nonce_consumed o) g.state g.filled

  pub run_all-filled :
      (h : ℕ) (arrivals : List Arrival) (g : Gathered C)
      → contains h (run_all (arrive crates task cycle) arrivals g).filled
        ≡ run_all (reports crates task cycle h) arrivals (contains h g.filled)
  run_all-filled h [] g = refl
  run_all-filled h (a ∷ rest) g =
      run_all-filled h rest (arrive crates task cycle a g)
      ∙ ap (run_all (reports crates task cycle h) rest) (arrive-filled h a g)

  -- The answers in turn: to the queries of the tokens, then to the checks of the candidates.
  abbrev pub in_turn : List (ℤ × SignedOrder) → List Arrival
  in_turn scored =
      map queried (tokens_needed task.constants scored []) ++ map checked (orders_of scored)

  checks-funds :
      (key : ChainTokenPair) (orders : List SignedOrder) (known : Option TokenBudget)
      → run_all (funds key) (map checked orders) known ≡ known
  checks-funds key [] known = refl
  checks-funds key (o ∷ os) known = checks-funds key os known

  queries-funds :
      (key : ChainTokenPair) (keys : List ChainTokenPair) (known : Option TokenBudget)
      → run_all (funds key) (map queried keys) known
        ≡ (if contains key keys then first_some (budget_in key) known else known)
  queries-funds key [] known = refl
  queries-funds key (k ∷ keys) known =
      ground (arith, queries-funds key keys (funds key (queried k) known))

  -- In the end a token has a budget if a candidate asks for it and its balance is known.
  pub in_turn-funds :
      (key : ChainTokenPair) (scored : List (ℤ × SignedOrder))
      → run_all (funds key) (in_turn scored) none
        ≡ (if is_asked task.constants key scored then budget_in key else none)
  in_turn-funds key scored =
      let keys = tokens_needed task.constants scored [] in
      run_all-append (funds key) (map queried keys) (map checked (orders_of scored)) none
      ∙ checks-funds key (orders_of scored) _
      ∙ queries-funds key keys none
      ∙ ap (λ t. if t then first_some (budget_in key) none else none)
          (contains-tokens_needed task.constants key scored [])
      ∙ first_some-none (is_asked task.constants key scored) (budget_in key)

  checks-reports :
      (h : ℕ) (scored : List (ℤ × SignedOrder)) (known : Bool)
      → run_all (reports crates task cycle h) (map checked (orders_of scored)) known
        ≡ (contains h (consumed_hashes crates cycle scored) || known)
  unfolding consumed_hashes
  checks-reports h [] known = refl
  checks-reports h ((m, o) ∷ rest) known =
      ground (arith, checks-reports h rest (reports crates task cycle h (checked o) known))

  queries-reports :
      (h : ℕ) (keys : List ChainTokenPair) (known : Bool)
      → run_all (reports crates task cycle h) (map queried keys) known ≡ known
  queries-reports h [] known = refl
  queries-reports h (k ∷ keys) known = queries-reports h keys known

  -- In the end a hash is reported if a candidate's nonce check says so.
  pub in_turn-reports :
      (h : ℕ) (scored : List (ℤ × SignedOrder)) (known : Bool)
      → run_all (reports crates task cycle h) (in_turn scored) known
        ≡ (contains h (consumed_hashes crates cycle scored) || known)
  in_turn-reports h scored known =
      let keys = tokens_needed task.constants scored [] in
      run_all-append (reports crates task cycle h) (map queried keys)
        (map checked (orders_of scored)) known
      ∙ ap (run_all (reports crates task cycle h) (map checked (orders_of scored)))
          (queries-reports h keys known)
      ∙ checks-reports h scored known
