-- ===== src/Tests/Preflight.antt =====
-- The theorems on the token budgets at sample budgets and orders.
use signet_filler.Prelude.{
  refl, ◌≤◌, ◌≡◌, ◌↔◌, true, false, none, some, [], ◌∷◌, arith, min, if◌then◌else◌,
}
use mathlib.Core.Option
use signet_filler.Prelude.HashMap.{get}
use signet_filler.Prelude.Int.{pos}
use signet_filler.Words.{u256_max}
use signet_filler.Tokens.{ChainTokenPair, pair_eq}
use signet_filler.Preflight.{TokenBudget, WorkingMap, can_fill, accept_order, build}
use signet_filler.Preflight.Budget.{demanded, lowered, accept_order-lowered}
use signet_filler.Preflight.{Balances}
use signet_filler.Preflight.Missing.{no_cached_allowance-refused, failed_queries-let_through}
use signet_filler.Preflight.Totals.{Fits, can_fill_iff}
use signet_filler.Preflight.Build.{is_asked, balance_in, budget_of, build_lem}
use signet_filler.Tests.Samples.{constants, usdc_order, usdc, cycle}

abbrev budgets : WorkingMap
budgets = record { inner = (usdc, record { balance = 100; allowance = 80 }) ∷ [] }

budgets-allowance : (b : TokenBudget) → get usdc budgets.inner ≡ some b → b.allowance ≤ u256_max
unfolding get
budgets-allowance b e = ground arith

accept_order-lowered_example :
    get usdc (accept_order budgets (usdc_order 1 50 60)).inner
    ≡ Option.map (lowered (demanded usdc (usdc_order 1 50 60).outputs)) (get usdc budgets.inner)
accept_order-lowered_example =
    accept_order-lowered budgets (usdc_order 1 50 60) usdc budgets-allowance

can_fill_iff_example : (can_fill budgets (usdc_order 1 50 60) ≡ true) ↔ (
    (key : ChainTokenPair)
    → Fits budgets key (min (demanded key (usdc_order 1 50 60).outputs) u256_max))
can_fill_iff_example = can_fill_iff budgets (usdc_order 1 50 60)

build_lem_example :
    get usdc
      (build constants cycle.balances 99 cycle.cached ((pos 3, usdc_order 1 50 60) ∷ [])).inner
    ≡ (if is_asked constants usdc ((pos 3, usdc_order 1 50 60) ∷ [])
        then budget_of constants cycle.balances 99 cycle.cached usdc
        else none)
build_lem_example =
    build_lem constants cycle.balances 99 cycle.cached ((pos 3, usdc_order 1 50 60) ∷ []) usdc

-- The order asks for 60 of a token whose balance is known and whose allowance is not cached.
no_cached_allowance-refused_example :
    can_fill
      (build constants cycle.balances 99 (λ key. none) ((pos 3, usdc_order 1 50 60) ∷ []))
      (usdc_order 1 50 60)
    ≡ false
unfolding demanded
no_cached_allowance-refused_example =
    no_cached_allowance-refused constants cycle.balances 99 (λ key. none)
      ((pos 3, usdc_order 1 50 60) ∷ []) (usdc_order 1 50 60) usdc 1_000_000 refl
      (λ e. ground arith) refl refl (omega arith)

abbrev silent : Balances
silent = record { get_balance = λ ch a. none; balance_of = λ ch t a. none }

silent-fails : (key : ChainTokenPair) → balance_in constants silent 99 cycle.cached key ≡ none
silent-fails key = ground arith

failed_queries-let_through_example :
    can_fill
      (build constants silent 99 cycle.cached ((pos 3, usdc_order 1 50 60) ∷ []))
      (usdc_order 1 50 60)
    ≡ true
failed_queries-let_through_example =
    failed_queries-let_through constants silent 99 cycle.cached ((pos 3, usdc_order 1 50 60) ∷ [])
      (usdc_order 1 50 60) (λ key h. silent-fails key)
