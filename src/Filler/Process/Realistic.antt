-- ===== src/Filler/Process/Realistic.antt =====
-- The budgets of a cycle of src/filler_task/mod.rs when the chains answer with realistic balances.
use mathlib.Core.Option.{some-injective}
use signet_filler.Prelude.{
  ℕ, ◌≤◌, ◌<◌, ◌≡◌, sym, ◌∙◌, not-none-some, Option, some, List, arith, if◌then◌else◌, ◌==◌,
  Bool-cases, Option-cases, inl, inr,
}
use signet_filler.Prelude.Int.{ℤ}
use signet_filler.Prelude.Eq.{nat_eq}
use signet_filler.Words.{u256_max}
use signet_filler.Tokens.{Address, SystemConstants, ChainTokenPair, pair_eq}
use signet_filler.Order.{SignedOrder}
use signet_filler.Preflight.{Chain, Balances, TokenBudget, build}
use signet_filler.Preflight.{rollup, host}
use signet_filler.Preflight.Build.{is_asked, balance_in, allowance_in, budget_of, build_lem}
use signet_filler.Filler.Select.Choice.{IsRealistic}

-- The chains answer with balances below the largest number, and the cache holds numbers of 256 bits.
pub record IsRealisticRpc (rpc : Balances) (cached : ChainTokenPair → Option ℕ) : Type 0 where
  pub native_lt : (ch : Chain) (a : Address) (n : ℕ) → rpc.get_balance ch a ≡ some n → n < u256_max
  pub erc20_lt :
      (ch : Chain) (t a : Address) (n : ℕ) → rpc.balance_of ch t a ≡ some n → n < u256_max
  pub cached_le : (key : ChainTokenPair) (n : ℕ) → cached key ≡ some n → n ≤ u256_max

module _ (c : SystemConstants) (rpc : Balances) (filler : Address)
    (cached : ChainTokenPair → Option ℕ) (real : IsRealisticRpc rpc cached) where
  balance_in-lt :
      (key : ChainTokenPair) (n : ℕ) → balance_in c rpc filler cached key ≡ some n → n < u256_max
  balance_in-lt key n e =
      let chain = if key.chain_id == c.ru_chain_id then rollup else host in
      ground (arith, real.native_lt chain filler n, real.erc20_lt chain key.token filler n)

  allowance_in-le : (key : ChainTokenPair) → allowance_in c rpc filler cached key ≤ u256_max
  allowance_in-le key = elim (Option-cases (cached key)) [
    | inl e ↦ rw e (ground arith)
    | inr (a, e) ↦ rw e (ground (arith, real.cached_le key a e))
  ]

  budget_of-IsRealistic :
      (key : ChainTokenPair) (b : TokenBudget)
      → budget_of c rpc filler cached key ≡ some b
      → (b.balance < u256_max) × (b.allowance ≤ u256_max)
  budget_of-IsRealistic key b e = elim (Option-cases (balance_in c rpc filler cached key)) [
    | inl unknown ↦ absurd (not-none-some (rw unknown at e))
    | inr (bal, known) ↦
        rw (← some-injective _ _ (rw known at e)) (balance_in-lt key bal known, allowance_in-le key)
  ]

  pub build-IsRealistic :
      (candidates : List (ℤ × SignedOrder)) → IsRealistic (build c rpc filler cached candidates)
  build-IsRealistic candidates key b e =
      let there = sym (build_lem c rpc filler cached candidates key) ∙ e in
      elim (Bool-cases (is_asked c key candidates)) [
        | inl asked ↦ budget_of-IsRealistic key b (rw asked at there)
        | inr not_asked ↦ absurd (not-none-some (rw not_asked at there))
      ]
