-- ===== src/Allowance/Used.antt =====
-- The allowances that a cycle of src/filler_task/mod.rs sees, through src/filler_task/preflight.rs, while
-- the task of src/allowance.rs runs.
use mathlib.Core.Option.{some-injective}
use signet_filler.Prelude.{
  ℕ, ◌≡◌, ◌≢◌, sym, ap, ◌∙◌, Option, none, some, List, [], ◌∷◌, arith, if◌then◌else◌, Bool-cases,
  Option-cases, not-none-some, inl, inr, ◌==◌,
}
use signet_filler.Prelude.Eq.{contains}
use signet_filler.Prelude.Int.{ℤ}
use signet_filler.Prelude.HashMap.{get}
use signet_filler.Tokens.{Address, SystemConstants, ChainTokenPair, pair_eq}
use signet_filler.Order.{SignedOrder}
use signet_filler.Metrics.{Metrics}
use signet_filler.Preflight.{Balances, TokenBudget, or_default, build}
use signet_filler.Preflight.Build.{is_asked, balance_in, allowance_in, build_lem}
use signet_filler.Allowance.{new_cache, get_cached, new_task, warm_up, Wake, run}
use signet_filler.Allowance.Latest.{answers, latest, run-latest}

budget-allowance :
    (c : SystemConstants) (rpc : Balances) (filler : Address) (cached : ChainTokenPair → Option ℕ)
    (candidates : List (ℤ × SignedOrder)) (key : ChainTokenPair) (b : TokenBudget)
    → get key (build c rpc filler cached candidates).inner ≡ some b
    → b.allowance ≡ allowance_in c rpc filler cached key
budget-allowance c rpc filler cached candidates key b e =
    let there = sym (build_lem c rpc filler cached candidates key) ∙ e in
    elim (Bool-cases (is_asked c key candidates)) [
      | inl asked ↦ elim (Option-cases (balance_in c rpc filler cached key)) [
        | inl unknown ↦ absurd (not-none-some (rw (asked, unknown) at there))
        | inr (bal, known) ↦
            ap (λ b. b.allowance) (sym (some-injective _ _ (rw (asked, known) at there)))
      ]
      | inr not_asked ↦ absurd (not-none-some (rw not_asked at there))
    ]

-- While the allowance task runs, the budget of a token that is not native holds, at the next cycle, the
-- last allowance that the chains answered since the start, and zero if there is none or the task does
-- not ask about the token.
pub build-latest :
    (c : SystemConstants) (filler : Address) (first : Wake) (ws : List Wake) (m : Metrics)
    (rpc : Balances) (candidates : List (ℤ × SignedOrder)) (key : ChainTokenPair) (b : TokenBudget)
    → key.token ≢ c.native_token_address
    → let task = new_task c filler in
      let (cache, m') = warm_up task first.is_cancelled first.allowances new_cache m in
      get key (build c rpc filler (get_cached (run task ws cache m').0) candidates).inner ≡ some b
      → b.allowance
        ≡ or_default (
            if contains key task.tokens
            then latest (answers task key ws) (latest (answers task key (first ∷ [])) none)
            else none)
build-latest c filler first ws m rpc candidates key b foreign e =
    let task = new_task c filler in
    let (cache, m') = warm_up task first.is_cancelled first.allowances new_cache m in
    let cached = get_cached (run task ws cache m').0 in
    budget-allowance c rpc filler cached candidates key b e
    ∙ elim (Bool-cases (key.token == c.native_token_address)) [
      | inl native ↦ absurd (foreign (ground arith))
      | inr other ↦ rw other (ap or_default (run-latest c filler first ws m key))
    ]
