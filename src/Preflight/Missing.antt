-- ===== src/Preflight/Missing.antt =====
-- What the check of src/filler_task/preflight.rs does where the cache has no allowance, and where the
-- balance query fails.
use signet_filler.Prelude.{
  ℕ, ◌<◌, ◌≡◌, ◌≢◌, ◌∙◌, true, false, Option, none, some, List, arith, Bool-cases, inl, inr, ltb,
}
use signet_filler.Prelude.Int.{ℤ}
use signet_filler.Prelude.HashMap.{get}
use signet_filler.Tokens.{Address, SystemConstants, ChainTokenPair, pair_eq}
use signet_filler.Order.{SignedOrder}
use signet_filler.Preflight.{Balances, can_fill, build}
use signet_filler.Preflight.Budget.{demanded}
use signet_filler.Preflight.Totals.{can_fill_iff}
use signet_filler.Preflight.Build.{is_asked, balance_in, build_lem}

module _ (c : SystemConstants) (rpc : Balances) (filler : Address)
    (cached : ChainTokenPair → Option ℕ) (candidates : List (ℤ × SignedOrder))
    (order : SignedOrder) where
  -- An order that asks for some of a token which is not native, which some candidate asks for on one of
  -- the two chains, whose balance is known and whose allowance is not in the cache, is refused.
  pub no_cached_allowance-refused :
      (key : ChainTokenPair) (balance : ℕ)
      → is_asked c key candidates ≡ true
      → key.token ≢ c.native_token_address
      → balance_in c rpc filler cached key ≡ some balance
      → cached key ≡ none
      → 0 < demanded key order.outputs
      → can_fill (build c rpc filler cached candidates) order ≡ false
  no_cached_allowance-refused key balance asked foreign known missing some_asked =
      let there = build_lem c rpc filler cached candidates key in
      let entry : get key (build c rpc filler cached candidates).inner
          ≡ some (record { balance = balance; allowance = 0 }) =
        there ∙ rw (asked, known, missing) (ground arith) in
      elim (Bool-cases (can_fill (build c rpc filler cached candidates) order)) [
        | inr refused ↦ refused
        | inl let_in ↦ absurd (
            ground (
              arith,
              ((can_fill_iff (build c rpc filler cached candidates) order).0 let_in key _ entry),
            ))
      ]

  -- An order is let through if the balance query of every token that it asks some of fails.
  pub failed_queries-let_through :
      ((key : ChainTokenPair)
        → 0 < demanded key order.outputs
        → balance_in c rpc filler cached key ≡ none)
      → can_fill (build c rpc filler cached candidates) order ≡ true
  failed_queries-let_through failing =
      (can_fill_iff (build c rpc filler cached candidates) order).1 (λ key b e.
        let there = build_lem c rpc filler cached candidates key in
        elim (Bool-cases (ltb 0 (demanded key order.outputs))) [
          | inr none_asked ↦ ground arith
          | inl some_asked ↦ absurd (ground (arith, rw (failing key (ground arith)) at there))
        ])
