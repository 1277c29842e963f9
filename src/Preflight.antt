-- ===== src/Preflight.antt =====
-- src/filler_task/preflight.rs: the token budgets of one processing cycle. The balance queries are
-- those of src/erc20.rs.
pub mod Budget
pub mod Totals
pub mod Build
pub mod Missing
use signet_filler.Prelude.{
  ℕ, ◌≡◌, Bool, true, ◌&&◌, ◌||◌, Option, none, some, List, [], ◌∷◌, leb, ◌==◌, if◌then◌else◌,
}
use signet_filler.Prelude.Eq.{contains}
use signet_filler.Prelude.HashMap.{HashMap, get, insert, modify, all, extend}
use signet_filler.Prelude.Int.{ℤ}
use signet_filler.Words.{u256_max, saturating_add, saturating_sub}
use signet_filler.Tokens.{Address, SystemConstants, ChainTokenPair, pair_eq}
use signet_filler.Order.{Output, SignedOrder, output_key}

pub record TokenBudget : Type 0 where
  pub balance : ℕ
  pub allowance : ℕ

unfoldable pub can_cover : TokenBudget → ℕ → Bool
can_cover b amount = leb amount b.balance && leb amount b.allowance

unfoldable pub decrement : ℕ → TokenBudget → TokenBudget
decrement amount b = record {
  balance = saturating_sub b.balance amount;
  allowance = if b.allowance == u256_max then b.allowance else saturating_sub b.allowance amount;
}

pub record WorkingMap : Type 0 where
  pub inner : HashMap ChainTokenPair TokenBudget

abbrev pub or_default : Option ℕ → ℕ
or_default none = 0
or_default (some t) = t

-- `map.entry(key).or_default()`, then the saturating sum.
abbrev pub total_of : ChainTokenPair → HashMap ChainTokenPair ℕ → ℕ
total_of key m = or_default (get key m)

unfoldable pub add_output : HashMap ChainTokenPair ℕ → Output → HashMap ChainTokenPair ℕ
add_output m o = insert (output_key o) (saturating_add (total_of (output_key o) m) o.amount) m

-- The fold of `can_fill` over an order's outputs.
unfoldable pub totals : HashMap ChainTokenPair ℕ → List Output → HashMap ChainTokenPair ℕ
unfolding add_output
totals m [] = m
totals m (o ∷ os) = totals (add_output m o) os

abbrev pub within : Option TokenBudget → ℕ → Bool
within none total = true
within (some budget) total = can_cover budget total

-- A token without a budget entry lets the order through.
unfoldable pub covers : WorkingMap → ChainTokenPair → ℕ → Bool
unfolding can_cover
covers w key total = within (get key w.inner) total

unfoldable pub can_fill : WorkingMap → SignedOrder → Bool
unfolding totals covers
can_fill w order = all (covers w) (totals [] order.outputs)

-- The loop of `accept_order`.
unfoldable pub accept_outputs :
    HashMap ChainTokenPair TokenBudget → List Output → HashMap ChainTokenPair TokenBudget
accept_outputs m [] = m
accept_outputs m (o ∷ os) = accept_outputs (modify (output_key o) (decrement o.amount) m) os

unfoldable pub accept_order : WorkingMap → SignedOrder → WorkingMap
unfolding accept_outputs
accept_order w order = record { inner = accept_outputs w.inner order.outputs }

-- Which provider a query goes to.
pub data Chain : Type 0 where
  rollup host : Chain

-- What the two providers answer: `eth_getBalance` and `balanceOf`; `none` is an RPC error.
pub record Balances : Type 0 where
  pub get_balance : Chain → Address → Option ℕ
  pub balance_of : Chain → Address → Address → Option ℕ

-- `query_balance` of src/erc20.rs.
unfoldable pub query_balance : SystemConstants → Balances → Chain → Address → Address → Option ℕ
query_balance c rpc provider account token =
    if token == c.native_token_address
    then rpc.get_balance provider account
    else rpc.balance_of provider token account

abbrev insert_new : ChainTokenPair → List ChainTokenPair → List ChainTokenPair
insert_new key keys = if contains key keys then keys else key ∷ keys

-- The set of keys on known chains, from a list of outputs.
unfoldable pub tokens_of : SystemConstants → List Output → List ChainTokenPair → List ChainTokenPair
tokens_of c [] keys = keys
tokens_of c (o ∷ os) keys = tokens_of c os (
    if (o.chain_id == c.ru_chain_id) || (o.chain_id == c.host_chain_id)
    then insert_new (output_key o) keys
    else keys)

unfoldable pub tokens_needed :
    SystemConstants → List (ℤ × SignedOrder) → List ChainTokenPair → List ChainTokenPair
unfolding tokens_of
tokens_needed c [] keys = keys
tokens_needed c ((margin, order) ∷ rest) keys =
    tokens_needed c rest (tokens_of c order.outputs keys)

-- Native tokens need no Permit2 allowance; a token that is not cached has allowance zero.
unfoldable pub allowance_for : SystemConstants → (ChainTokenPair → Option ℕ) → ChainTokenPair → ℕ
allowance_for c cached key =
    if key.token == c.native_token_address then u256_max else or_default (cached key)

unfoldable pub provider_for : SystemConstants → ChainTokenPair → Chain
provider_for c key = if key.chain_id == c.ru_chain_id then rollup else host

abbrev add_answer :
    ChainTokenPair
    → ℕ
    → Option ℕ
    → List (ChainTokenPair × TokenBudget)
    → List (ChainTokenPair × TokenBudget)
add_answer key allowance none entries = entries
add_answer key allowance (some balance) entries =
    (key, record { balance = balance; allowance = allowance }) ∷ entries

-- The entries of the tokens whose balance query succeeded, in the order of the keys.
unfoldable pub query_all :
    SystemConstants
    → Balances
    → Address
    → (ChainTokenPair → Option ℕ)
    → List ChainTokenPair
    → List (ChainTokenPair × TokenBudget)
unfolding query_balance allowance_for provider_for
query_all c rpc filler cached [] = []
query_all c rpc filler cached (key ∷ keys) =
    add_answer key (allowance_for c cached key)
      (query_balance c rpc (provider_for c key) filler key.token)
      (query_all c rpc filler cached keys)

-- `WorkingMap::build`; `cached` is `AllowanceCache::get`.
unfoldable pub build :
    SystemConstants
    → Balances
    → Address
    → (ChainTokenPair → Option ℕ)
    → List (ℤ × SignedOrder)
    → WorkingMap
unfolding tokens_needed query_all
build c rpc filler cached candidates = record {
  inner = extend [] (query_all c rpc filler cached (tokens_needed c candidates []));
}
