-- ===== src/Config/Valid.antt =====
-- Which environments `Config::from_env` of src/config.rs accepts, and what it then promises.
use signet_filler.Prelude.{
  ℕ, ◌≤◌, ◌≡◌, ◌≢◌, ◌↔◌, Bool, true, false, ◌&&◌, Option, none, some, arith, Option-cases,
  Bool-cases, inl, inr, leb, ltb,
}
use signet_filler.Prelude.Result.{unwrap_or, Result, ok, err, and_then}
use signet_filler.Tokens.{SystemConstants}
use signet_filler.Pricing.{new_client, profitability}
use signet_filler.Order.{SignedOrder}
use signet_filler.Pricing.Accept.{Verdict, profitability-Verdict}
use signet_filler.Pricing.Table.{new_client-IsPriced}
use signet_filler.Config.{
  ConfigInner, Config, ConfigCrates, ConfigError, default_chain_name, default_host_rpc,
  default_ru_rpc, default_max_loss_percent, default_target_blocks, max_target_blocks, check_numbers,
  from_env, is_some_zero,
}

-- The numbers of the variables are in range.
pub record HasGoodNumbers {S : Type 0} (inner : ConfigInner S) : Type 0 where
  pub loss_le : unwrap_or inner.max_loss_percent default_max_loss_percent ≤ 100
  pub target_ge : 1 ≤ unwrap_or inner.target_blocks default_target_blocks
  pub target_le : unwrap_or inner.target_blocks default_target_blocks ≤ max_target_blocks
  pub limit_ne : inner.max_orders_per_bundle ≢ some 0

-- The chain is known, both connection strings parse, that of the rollup is for WebSockets, and the
-- numbers are in range.
pub record IsAcceptable {U P S : Type 0} (crates : ConfigCrates U P) (inner : ConfigInner S)
    : Type 0 where
  pub chain : crates.parse_constants (unwrap_or inner.chain_name default_chain_name) ≢ none
  pub host : crates.parse_connection (unwrap_or inner.host_rpc default_host_rpc) ≢ none
  pub rollup :
      and_then (crates.parse_connection (unwrap_or inner.ru_rpc default_ru_rpc)) crates.to_pubsub
      ≢ none
  pub numbers : HasGoodNumbers inner

-- What a configuration promises to the rest of the program.
pub record IsValid {U P S : Type 0} (config : Config U P S) : Type 0 where
  pub loss_le : config.max_loss_percent ≤ 100
  pub target_ge : 1 ≤ config.target_blocks
  pub target_le : config.target_blocks ≤ 10
  pub limit_ne : config.max_orders_per_bundle ≢ some 0

abbrev pub is_ok {ℓ κ} : {E : Type ℓ} {A : Type κ} → Result E A → Bool
is_ok (ok a) = true
is_ok (err e) = false

is_some_zero_iff : (n : Option ℕ) → (is_some_zero n ≡ true) ↔ (n ≡ some 0)
is_some_zero_iff none = ground arith
is_some_zero_iff (some n) = ground arith

check_numbers_iff :
    {U P S : Type 0} (c : SystemConstants) (host : U) (ru : P) (inner : ConfigInner S)
    → (is_ok (check_numbers c host ru inner) ≡ true) ↔ HasGoodNumbers inner
unfolding check_numbers
check_numbers_iff c host ru inner = (
  λ e. record {
    loss_le = ground arith;
    target_ge = ground arith;
    target_le = ground arith;
    limit_ne = ground (arith, is_some_zero_iff inner.max_orders_per_bundle);
  },
  λ h. ground (
    arith,
    h.loss_le,
    h.target_ge,
    h.target_le,
    h.limit_ne,
    is_some_zero_iff inner.max_orders_per_bundle,
  ),
)

-- A configuration that is returned is valid.
abbrev IsPromised : {U P S : Type 0} → Result ConfigError (Config U P S) → Type 0
IsPromised (ok config) = IsValid config
IsPromised (err e) = Unit

check_numbers-IsPromised :
    {U P S : Type 0} (c : SystemConstants) (host : U) (ru : P) (inner : ConfigInner S)
    → IsPromised (check_numbers c host ru inner)
unfolding check_numbers
check_numbers-IsPromised c host ru inner =
    let loss = unwrap_or inner.max_loss_percent default_max_loss_percent in
    let target = unwrap_or inner.target_blocks default_target_blocks in
    elim (Bool-cases (ltb 100 loss)) [
      | inl over ↦ rw over tt
      | inr loss_ok ↦ elim (Bool-cases (leb 1 target && leb target max_target_blocks)) [
        | inr bad ↦ rw (loss_ok, bad) tt
        | inl target_ok ↦ elim (Bool-cases (is_some_zero inner.max_orders_per_bundle)) [
          | inl bad ↦ rw (loss_ok, target_ok, bad) tt
          | inr limit_ok ↦
              rw (loss_ok, target_ok, limit_ok)
                (record {
                  loss_le = ground arith;
                  target_ge = ground arith;
                  target_le = ground arith;
                  limit_ne = ground (arith, is_some_zero_iff inner.max_orders_per_bundle);
                })
        ]
      ]
    ]

from_env-IsPromised :
    {U P S : Type 0} (crates : ConfigCrates U P) (inner : ConfigInner S)
    → IsPromised (from_env crates (some inner))
unfolding from_env
from_env-IsPromised crates inner =
    elim (Option-cases (crates.parse_constants (unwrap_or inner.chain_name default_chain_name))) [
      | inl e ↦ rw e tt
      | inr (c, e) ↦
          elim (Option-cases
            (crates.parse_connection (unwrap_or inner.host_rpc default_host_rpc))) [
              | inl f ↦ rw (e, f) tt
              | inr (host, f) ↦
                  elim (Option-cases
                    (crates.parse_connection (unwrap_or inner.ru_rpc default_ru_rpc))) [
                      | inl g ↦ rw (e, f, g) tt
                      | inr (ru, g) ↦ elim (Option-cases (crates.to_pubsub ru)) [
                        | inl h ↦ rw (e, f, g, h) tt
                        | inr (pubsub, h) ↦
                            rw (e, f, g, h) (check_numbers-IsPromised c host pubsub inner)
                      ]
                    ]
            ]
    ]

-- Every configuration that is returned has a loss of at most 100 percent, between 1 and 10 target
-- blocks, and no limit of zero orders for a bundle.
pub from_env-IsValid :
    {U P S : Type 0} (crates : ConfigCrates U P) (env : Option (ConfigInner S))
    (config : Config U P S)
    → from_env crates env ≡ ok config
    → IsValid config
unfolding from_env
from_env-IsValid crates none config e = absurd (ground arith)
from_env-IsValid crates (some inner) config e = rw e at (from_env-IsPromised crates inner)

-- A configuration is returned exactly when the chain is known, both connection strings parse, that of
-- the rollup is for WebSockets, and the numbers, the defaults included, are in range.
pub from_env_iff :
    {U P S : Type 0} (crates : ConfigCrates U P) (inner : ConfigInner S)
    → (is_ok (from_env crates (some inner)) ≡ true) ↔ IsAcceptable crates inner
unfolding from_env
from_env_iff crates inner =
    elim (Option-cases (crates.parse_constants (unwrap_or inner.chain_name default_chain_name))) [
      | inl e ↦ (λ r. absurd (ground arith), λ a. absurd (a.chain e))
      | inr (c, e) ↦
          elim (Option-cases
            (crates.parse_connection (unwrap_or inner.host_rpc default_host_rpc))) [
              | inl f ↦ (λ r. absurd (ground arith), λ a. absurd (a.host f))
              | inr (host, f) ↦
                  elim (Option-cases
                    (crates.parse_connection (unwrap_or inner.ru_rpc default_ru_rpc))) [
                      | inl g ↦ (λ r. absurd (ground arith), λ a. absurd (a.rollup (rw g)))
                      | inr (ru, g) ↦ elim (Option-cases (crates.to_pubsub ru)) [
                        | inl h ↦ (λ r. absurd (ground arith), λ a. absurd (a.rollup (rw (g, h))))
                        | inr (pubsub, h) ↦
                            let numbers = check_numbers_iff c host pubsub inner in
                            (
                              λ r. record {
                                chain = λ n. ground arith;
                                host = λ n. ground arith;
                                rollup = λ n. ground arith;
                                numbers = numbers.0 (rw (e, f, g, h) at r);
                              },
                              λ a. rw (e, f, g, h) (numbers.1 a.numbers),
                            )
                      ]
                    ]
            ]
    ]

-- With a configuration that was returned, whatever the chain constants, the pricing client's answers
-- say of every order what the verdict states of them.
pub from_env-Verdict :
    {U P S : Type 0} (crates : ConfigCrates U P) (env : Option (ConfigInner S))
    (config : Config U P S) (order : SignedOrder)
    → from_env crates env ≡ ok config
    → let client = new_client config.constants config.chain_name config.max_loss_percent in
      Verdict client order (profitability client order)
unfolding new_client
from_env-Verdict crates env config order e =
    profitability-Verdict (new_client config.constants config.chain_name config.max_loss_percent)
      order (new_client-IsPriced config.constants config.chain_name config.max_loss_percent)
      ((from_env-IsValid crates env config e).loss_le)
