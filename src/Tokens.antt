-- ===== src/Tokens.antt =====
-- src/chain_token_pair.rs: the known tokens, and a token on a chain as the key of the budget map and
-- of the allowance cache. The chain constants come from the crate `signet_constants` and are data here.
pub mod Names
use Prim.Native.String.{String}
use signet_filler.Prelude.{ℕ, ◌≡◌, ◌↔◌, Bool, true, ◌&&◌, List, [], ◌∷◌, arith, ◌==◌}
use signet_filler.Prelude.Eq.{Eq}

-- A 160-bit address as a number.
abbrev pub Address : Type 0
Address = ℕ

pub record HostTokens : Type 0 where
  pub usdc : Address
  pub usdt : Address
  pub weth : Address
  pub wbtc : Address

pub record RollupTokens : Type 0 where
  pub weth : Address
  pub wbtc : Address

-- What the program reads of `SignetSystemConstants` and of the constants of `signet_constants`.
pub record SystemConstants : Type 0 where
  pub host_chain_id : ℕ
  pub ru_chain_id : ℕ
  pub host_tokens : HostTokens
  pub rollup_tokens : RollupTokens
  pub native_token_address : Address
  pub parmigiana_wrapped : Address
  pub mainnet_wrapped : Address
  pub slot_duration : ℕ
  pub start_timestamp : ℕ

pub record ChainTokenPair : Type 0 where
  pub chain_id : ℕ
  pub token : Address

-- The derived `PartialEq`.
abbrev pub pair_eqb : ChainTokenPair → ChainTokenPair → Bool
pair_eqb a b = (a.chain_id == b.chain_id) && (a.token == b.token)

pub pair_eqb_iff : (a b : ChainTokenPair) → (pair_eqb a b ≡ true) ↔ (a ≡ b)
pair_eqb_iff a b = ground arith

instance abbrev pub pair_eq : Eq ChainTokenPair
pair_eq = record { eqb = pair_eqb; eqb_iff = pair_eqb_iff }

abbrev pub new_pair : ℕ → Address → ChainTokenPair
new_pair c t = record { chain_id = c; token = t }

pub data KnownToken : Type 0 where
  host_eth host_usdc host_usdt host_weth host_wbtc rollup_weth rollup_wbtc rollup_usd : KnownToken

-- `KnownToken::ALL`
abbrev pub all_tokens : List KnownToken
all_tokens =
    host_eth ∷ host_usdc ∷ host_usdt ∷ host_weth ∷ host_wbtc ∷ rollup_weth ∷ rollup_wbtc
    ∷ rollup_usd ∷ []

-- `KnownToken::ERC20`
abbrev pub erc20_tokens : List KnownToken
erc20_tokens = host_usdc ∷ host_usdt ∷ host_weth ∷ host_wbtc ∷ rollup_weth ∷ rollup_wbtc ∷ []

unfoldable pub name : KnownToken → String
name host_eth = "host ETH"
name host_usdc = "host USDC"
name host_usdt = "host USDT"
name host_weth = "host WETH"
name host_wbtc = "host WBTC"
name rollup_weth = "rollup WETH"
name rollup_wbtc = "rollup WBTC"
name rollup_usd = "rollup USD"

unfoldable pub resolve : SystemConstants → KnownToken → ChainTokenPair
resolve c host_eth = new_pair c.host_chain_id c.native_token_address
resolve c host_usdc = new_pair c.host_chain_id c.host_tokens.usdc
resolve c host_usdt = new_pair c.host_chain_id c.host_tokens.usdt
resolve c host_weth = new_pair c.host_chain_id c.host_tokens.weth
resolve c host_wbtc = new_pair c.host_chain_id c.host_tokens.wbtc
resolve c rollup_weth = new_pair c.ru_chain_id c.rollup_tokens.weth
resolve c rollup_wbtc = new_pair c.ru_chain_id c.rollup_tokens.wbtc
resolve c rollup_usd = new_pair c.ru_chain_id c.native_token_address
