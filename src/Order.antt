-- ===== src/Order.antt =====
-- The data of a signed order that the program reads (`SignedOrder` of the crate `signet_types`, with
-- the fields that the constructors in the tests of src/filler_task/mod.rs and of
-- src/fixed_pricing_client.rs show).
use signet_filler.Prelude.{ℕ, List}
use signet_filler.Tokens.{Address, ChainTokenPair, new_pair}

pub record TokenPermissions : Type 0 where
  pub token : Address
  pub amount : ℕ

pub record Output : Type 0 where
  pub token : Address
  pub amount : ℕ
  pub recipient : Address
  pub chain_id : ℕ

pub record SignedOrder : Type 0 where
  pub permitted : List TokenPermissions
  pub nonce : ℕ
  pub deadline : ℕ
  pub owner : Address
  pub signature : List ℕ
  pub outputs : List Output

-- `ChainTokenPair::new(u64::from(output.chainId), output.token)`
abbrev pub output_key : Output → ChainTokenPair
output_key o = new_pair o.chain_id o.token
