-- ===== src/Tokens/Names.antt =====
-- The names that src/chain_token_pair.rs gives to tokens and chains: two globals that are set once, and
-- the `Display` of a token.
use Prim.Native.String.{String, ◌++◌}
use signet_filler.Prelude.{
  ℕ, ◌≡◌, refl, ap, ◌∙◌, true, Option, none, some, List, [], ◌∷◌, map, ◌⊎◌, inl, inr, arith,
  Bool-cases, Option-cases,
}
use signet_filler.Prelude.Result.{and_then, unwrap_or}
use signet_filler.Prelude.Eq.{◌=?◌, nat_eq, contains}
use signet_filler.Prelude.HashMap.{HashMap, get, insert, extend, get-insert}
use signet_filler.Tokens.{
  Address, SystemConstants, ChainTokenPair, pair_eq, pair_eqb_iff, KnownToken, all_tokens, name,
  resolve,
}

-- `TOKEN_NAMES` and `CHAIN_NAMES`
pub record Globals : Type 0 where
  pub token_names : Option (HashMap ChainTokenPair String)
  pub chain_names : Option (HashMap ℕ String)

abbrev pub no_names : Globals
no_names = record { token_names = none; chain_names = none }

-- `OnceLock::set`, whose error is logged.
abbrev pub set_once {ℓ} : {A : Type ℓ} → A → Option A → Option A
set_once new none = some new
set_once new (some old) = some old

unfoldable pub name_entries : SystemConstants → List KnownToken → List (ChainTokenPair × String)
name_entries c [] = []
name_entries c (k ∷ ks) = (resolve c k, name k) ∷ name_entries c ks

unfoldable pub init_token_names : SystemConstants → Globals → Globals
unfolding name_entries
init_token_names c g = record {
  token_names = set_once (extend [] (name_entries c all_tokens)) g.token_names;
  chain_names =
      set_once (extend [] ((c.host_chain_id, "host") ∷ (c.ru_chain_id, "rollup") ∷ []))
        g.chain_names;
}

abbrev named_token :
    (ℕ → String) → (Address → String) → Globals → ChainTokenPair → Option String → String
named_token show_chain show_token g pair (some name) = name
named_token show_chain show_token g pair none =
    unwrap_or (and_then g.chain_names (get pair.chain_id))
      ("unknown-chain(" ++ show_chain pair.chain_id ++ ")")
    ++ ":"
    ++ show_token pair.token

-- `Display` of a token, by the texts of a chain id and of an address.
unfoldable pub display : (ℕ → String) → (Address → String) → Globals → ChainTokenPair → String
display show_chain show_token g pair =
    named_token show_chain show_token g pair (and_then g.token_names (get pair))

-- A later initialization changes nothing.
init-init :
    (c c' : SystemConstants) (g : Globals)
    → init_token_names c' (init_token_names c g) ≡ init_token_names c g
unfolding init_token_names
init-init c c' g = elim (Option-cases g.token_names) [
  | inl e ↦ elim (Option-cases g.chain_names) [
    | inl f ↦ rw (e, f) refl
    | inr (n, f) ↦ rw (e, f) refl
  ]
  | inr (m, e) ↦ elim (Option-cases g.chain_names) [
    | inl f ↦ rw (e, f) refl
    | inr (n, f) ↦ rw (e, f) refl
  ]
]

-- Some known token of the list is this pair.
abbrev pub IsListed : SystemConstants → ChainTokenPair → List KnownToken → Type 0
IsListed c pair ks = contains pair (map (resolve c) ks) ≡ true

get-name_entries :
    (c : SystemConstants) (pair : ChainTokenPair) (text : String) (ks : List KnownToken)
    (m : HashMap ChainTokenPair String)
    → ((k : KnownToken) → resolve c k ≡ pair → name k ≡ text)
    → (get pair m ≡ some text) ⊎ IsListed c pair ks
    → get pair (extend m (name_entries c ks)) ≡ some text
unfolding name_entries extend
get-name_entries c pair text [] m h (inl e) = e
get-name_entries c pair text [] m h (inr listed) = cc
get-name_entries c pair text (k ∷ ks) m h found = elim (Bool-cases (resolve c k =? pair)) [
  | inl same ↦ get-name_entries c pair text ks (insert (resolve c k) (name k) m) h (
      inl (
        get-insert (resolve c k) pair (name k) m
        ∙ rw same (ap some (h k ((pair_eqb_iff (resolve c k) pair).0 same)))))
  | inr other ↦ get-name_entries c pair text ks (insert (resolve c k) (name k) m) h (elim found [
    | inl e ↦ inl (get-insert (resolve c k) pair (name k) m ∙ rw other e)
    | inr listed ↦ inr (rw other at listed)
  ])
]

all_tokens-IsListed : (c : SystemConstants) (k : KnownToken) → IsListed c (resolve c k) all_tokens
unfolding resolve
all_tokens-IsListed c k = ground arith

-- Once the names are set at startup, a known token that shares its pair with no other displays as its
-- name, and also after any later initialization.
pub display-name :
    (show_chain : ℕ → String) (show_token : Address → String) (c c' : SystemConstants)
    (known : KnownToken)
    → ((k : KnownToken) → resolve c k ≡ resolve c known → k ≡ known)
    → display show_chain show_token
        (init_token_names c' (init_token_names c no_names))
        (resolve c known)
      ≡ name known
unfolding display init_token_names
display-name show_chain show_token c c' known alone =
    let pair = resolve c known in
    let listed : get pair (extend [] (name_entries c all_tokens)) ≡ some (name known) =
      get-name_entries c pair (name known) all_tokens [] (λ k e. ap name (alone k e))
        (inr (all_tokens-IsListed c known)) in
    rw (init-init c c' no_names, listed) refl
