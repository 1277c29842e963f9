-- ===== src/Preflight/Build.antt =====
-- `WorkingMap::build` of src/filler_task/preflight.rs: which budgets there are and what they hold.
use mathlib.Core.Option
use mathlib.Core.Option.{some-injective}
use signet_filler.Prelude.{
  ℕ, ◌≡◌, refl, ap, ◌∙◌, Bool, true, false, ◌&&◌, ◌||◌, Option, none, some, List, [], ◌∷◌, ◌==◌,
  if◌then◌else◌, arith, Bool-cases, inl, inr,
}
use signet_filler.Prelude.Int.{ℤ}
use signet_filler.Prelude.Eq.{◌=?◌, contains}
use signet_filler.Prelude.HashMap.{HashMap, get, insert, extend, get-insert}
use signet_filler.Tokens.{Address, SystemConstants, ChainTokenPair, pair_eq, pair_eqb_iff}
use signet_filler.Order.{Output, SignedOrder, output_key}
use signet_filler.Words.{u256_max}
use signet_filler.Preflight.{
  TokenBudget, Balances, query_balance, allowance_for, provider_for, insert_new, or_default, rollup,
  host, tokens_of, tokens_needed, add_answer, query_all, build,
}

-- An output for the key, on one of the two chains.
abbrev asks : SystemConstants → ChainTokenPair → Output → Bool
asks c key o =
    ((o.chain_id == c.ru_chain_id) || (o.chain_id == c.host_chain_id)) && (output_key o =? key)

abbrev asked_by : SystemConstants → ChainTokenPair → List Output → Bool
asked_by c key [] = false
asked_by c key (o ∷ os) = asks c key o || asked_by c key os

-- Some candidate has an output for the key on one of the two chains.
abbrev pub is_asked : SystemConstants → ChainTokenPair → List (ℤ × SignedOrder) → Bool
is_asked c key [] = false
is_asked c key ((margin, order) ∷ rest) = asked_by c key order.outputs || is_asked c key rest

contains-insert_new :
    (key k : ChainTokenPair) (keys : List ChainTokenPair)
    → contains key (insert_new k keys) ≡ ((k =? key) || contains key keys)
contains-insert_new key k keys = elim (Bool-cases (contains k keys)) [
  | inl old ↦ rw old (elim (Bool-cases (k =? key)) [
    | inl same ↦ rw (same, ← (pair_eqb_iff k key).0 same, old)
    | inr other ↦ rw other
  ])
  | inr new ↦ rw new
]

contains-if_known :
    (known : Bool) (key k : ChainTokenPair) (keys : List ChainTokenPair)
    → contains key (if known then insert_new k keys else keys)
      ≡ ((known && (k =? key)) || contains key keys)
contains-if_known true key k keys = contains-insert_new key k keys
contains-if_known false key k keys = refl

or_regroup : (a b c : Bool) → (b || (a || c)) ≡ ((a || b) || c)
or_regroup a b c = ground arith

contains-tokens_of :
    (c : SystemConstants) (key : ChainTokenPair) (os : List Output) (keys : List ChainTokenPair)
    → contains key (tokens_of c os keys) ≡ (asked_by c key os || contains key keys)
unfolding tokens_of
contains-tokens_of c key [] keys = refl
contains-tokens_of c key (o ∷ os) keys =
    contains-tokens_of c key os _
    ∙ ap (λ t. asked_by c key os || t) (contains-if_known _ key (output_key o) keys)
    ∙ or_regroup (asks c key o) (asked_by c key os) (contains key keys)

pub contains-tokens_needed :
    (c : SystemConstants) (key : ChainTokenPair) (scored : List (ℤ × SignedOrder))
    (keys : List ChainTokenPair)
    → contains key (tokens_needed c scored keys) ≡ (is_asked c key scored || contains key keys)
unfolding tokens_needed
contains-tokens_needed c key [] keys = refl
contains-tokens_needed c key ((margin, order) ∷ rest) keys =
    contains-tokens_needed c key rest (tokens_of c order.outputs keys)
    ∙ ap (λ t. is_asked c key rest || t) (contains-tokens_of c key order.outputs keys)
    ∙ or_regroup (asked_by c key order.outputs) (is_asked c key rest) (contains key keys)

abbrev pub first_some : Option TokenBudget → Option TokenBudget → Option TokenBudget
first_some none o = o
first_some (some b) o = some b

-- What the answer to a balance query adds to the budgets.
abbrev pub put_answer :
    ChainTokenPair
    → ℕ
    → Option ℕ
    → HashMap ChainTokenPair TokenBudget
    → HashMap ChainTokenPair TokenBudget
put_answer key allowance none m = m
put_answer key allowance (some bal) m =
    insert key (record { balance = bal; allowance = allowance }) m

extend-add_answer :
    (key : ChainTokenPair) (allowance : ℕ) (answer : Option ℕ)
    (rest : List (ChainTokenPair × TokenBudget)) (m : HashMap ChainTokenPair TokenBudget)
    → extend m (add_answer key allowance answer rest)
      ≡ extend (put_answer key allowance answer m) rest
unfolding extend
extend-add_answer key allowance none rest m = refl
extend-add_answer key allowance (some bal) rest m = refl

get-put_answer :
    (k key : ChainTokenPair) (allowance : ℕ) (answer : Option ℕ)
    (m : HashMap ChainTokenPair TokenBudget)
    → get key (put_answer k allowance answer m) ≡ (
        if k =? key
        then first_some
            (Option.map (λ bal. record { balance = bal; allowance = allowance }) answer)
            (get key m)
        else get key m)
get-put_answer k key allowance none m = elim (Bool-cases (k =? key)) [
  | inl same ↦ rw same
  | inr other ↦ rw other
]
get-put_answer k key allowance (some bal) m =
    get-insert k key (record { balance = bal; allowance = allowance }) m

again :
    (s t : Bool) (b g : Option TokenBudget)
    → (if t
        then first_some b (if s then first_some b g else g)
        else (if s then first_some b g else g))
      ≡ (if s || t then first_some b g else g)
again s t b g = ground arith

module _ (c : SystemConstants) (rpc : Balances) (filler : Address)
    (cached : ChainTokenPair → Option ℕ) where
  -- The filler's balance of a token on its chain: the account's own for the native token, and else what
  -- the token's contract says.
  abbrev pub balance_in : ChainTokenPair → Option ℕ
  balance_in key =
      let chain = if key.chain_id == c.ru_chain_id then rollup else host in
      if key.token == c.native_token_address
      then rpc.get_balance chain filler
      else rpc.balance_of chain key.token filler

  -- The native token has no limit, and a token that is not cached has none to spend.
  abbrev pub allowance_in : ChainTokenPair → ℕ
  allowance_in key =
      if key.token == c.native_token_address then u256_max else or_default (cached key)

  -- The budget of a token, if its balance query succeeds.
  abbrev pub budget_of : ChainTokenPair → Option TokenBudget
  budget_of key =
      Option.map (λ bal. record { balance = bal; allowance = allowance_in key }) (balance_in key)

  pub get-answer :
      (k key : ChainTokenPair) (m : HashMap ChainTokenPair TokenBudget)
      → get key (
          put_answer k
            (allowance_for c cached k)
            (query_balance c rpc (provider_for c k) filler k.token)
            m)
        ≡ (if k =? key then first_some (budget_of key) (get key m) else get key m)
  unfolding query_balance allowance_for provider_for
  get-answer k key m = elim (Bool-cases (k =? key)) [
    | inl same ↦ rw (get-put_answer, same, (pair_eqb_iff k key).0 same)
    | inr other ↦ rw (get-put_answer, other)
  ]

  get-query_all :
      (key : ChainTokenPair) (keys : List ChainTokenPair) (m : HashMap ChainTokenPair TokenBudget)
      → get key (extend m (query_all c rpc filler cached keys))
        ≡ (if contains key keys then first_some (budget_of key) (get key m) else get key m)
  unfolding query_all extend query_balance allowance_for provider_for
  get-query_all key [] m = refl
  get-query_all key (k ∷ keys) m =
      let asked = query_balance c rpc (provider_for c k) filler k.token in
      let m' = put_answer k (allowance_for c cached k) asked m in
      ap (get key) (
        extend-add_answer k (allowance_for c cached k) asked (query_all c rpc filler cached keys) m)
      ∙ get-query_all key keys m'
      ∙ ap (λ g. if contains key keys then first_some (budget_of key) g else g) (get-answer k key m)
      ∙ again (k =? key) (contains key keys) (budget_of key) (get key m)

pub first_some-none :
    (t : Bool) (b : Option TokenBudget)
    → (if t || false then first_some b none else none) ≡ (if t then b else none)
first_some-none t b = ground arith

-- A token has a budget exactly when some candidate has an output for it on one of the two chains and
-- its balance query succeeds. The budget then holds that balance, and as allowance the cached one,
-- zero if none is cached, and the largest number for the native token.
pub build_lem :
    (c : SystemConstants) (rpc : Balances) (filler : Address) (cached : ChainTokenPair → Option ℕ)
    (candidates : List (ℤ × SignedOrder)) (key : ChainTokenPair)
    → get key (build c rpc filler cached candidates).inner
      ≡ (if is_asked c key candidates then budget_of c rpc filler cached key else none)
unfolding build get
build_lem c rpc filler cached candidates key =
    get-query_all c rpc filler cached key (tokens_needed c candidates []) []
    ∙ ap (λ t. if t then first_some (budget_of c rpc filler cached key) none else none)
        (contains-tokens_needed c key candidates [])
    ∙ first_some-none (is_asked c key candidates) (budget_of c rpc filler cached key)
