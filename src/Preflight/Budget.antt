-- ===== src/Preflight/Budget.antt =====
-- Budgets of src/filler_task/preflight.rs: what `accept_order` takes from each of them.
use mathlib.Core.Option
use signet_filler.Prelude.{
  ℕ, ◌+◌, ◌-◌, ◌==◌, refl, ap, ◌≤◌, ◌≡◌, none, some, List, [], ◌∷◌, arith, if◌then◌else◌,
  Bool-cases, Option-cases, ◌∙◌, inl, inr,
}
use signet_filler.Prelude.Eq.{◌=?◌}
use signet_filler.Prelude.HashMap.{HashMap, get, modify, get-modify}
use signet_filler.Words.{u256_max}
use signet_filler.Tokens.{ChainTokenPair, pair_eq}
use signet_filler.Order.{Output, SignedOrder, output_key}
use signet_filler.Preflight.{TokenBudget, decrement, WorkingMap, accept_outputs, accept_order}

-- What a list of outputs asks for of one token, in unbounded arithmetic.
unfoldable pub demanded : ChainTokenPair → List Output → ℕ
demanded key [] = 0
demanded key (o ∷ os) = (if output_key o =? key then o.amount else 0) + demanded key os

pub decrement-zero : (b : TokenBudget) → decrement 0 b ≡ b
unfolding decrement
decrement-zero b = ground arith

-- Two decrements are one by the sum, below the largest allowance and at it.
pub decrement-decrement :
    (a n : ℕ) (b : TokenBudget)
    → b.allowance ≤ u256_max
    → decrement n (decrement a b) ≡ decrement (a + n) b
unfolding decrement
decrement-decrement a n b h = ground arith

abbrev pub HasAllowance : ChainTokenPair → HashMap ChainTokenPair TokenBudget → Type 0
HasAllowance key m = (b : TokenBudget) → get key m ≡ some b → b.allowance ≤ u256_max

-- One output takes its amount from the budget of its own token, and from no other.
accept_one :
    (key : ChainTokenPair) (m : HashMap ChainTokenPair TokenBudget) (o : Output)
    → get key (modify (output_key o) (decrement o.amount) m)
      ≡ Option.map (decrement (if output_key o =? key then o.amount else 0)) (get key m)
accept_one key m o = elim (Bool-cases (output_key o =? key)) [
  | inl same ↦ rw (get-modify, same)
  | inr other ↦ elim (Option-cases (get key m)) [
    | inl e ↦ rw (get-modify, other, e)
    | inr (b, e) ↦ rw (get-modify, other, e, decrement-zero b)
  ]
]

pub decrement-HasAllowance :
    (n : ℕ) (b : TokenBudget) → b.allowance ≤ u256_max → (decrement n b).allowance ≤ u256_max
unfolding decrement
decrement-HasAllowance n b h = ground arith

-- `accept_outputs` decrements the budget of a token once by the sum that the outputs ask of it.
accept_outputs-none :
    (key : ChainTokenPair) (m : HashMap ChainTokenPair TokenBudget) (os : List Output)
    → get key m ≡ none
    → get key (accept_outputs m os) ≡ none
unfolding accept_outputs
accept_outputs-none key m [] e = e
accept_outputs-none key m (o ∷ os) e =
    accept_outputs-none key (modify (output_key o) (decrement o.amount) m) os
      (accept_one key m o ∙ rw e)

accept_outputs-some :
    (key : ChainTokenPair) (m : HashMap ChainTokenPair TokenBudget) (os : List Output)
    (b : TokenBudget)
    → b.allowance ≤ u256_max
    → get key m ≡ some b
    → get key (accept_outputs m os) ≡ some (decrement (demanded key os) b)
unfolding accept_outputs demanded
accept_outputs-some key m [] b h e = rw (decrement-zero b) e
accept_outputs-some key m (o ∷ os) b h e =
    let part : ℕ = if output_key o =? key then o.amount else 0 in
    rw (← decrement-decrement part (demanded key os) b h) (
      accept_outputs-some key (modify (output_key o) (decrement o.amount) m) os (decrement part b)
        (decrement-HasAllowance part b h) (accept_one key m o ∙ rw e))

-- `accept_order` decrements the budget of each token once, by the sum that the outputs ask of it.
pub accept_order_lem :
    (w : WorkingMap) (order : SignedOrder) (key : ChainTokenPair)
    → ((b : TokenBudget) → get key w.inner ≡ some b → b.allowance ≤ u256_max)
    → get key (accept_order w order).inner
      ≡ Option.map (decrement (demanded key order.outputs)) (get key w.inner)
unfolding accept_order
accept_order_lem w order key h = elim (Option-cases (get key w.inner)) [
  | inl e ↦ rw e (accept_outputs-none key w.inner order.outputs e)
  | inr (b, e) ↦ rw e (accept_outputs-some key w.inner order.outputs b (h b e) e)
]

-- A budget lowered by an amount: the balance, and the allowance unless it is the largest number.
abbrev pub lowered : ℕ → TokenBudget → TokenBudget
lowered n b = record {
  balance = b.balance - n;
  allowance = if b.allowance == u256_max then u256_max else b.allowance - n;
}

decrement-lowered : (n : ℕ) (b : TokenBudget) → decrement n b ≡ lowered n b
unfolding decrement
decrement-lowered n b = ground arith

-- After an order is accepted, the balance of each token is lower by all that the order's outputs ask of
-- it, and so is its allowance, unless that is the largest number, which stays; neither goes below zero,
-- and no budget appears or goes; if the allowance of the token fits 256 bits.
pub accept_order-lowered :
    (w : WorkingMap) (order : SignedOrder) (key : ChainTokenPair)
    → ((b : TokenBudget) → get key w.inner ≡ some b → b.allowance ≤ u256_max)
    → get key (accept_order w order).inner
      ≡ Option.map (lowered (demanded key order.outputs)) (get key w.inner)
accept_order-lowered w order key h = elim (Option-cases (get key w.inner)) [
  | inl e ↦ accept_order_lem w order key h ∙ rw e refl
  | inr (b, e) ↦
      accept_order_lem w order key h
      ∙ rw e (ap some (decrement-lowered (demanded key order.outputs) b))
]
