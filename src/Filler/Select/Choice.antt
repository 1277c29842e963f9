-- ===== src/Filler/Select/Choice.antt =====
-- The selection loop of `select_fillable_orders` in src/filler_task/mod.rs against its specification:
-- the greedy choice by what is left of the budgets at the start of the cycle.
use mathlib.Core.Option
use mathlib.Core.Option.{some-injective}
use native.Mathlib.Nat.{add_comm}
use signet_filler.Prelude.{
  ℕ, ◌+◌, ◌≤◌, ◌<◌, ◌≡◌, ◌≢◌, ◌↔◌, refl, ap, sym, ◌∙◌, Bool, true, false, Option, none, some, List,
  [], ◌∷◌, arith, min, Bool-cases, Option-cases, inl, inr,
}
use signet_filler.Prelude.Eq.{nat_eq, contains}
use signet_filler.Prelude.Int.{ℤ}
use signet_filler.Prelude.HashMap.{get}
use signet_filler.Words.{u256_max}
use signet_filler.Tokens.{ChainTokenPair, pair_eq}
use signet_filler.Order.{SignedOrder}
use signet_filler.Preflight.{TokenBudget, WorkingMap, decrement, can_fill, accept_order}
use signet_filler.Preflight.Budget.{
  demanded, accept_order_lem, decrement-zero, decrement-decrement, decrement-HasAllowance,
}
use signet_filler.Preflight.Totals.{Fits, can_fill_iff}
use signet_filler.Metrics.{Metrics}
use signet_filler.Filler.{Crates}
use signet_filler.Filler.Select.{consider, select_loop}

-- What a list of orders asks for of one token.
unfoldable pub demanded_all : ChainTokenPair → List SignedOrder → ℕ
demanded_all key [] = 0
demanded_all key (o ∷ os) = demanded key o.outputs + demanded_all key os

-- Amounts of 256 bits, and no balance of the largest number.
abbrev pub IsRealistic : WorkingMap → Type 0
IsRealistic w =
    (key : ChainTokenPair) (b : TokenBudget)
    → get key w.inner ≡ some b
    → (b.balance < u256_max) × (b.allowance ≤ u256_max)

-- The budget of each token that has one.
abbrev pub Budgets : Type 0
Budgets = ChainTokenPair → Option TokenBudget

abbrev pub budgets_in : WorkingMap → Budgets
budgets_in w key = get key w.inner

-- An amount of a token is within its budget, if it has one; the largest allowance is no limit.
abbrev pub Within : Budgets → ChainTokenPair → ℕ → Type 0
Within budgets key n =
    (b : TokenBudget)
    → budgets key ≡ some b
    → (n ≤ b.balance) × (b.allowance ≢ u256_max → n ≤ b.allowance)

-- On top of the orders taken before, this one is within every budget.
abbrev pub Affordable : Budgets → List SignedOrder → SignedOrder → Type 0
Affordable budgets taken order =
    (key : ChainTokenPair) → Within budgets key (demanded_all key (order ∷ taken))

-- The greedy choice, in the order of the candidates: an order is taken exactly when its hash is not
-- among the filled ones and the budgets of the cycle cover it together with those taken before.
pub data Greedy {C : Type 0} (crates : Crates C) (filled : List ℕ) (budgets : Budgets)
    : List SignedOrder → List (ℤ × SignedOrder) → List SignedOrder → Type 0 where
  stop : (taken : List SignedOrder) → Greedy crates filled budgets taken [] []
  drop_filled :
      (m : ℤ) (order : SignedOrder) {taken out : List SignedOrder} {rest : List (ℤ × SignedOrder)}
      → contains (crates.order_hash order) filled ≡ true
      → Greedy crates filled budgets taken rest out
      → Greedy crates filled budgets taken ((m, order) ∷ rest) out
  take_it :
      (m : ℤ) (order : SignedOrder) {taken out : List SignedOrder} {rest : List (ℤ × SignedOrder)}
      → contains (crates.order_hash order) filled ≡ false
      → Affordable budgets taken order
      → Greedy crates filled budgets (order ∷ taken) rest out
      → Greedy crates filled budgets taken ((m, order) ∷ rest) (order ∷ out)
  drop_costly :
      (m : ℤ) (order : SignedOrder) {taken out : List SignedOrder} {rest : List (ℤ × SignedOrder)}
      → contains (crates.order_hash order) filled ≡ false
      → ¬ Affordable budgets taken order
      → Greedy crates filled budgets taken rest out
      → Greedy crates filled budgets taken ((m, order) ∷ rest) out

-- The budgets left after the orders of a list.
pub record IsSpent (w : WorkingMap) (taken : List SignedOrder) (left : WorkingMap) : Type 0 where
  pub budgets :
      (key : ChainTokenPair)
      → get key left.inner ≡ Option.map (decrement (demanded_all key taken)) (get key w.inner)
  pub covered : (key : ChainTokenPair) → Within (budgets_in w) key (demanded_all key taken)

-- What is left covers an amount exactly when the budget covers it on top of what was spent.
fits_left :
    (b : TokenBudget) (spent n : ℕ)
    → b.balance < u256_max
    → b.allowance ≤ u256_max
    → (spent ≤ b.balance) × (b.allowance ≢ u256_max → spent ≤ b.allowance)
    → let left = decrement spent b in
      ((min n u256_max ≤ left.balance) × (min n u256_max ≤ left.allowance))
      ↔ ((n + spent ≤ b.balance) × (b.allowance ≢ u256_max → n + spent ≤ b.allowance))
unfolding decrement
fits_left b spent n hb ha h = ground arith

map-decrement :
    (spent n : ℕ) (o : Option TokenBudget)
    → ((b : TokenBudget) → o ≡ some b → b.allowance ≤ u256_max)
    → Option.map (decrement n) (Option.map (decrement spent) o)
      ≡ Option.map (decrement (n + spent)) o
map-decrement spent n none h = refl
map-decrement spent n (some b) h =
    ap some (decrement-decrement spent n b (h b refl) ∙ rw (add_comm spent n))

map-decrement_bound :
    (spent : ℕ) (o : Option TokenBudget)
    → ((b : TokenBudget) → o ≡ some b → b.allowance ≤ u256_max)
    → (b : TokenBudget) → Option.map (decrement spent) o ≡ some b
    → b.allowance ≤ u256_max
map-decrement_bound spent none h b e = cc
map-decrement_bound spent (some b') h b e =
    rw (← some-injective _ _ e) (decrement-HasAllowance spent b' (h b' refl))

not_both : {b : Bool} → b ≡ true → b ≡ false → ⊥
not_both p q = cc

module _ (w : WorkingMap) (real : IsRealistic w) where
  Fits-iff :
      (taken : List SignedOrder) (left : WorkingMap) (key : ChainTokenPair) (n : ℕ)
      → IsSpent w taken left
      → Fits left key (min n u256_max) ↔ Within (budgets_in w) key (n + demanded_all key taken)
  Fits-iff taken left key n s = elim (Option-cases (get key w.inner)) [
    | inl e ↦ ((λ f b q. cc), (λ f b q. cc (s.budgets key)))
    | inr (b, e) ↦
        let there : get key left.inner ≡ some (decrement (demanded_all key taken) b) =
          s.budgets key ∙ rw e in
        let iff =
          fits_left b (demanded_all key taken) n (real key b e).0 (real key b e).1
            (s.covered key b e) in
        (
          (λ f b' q.
              rw (some-injective _ _ (sym q ∙ e))
                (iff.0 (f (decrement (demanded_all key taken) b) there))),
          (λ g b' q. rw (some-injective _ _ (sym q ∙ there)) (iff.1 (g b e))),
        )
  ]

  -- `can_fill` on what is left is affordability on top of what was taken.
  can_fill-Affordable :
      (taken : List SignedOrder) (left : WorkingMap) (order : SignedOrder)
      → IsSpent w taken left
      → (can_fill left order ≡ true) ↔ Affordable (budgets_in w) taken order
  unfolding demanded_all
  can_fill-Affordable taken left order s = (
    λ c key.
        (Fits-iff taken left key (demanded key order.outputs) s).0
          ((can_fill_iff left order).0 c key),
    λ a.
        (can_fill_iff left order).1
          λ key. (Fits-iff taken left key (demanded key order.outputs) s).1 (a key),
  )

  accept-IsSpent :
      (taken : List SignedOrder) (left : WorkingMap) (order : SignedOrder)
      → IsSpent w taken left
      → Affordable (budgets_in w) taken order
      → IsSpent w (order ∷ taken) (accept_order left order)
  unfolding demanded_all
  accept-IsSpent taken left order s a = record {
    budgets = λ key.
        let bounded : (b : TokenBudget) → get key w.inner ≡ some b → b.allowance ≤ u256_max =
          λ b e. (real key b e).1 in
        accept_order_lem left order key (λ b e.
          map-decrement_bound (demanded_all key taken) (get key w.inner) bounded b
            (sym (s.budgets key) ∙ e))
        ∙ ap (Option.map (decrement (demanded key order.outputs))) (s.budgets key)
        ∙ map-decrement (demanded_all key taken) (demanded key order.outputs) (get key w.inner)
            bounded;
    covered = a;
  }

  module _ {C : Type 0} (crates : Crates C) (filled : List ℕ) where
    select_loop-from :
        (taken : List SignedOrder) (scored : List (ℤ × SignedOrder)) (left : WorkingMap)
        (m : Metrics)
        → IsSpent w taken left
        → Greedy crates filled
            (budgets_in w)
            taken
            scored
            (select_loop crates filled scored left m).0
    unfolding select_loop consider
    select_loop-from taken [] left m s = stop taken
    select_loop-from taken ((margin, order) ∷ rest) left m s =
        elim (Bool-cases (contains (crates.order_hash order) filled)) [
          | inl old ↦ rw old (drop_filled margin order old (select_loop-from taken rest left m s))
          | inr new ↦ elim (Bool-cases (can_fill left order)) [
            | inl yes' ↦
                let a = (can_fill-Affordable taken left order s).0 yes' in
                rw (new, yes')
                  (take_it margin order new a (
                    select_loop-from (order ∷ taken) rest (accept_order left order) m
                      (accept-IsSpent taken left order s a)))
            | inr no' ↦
                rw (new, no')
                  (drop_costly margin order new
                    (λ a. not_both ((can_fill-Affordable taken left order s).1 a) no')
                    (select_loop-from taken rest left _ s))
          ]
        ]

IsSpent-nothing : (w : WorkingMap) → IsSpent w [] w
unfolding demanded_all
IsSpent-nothing w = record {
  budgets = λ key. elim (Option-cases (get key w.inner)) [
    | inl e ↦ rw e
    | inr (b, e) ↦ rw (e, decrement-zero b)
  ];
  covered = λ key b e. omega arith;
}

-- With realistic budgets, the selection loop makes the greedy choice of the candidates.
pub select_loop-Greedy :
    {C : Type 0} (crates : Crates C) (filled : List ℕ) (w : WorkingMap)
    (scored : List (ℤ × SignedOrder)) (m : Metrics)
    → IsRealistic w
    → Greedy crates filled (budgets_in w) [] scored (select_loop crates filled scored w m).0
select_loop-Greedy crates filled w scored m real =
    select_loop-from w real crates filled [] scored w m (IsSpent-nothing w)
