-- ===== src/Pricing/Accept.antt =====
-- What `profitability` of src/fixed_pricing_client.rs decides, on every branch.
use native.Mathlib.Nat.{mul-le-mul, le_refl}
use signet_filler.Prelude.{
  ℕ, ◌+◌, ◌-◌, ◌*◌, ◌≤◌, ◌<◌, ◌≡◌, ◌≢◌, ◌⊎◌, inl, inr, Option, none, some, [], arith, ap, ltb,
  if◌then◌else◌, Bool-cases, is_empty, is_empty-eq-nil, is_empty-ne-nil,
}
use signet_filler.Prelude.Eq.{nat_eq}
use signet_filler.Prelude.Int.{ℤ, sub_ℕ, neg_part}
use signet_filler.Prelude.HashMap.{get}
use signet_filler.Prelude.Result.{Result, ok, err, ◌>>=◌}
use signet_filler.Words.{i128_max, checked_mul, checked_sub, to_i128, checked_sub_i128-pos}
use signet_filler.Tokens.{Address}
use signet_filler.Order.{SignedOrder}
use signet_filler.Pricing.{
  FixedPricingClient, FixedPricingError, no_inputs, no_outputs, overflow, unknown_token, inputs,
  outputs, try_fold, check_loss, profitability,
}
use signet_filler.Pricing.Value.{IsPriced, value, Explains, try_fold-Explains}

-- What the last part of the check says of the two totals.
abbrev Judges : (loss i o : ℕ) → Result FixedPricingError (Option ℤ) → Type 0
Judges loss i o (ok none) = i * 100 < o * (100 - loss)
Judges loss i o (ok (some m)) =
    (o * (100 - loss) ≤ i * 100) × (i ≤ i128_max) × (o ≤ i128_max) × (m ≡ sub_ℕ i o)
Judges loss i o (err overflow) = (i128_max < i) ⊎ (i128_max < o)
Judges loss i o (err no_inputs) = ⊥
Judges loss i o (err no_outputs) = ⊥
Judges loss i o (err (unknown_token a)) = ⊥

kept-le : (o loss : ℕ) → o * (100 - loss) ≤ o * 100
kept-le o loss = let less : 100 - loss ≤ 100 = omega arith in mul-le-mul (le_refl o) less

check_loss-Judges : (loss i o : ℕ) → loss ≤ 100 → Judges loss i o (check_loss loss i o)
unfolding check_loss checked_mul checked_sub to_i128
check_loss-Judges loss i o h = ground (arith, kept-le o loss, checked_sub_i128-pos i o)

module _ (client : FixedPricingClient) (order : SignedOrder) where
  abbrev pub total_in : Option ℕ
  total_in = value client.token_info (inputs order)

  abbrev pub total_out : Option ℕ
  total_out = value client.token_info (outputs order)

  -- What a result of `profitability` says of the order's unbounded values.
  abbrev pub Verdict : Result FixedPricingError (Option ℤ) → Type 0
  Verdict (err no_inputs) = order.permitted ≡ []
  Verdict (err no_outputs) = (order.permitted ≢ []) × (order.outputs ≡ [])
  Verdict (err (unknown_token a)) =
      (get a client.token_info ≡ none) × ((total_in ≡ none) ⊎ (total_out ≡ none))
  Verdict (err overflow) =
      (i o : ℕ) → total_in ≡ some i → total_out ≡ some o → (i128_max < i) ⊎ (i128_max < o)
  Verdict (ok r) =
      (i : ℕ) × (o : ℕ) × (total_in ≡ some i)
      × (total_out ≡ some o)
      × Judges client.max_loss_percent i o (ok r)

  Verdict-of_Judges :
      (i o : ℕ) (r : Result FixedPricingError (Option ℤ))
      → total_in ≡ some i
      → total_out ≡ some o
      → Judges client.max_loss_percent i o r
      → Verdict r
  Verdict-of_Judges i o (ok r) ei eo j = (i, o, ei, eo, j)
  Verdict-of_Judges i o (err overflow) ei eo j = λ i' o' ei' eo'. ground arith
  Verdict-of_Judges i o (err no_inputs) ei eo j = absurd j
  Verdict-of_Judges i o (err no_outputs) ei eo j = absurd j
  Verdict-of_Judges i o (err (unknown_token a)) ei eo j = absurd j

  -- The second `try_fold` and what follows it, when the inputs are worth `i`.
  Verdict-of_output :
      (i : ℕ) (r : Result FixedPricingError ℕ)
      → client.max_loss_percent ≤ 100
      → total_in ≡ some i
      → Explains client.token_info 0 (outputs order) r
      → Verdict (r >>= λ o. check_loss client.max_loss_percent i o)
  Verdict-of_output i (ok v) h ei (w, ew, sum, fits) =
      Verdict-of_Judges i v _ ei (ground arith) (check_loss-Judges _ i v h)
  Verdict-of_output i (err overflow) h ei over = λ i' o' ei' eo'. inr (omega (arith, over o' eo'))
  Verdict-of_output i (err no_inputs) h ei e = absurd e
  Verdict-of_output i (err no_outputs) h ei e = absurd e
  Verdict-of_output i (err (unknown_token a)) h ei (e, unknown) = (e, inr unknown)

  Verdict-of_input :
      (r : Result FixedPricingError ℕ)
      → IsPriced client.token_info
      → client.max_loss_percent ≤ 100
      → Explains client.token_info 0 (inputs order) r
      → Verdict (
          r >>= λ i. try_fold client.token_info 0 (outputs order) >>= λ o.
          check_loss client.max_loss_percent i o)
  Verdict-of_input (ok v) p h (w, ew, sum, fits) =
      Verdict-of_output v _ h (ground arith)
        (try_fold-Explains client.token_info 0 (outputs order) p (omega arith))
  Verdict-of_input (err overflow) p h over = λ i' o' ei' eo'. inl (omega (arith, over i' ei'))
  Verdict-of_input (err no_inputs) p h e = absurd e
  Verdict-of_input (err no_outputs) p h e = absurd e
  Verdict-of_input (err (unknown_token a)) p h (e, unknown) = (e, inl unknown)

pub profitability-Verdict :
    (client : FixedPricingClient) (order : SignedOrder)
    → IsPriced client.token_info
    → client.max_loss_percent ≤ 100
    → Verdict client order (profitability client order)
unfolding profitability
profitability-Verdict client order p h = elim (Bool-cases (is_empty order.permitted)) [
  | inl none_in ↦ rw none_in (is_empty-eq-nil order.permitted none_in)
  | inr some_in ↦ elim (Bool-cases (is_empty order.outputs)) [
    | inl none_out ↦
        rw (some_in, none_out)
          (is_empty-ne-nil order.permitted some_in, is_empty-eq-nil order.outputs none_out)
    | inr some_out ↦
        rw (some_in, some_out)
          (Verdict-of_input client order (try_fold client.token_info 0 (inputs order)) p h
            (try_fold-Explains client.token_info 0 (inputs order) p (omega arith)))
  ]
]

kept_at : (L i o i' o' : ℕ) → o' * (100 - L) ≤ i' * 100 → i' ≡ i → o' ≡ o → o * (100 - L) ≤ i * 100
kept_at L i o i' o' h p q = rw (← p, ← q) h

loss-le : (i o L : ℕ) → L ≤ 100 → o * (100 - L) ≤ i * 100 → neg_part (sub_ℕ i o) * 100 ≤ o * L
loss-le i o L h kept =
    let split : 100 - L + L ≡ 100 = omega arith in ground (arith, ap (λ (t : ℕ). o * t) split)

-- With both totals known and in range, only one result agrees with `Verdict`.
Verdict-in_range :
    (client : FixedPricingClient) (order : SignedOrder) (i o : ℕ)
    (r : Result FixedPricingError (Option ℤ))
    → order.permitted ≢ []
    → order.outputs ≢ []
    → total_in client order ≡ some i
    → total_out client order ≡ some o
    → i ≤ i128_max
    → o ≤ i128_max
    → Verdict client order r
    → r ≡ (
        if ltb (i * 100) (o * (100 - client.max_loss_percent))
        then ok none
        else ok (some (sub_ℕ i o)))
Verdict-in_range client order i o (err no_inputs) pi po ei eo hi ho v = absurd (pi v)
Verdict-in_range client order i o (err no_outputs) pi po ei eo hi ho v = absurd (po v.1)
Verdict-in_range client order i o (err (unknown_token a)) pi po ei eo hi ho v = ground arith
Verdict-in_range client order i o (err overflow) pi po ei eo hi ho v = ground (arith, v i o)
Verdict-in_range client order i o (ok none) pi po ei eo hi ho (i', o', ei', eo', j) = ground arith
Verdict-in_range client order i o (ok (some m)) pi po ei eo hi ho (i', o', ei', eo', j) =
    let same_i : i' ≡ i = ground arith in
    let same_o : o' ≡ o = ground arith in
    elim (Bool-cases (ltb (i * 100) (o * (100 - client.max_loss_percent)))) [
      | inl less ↦ absurd (ground (arith, kept_at _ _ _ _ _ j.0 same_i same_o))
      | inr enough ↦ rw (enough, j.3, same_i, same_o)
    ]

-- Over a representable table, with a maximal loss of at most 100: if an order has inputs and
-- outputs, every token of it has a price, and both totals fit an `i128`, the order is refused when
-- 100 * input is below (100 - max_loss) * output, and else scored with input minus output.
pub profitability_in_range :
    (client : FixedPricingClient) (order : SignedOrder) (i o : ℕ)
    → IsPriced client.token_info
    → client.max_loss_percent ≤ 100
    → order.permitted ≢ []
    → order.outputs ≢ []
    → total_in client order ≡ some i
    → total_out client order ≡ some o
    → i ≤ i128_max
    → o ≤ i128_max
    → profitability client order ≡ (
        if ltb (i * 100) (o * (100 - client.max_loss_percent))
        then ok none
        else ok (some (sub_ℕ i o)))
profitability_in_range client order i o priced percent pi po ei eo hi ho =
    Verdict-in_range client order i o (profitability client order) pi po ei eo hi ho
      (profitability-Verdict client order priced percent)

-- Over a representable table and with a maximal loss of at most 100, a score is the exact difference
-- of the totals, and the loss in it is at most `max_loss_percent` percent of the output total.
pub profitability_sound :
    (client : FixedPricingClient) (order : SignedOrder) (m : ℤ)
    → IsPriced client.token_info
    → client.max_loss_percent ≤ 100
    → profitability client order ≡ ok (some m)
    → (i : ℕ) × (o : ℕ) × (total_in client order ≡ some i)
      × (total_out client order ≡ some o)
      × (m ≡ sub_ℕ i o)
      × (neg_part m * 100 ≤ o * client.max_loss_percent)
profitability_sound client order m priced percent e =
    let v : Verdict client order (ok (some m)) =
      rw e at (profitability-Verdict client order priced percent) in
    let (i, o, ei, eo, j) = v in
    (i, o, ei, eo, j.3, rw (j.3) (loss-le i o client.max_loss_percent percent j.0))

-- Over a representable table and with a maximal loss of at most 100: if the check reports a token,
-- that token has no price, and the inputs or the outputs have a token without a price.
pub profitability_unknown_token :
    (client : FixedPricingClient) (order : SignedOrder) (a : Address)
    → IsPriced client.token_info
    → client.max_loss_percent ≤ 100
    → profitability client order ≡ err (unknown_token a)
    → (get a client.token_info ≡ none)
      × ((total_in client order ≡ none) ⊎ (total_out client order ≡ none))
profitability_unknown_token client order a priced percent e =
    rw e at (profitability-Verdict client order priced percent)
