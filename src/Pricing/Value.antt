-- ===== src/Pricing/Value.antt =====
-- The value of a list of token amounts in unbounded arithmetic, and the closure `try_sum` of
-- src/fixed_pricing_client.rs against it.
use signet_filler.Prelude.{
  ℕ, ◌+◌, ◌-◌, ◌*◌, ◌^◌, ◌≤◌, ◌<◌, ◌≡◌, refl, Option, none, some, List, [], ◌∷◌, leb, arith,
  if◌then◌else◌, Option-cases, inl, inr, Bool-cases,
}
use signet_filler.Prelude.Eq.{nat_eq}
use signet_filler.Prelude.HashMap.{HashMap, get}
use signet_filler.Prelude.Result.{Result, ok, err, and_then}
use signet_filler.Words.{u256_max, checked_add, checked_mul, checked_pow, checked_sub}
use signet_filler.Tokens.{Address}
use signet_filler.Pricing.{
  TokenInfo, FixedPricingError, no_inputs, no_outputs, overflow, unknown_token, try_sum, try_fold,
}

-- The USD value, with 18 decimals, of one raw unit of a token.
abbrev pub unit : TokenInfo → ℕ
unit i = i.price_usd * 10 ^ (18 - i.decimals)

-- Every step of the multiplier fits.
pub record IsRepresentable (i : TokenInfo) : Type 0 where
  pub decimals_le : i.decimals ≤ 18
  pub scale_fits : 10 ^ (18 - i.decimals) ≤ u256_max
  pub unit_fits : unit i ≤ u256_max

abbrev pub IsPriced : HashMap Address TokenInfo → Type 0
IsPriced table = (a : Address) (i : TokenInfo) → get a table ≡ some i → IsRepresentable i

-- `none` where a token has no price.
unfoldable pub value : HashMap Address TokenInfo → List (Address × ℕ) → Option ℕ
value table [] = some 0
value table ((a, n) ∷ rest) =
    and_then (get a table) λ i. and_then (value table rest) λ w. some (n * unit i + w)

pub try_sum_known :
    (table : HashMap Address TokenInfo) (a n total : ℕ) (i : TokenInfo)
    → get a table ≡ some i
    → IsRepresentable i
    → try_sum table total (a, n)
      ≡ (if leb (total + n * unit i) u256_max then ok (total + n * unit i) else err overflow)
unfolding try_sum checked_add checked_mul checked_pow checked_sub
try_sum_known table a n total i e r =
    rw e (ground (arith, r.decimals_le, r.scale_fits, r.unit_fits))

pub try_sum_unknown :
    (table : HashMap Address TokenInfo) (a n total : ℕ)
    → get a table ≡ none
    → try_sum table total (a, n) ≡ err (unknown_token a)
unfolding try_sum
try_sum_unknown table a n total e = rw e

-- What a result of `try_fold` from a running total says about the unbounded value.
abbrev pub Explains :
    HashMap Address TokenInfo → ℕ → List (Address × ℕ) → Result FixedPricingError ℕ → Type 0
Explains table total xs (ok v) =
    (w : ℕ) × (value table xs ≡ some w) × (total + w ≡ v) × (v ≤ u256_max)
Explains table total xs (err (unknown_token a)) = (get a table ≡ none) × (value table xs ≡ none)
Explains table total xs (err overflow) = (w : ℕ) → value table xs ≡ some w → u256_max < total + w
Explains table total xs (err no_inputs) = ⊥
Explains table total xs (err no_outputs) = ⊥

-- The value of a list, taken apart at its first entry.
value-cons :
    (table : HashMap Address TokenInfo) (a n : ℕ) (rest : List (Address × ℕ)) (i : TokenInfo)
    (w : ℕ)
    → get a table ≡ some i
    → value table ((a, n) ∷ rest) ≡ some w
    → (w' : ℕ) × (value table rest ≡ some w') × (n * unit i + w' ≡ w)
unfolding value
value-cons table a n rest i w e known = elim (Option-cases (value table rest)) [
  | inl unknown ↦ absurd (ground arith)
  | inr (w', eq) ↦ (w', eq, ground arith)
]

Explains-cons :
    (table : HashMap Address TokenInfo) (a n total : ℕ) (rest : List (Address × ℕ)) (i : TokenInfo)
    (r : Result FixedPricingError ℕ)
    → get a table ≡ some i
    → Explains table (total + n * unit i) rest r
    → Explains table total ((a, n) ∷ rest) r
unfolding value
Explains-cons table a n total rest i (ok v) e (w, known, sum, fits) =
    (n * unit i + w, rw (e, known), omega arith, fits)
Explains-cons table a n total rest i (err (unknown_token b)) e (h, unknown) = (h, rw (e, unknown))
Explains-cons table a n total rest i (err overflow) e h =
    λ w known. let (w', eq, sum) = value-cons table a n rest i w e known in omega (arith, h w' eq)
Explains-cons table a n total rest i (err no_inputs) e h = h
Explains-cons table a n total rest i (err no_outputs) e h = h

-- Over a representable table, and from a running total of 256 bits, `try_fold` gives the exact sum
-- if it fits, reports a token without a price only if there is one, and overflow only if the sum
-- does not fit.
pub try_fold-Explains :
    (table : HashMap Address TokenInfo) (total : ℕ) (xs : List (Address × ℕ))
    → IsPriced table
    → total ≤ u256_max
    → Explains table total xs (try_fold table total xs)
unfolding try_fold value
try_fold-Explains table total [] p h = (0, refl, omega arith, h)
try_fold-Explains table total ((a, n) ∷ rest) p h = elim (Option-cases (get a table)) [
  | inl e ↦ rw (try_sum_unknown table a n total e) (e, rw e)
  | inr (i, e) ↦
      rw (try_sum_known table a n total i e (p a i e))
        (elim (Bool-cases (leb (total + n * unit i) u256_max)) [
          | inl fits ↦ rw fits (
              Explains-cons table a n total rest i (try_fold table (total + n * unit i) rest) e
                (try_fold-Explains table (total + n * unit i) rest p (ground arith)))
          | inr over ↦
              rw over (λ w known.
                let (w', eq, sum) = value-cons table a n rest i w e known in ground arith)
        ])
]
