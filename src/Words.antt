-- ===== src/Words.antt =====
-- Machine integers as natural numbers with their ranges: the checked and saturating operations of
-- `alloy::primitives::U256`, of `u8` and of `i128` that the program calls.
use signet_filler.Prelude.{
  ℕ, ◌+◌, ◌-◌, ◌*◌, ◌^◌, ◌≤◌, ◌≡◌, Option, none, some, leb, if◌then◌else◌, min, arith,
}
use signet_filler.Prelude.Int.{ℤ, pos, negsuc, pos_part, neg_part, sub_ℕ}

-- `U256::MAX`
abbrev pub u256_max : ℕ
u256_max = 2 ^ 256 - 1

abbrev pub i128_max : ℕ
i128_max = 2 ^ 127 - 1

-- `U256::saturating_add`
abbrev pub saturating_add : ℕ → ℕ → ℕ
saturating_add a b = min (a + b) u256_max

-- `saturating_sub`
abbrev pub saturating_sub : ℕ → ℕ → ℕ
saturating_sub a b = a - b

-- A result of `U256` arithmetic, if it fits.
abbrev fit : ℕ → Option ℕ
fit n = if leb n u256_max then some n else none

unfoldable pub checked_add : ℕ → ℕ → Option ℕ
checked_add a b = fit (a + b)

unfoldable pub checked_mul : ℕ → ℕ → Option ℕ
checked_mul a b = fit (a * b)

unfoldable pub checked_pow : ℕ → ℕ → Option ℕ
checked_pow a n = fit (a ^ n)

-- `u8::checked_sub`
unfoldable pub checked_sub : ℕ → ℕ → Option ℕ
checked_sub a b = if leb b a then some (a - b) else none

-- `TryFrom<U256> for i128`
unfoldable pub to_i128 : ℕ → Option ℤ
to_i128 n = if leb n i128_max then some (pos n) else none

-- `a - b` in unbounded integers.
abbrev pub sub_ℤ : ℤ → ℤ → ℤ
sub_ℤ a b = sub_ℕ (pos_part a + neg_part b) (neg_part a + pos_part b)

-- The values of `i128`: from -2^127 to 2^127 - 1.
abbrev fit_i128 : ℤ → Option ℤ
fit_i128 (pos n) = if leb n i128_max then some (pos n) else none
fit_i128 (negsuc n) = if leb n i128_max then some (negsuc n) else none

-- `i128::checked_sub`
unfoldable pub checked_sub_i128 : ℤ → ℤ → Option ℤ
checked_sub_i128 a b = fit_i128 (sub_ℤ a b)

-- The difference of two amounts that each fit an `i128` fits it too.
pub checked_sub_i128-pos :
    (a b : ℕ) → a ≤ i128_max → b ≤ i128_max → checked_sub_i128 (pos a) (pos b) ≡ some (sub_ℕ a b)
unfolding checked_sub_i128
checked_sub_i128-pos a b ha hb = ground arith
