-- ===== src/Report.antt =====
-- The summary that src/allowance.rs and src/initialization.rs log at startup over a list of queries,
-- `none` for an RPC error.
use signet_filler.Prelude.{
  ℕ, zero, suc, ◌+◌, ◌<◌, ◌≡◌, ◌≢◌, ◌↔◌, ◌&&◌, Option, none, some, List, [], ◌∷◌, length, ltb, ◌==◌,
  if◌then◌else◌, arith,
}

pub record Counts : Type 0 where
  pub non_zero_count : ℕ
  pub error_count : ℕ

abbrev pub no_counts : Counts
no_counts = record { non_zero_count = 0; error_count = 0 }

abbrev pub count_outcome : Option ℕ → Counts → Counts
count_outcome none n = record n { error_count = n.error_count + 1 }
count_outcome (some a) n = if a == 0 then n else record n { non_zero_count = n.non_zero_count + 1 }

unfoldable pub count_outcomes : List (Option ℕ) → Counts → Counts
count_outcomes [] n = n
count_outcomes (r ∷ rest) n = count_outcomes rest (count_outcome r n)

pub data Summary : Type 0 where
  all_queries_failed none_non_zero no_warning : Summary

unfoldable pub summary : ℕ → Counts → Summary
summary total n =
    if ltb 0 total && (n.error_count == total)
    then all_queries_failed
    else if n.non_zero_count == 0
    then none_non_zero
    else no_warning

abbrev is_error : Option ℕ → ℕ
is_error none = 1
is_error (some n) = 0

abbrev is_non_zero : Option ℕ → ℕ
is_non_zero none = 0
is_non_zero (some zero) = 0
is_non_zero (some (suc n)) = 1

-- How many of the queries failed, and how many gave an amount that is not zero.
unfoldable pub failures : List (Option ℕ) → ℕ
failures [] = 0
failures (r ∷ rest) = is_error r + failures rest

unfoldable pub non_zeros : List (Option ℕ) → ℕ
non_zeros [] = 0
non_zeros (r ∷ rest) = is_non_zero r + non_zeros rest

count_outcomes_lem :
    (rs : List (Option ℕ)) (n : Counts)
    → ((count_outcomes rs n).error_count ≡ n.error_count + failures rs)
      × ((count_outcomes rs n).non_zero_count ≡ n.non_zero_count + non_zeros rs)
unfolding count_outcomes failures non_zeros
count_outcomes_lem [] n = omega arith
count_outcomes_lem (none ∷ rs) n = ground (arith, count_outcomes_lem rs (count_outcome none n))
count_outcomes_lem (some zero ∷ rs) n = ground (arith, count_outcomes_lem rs n)
count_outcomes_lem (some (suc a) ∷ rs) n =
    ground (arith, count_outcomes_lem rs (count_outcome (some (suc a)) n))

-- What a summary says of the queries.
abbrev pub Reports : List (Option ℕ) → Summary → Type 0
Reports rs seen =
    ((seen ≡ all_queries_failed) ↔ (failures rs ≡ length rs))
    × ((seen ≡ none_non_zero) ↔ ((failures rs ≢ length rs) × (non_zeros rs ≡ 0)))

pub summary-Reports :
    (rs : List (Option ℕ))
    → 0 < length rs
    → Reports rs (summary (length rs) (count_outcomes rs no_counts))
unfolding summary
summary-Reports rs h = ground (arith, count_outcomes_lem rs no_counts)
