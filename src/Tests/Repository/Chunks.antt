-- ===== src/Tests/Repository/Chunks.antt =====
-- The unit tests of src/filler_task/mod.rs about `chunk_orders`.
use signet_filler.Prelude.{
  ℕ, zero, suc, ◌+◌, ◌≡◌, refl, Bool, true, false, ◌&&◌, Option, none, some, List, [], ◌∷◌, map,
}
use signet_filler.Order.{SignedOrder}
use signet_filler.Filler.Chunks.{chunk_orders, split_loop}
use signet_filler.Tests.Repository.{new_order, are_equal}

abbrev build_order : ℕ → SignedOrder
build_order id = new_order (record { token = 0; amount = 1 } ∷ []) id []

-- `(first..first + count)`
abbrev range : ℕ → ℕ → List ℕ
range first zero = []
range first (suc count) = first ∷ range (first + 1) count

abbrev distinguishable_orders : ℕ → List SignedOrder
distinguishable_orders count = map build_order (range 0 count)

abbrev ids : List SignedOrder → List ℕ
ids orders = map (λ o. o.nonce) orders

-- The ids in each chunk.
abbrev chunk_ids : ℕ → Option ℕ → List (List ℕ)
chunk_ids count limit = map ids (chunk_orders (distinguishable_orders count) limit)

abbrev are_chunks : List (List ℕ) → List (List ℕ) → Bool
are_chunks [] [] = true
are_chunks (x ∷ xs) (y ∷ ys) = are_equal x y && are_chunks xs ys
are_chunks _ _ = false

abbrev chunk_orders_returns_single_chunk_when_cap_unset : Bool
chunk_orders_returns_single_chunk_when_cap_unset = are_chunks (chunk_ids 12 none) (range 0 12 ∷ [])

abbrev chunk_orders_returns_single_chunk_when_within_cap : Bool
chunk_orders_returns_single_chunk_when_within_cap =
    are_chunks (chunk_ids 3 (some 5)) (range 0 3 ∷ [])

abbrev chunk_orders_splits_into_equal_chunks_and_preserves_order : Bool
chunk_orders_splits_into_equal_chunks_and_preserves_order =
    are_chunks (chunk_ids 10 (some 5)) (range 0 5 ∷ range 5 5 ∷ [])

abbrev chunk_orders_leaves_short_final_chunk_for_uneven_split : Bool
chunk_orders_leaves_short_final_chunk_for_uneven_split =
    are_chunks (chunk_ids 7 (some 3)) ((0 ∷ 1 ∷ 2 ∷ []) ∷ (3 ∷ 4 ∷ 5 ∷ []) ∷ (6 ∷ []) ∷ [])

abbrev chunk_orders_returns_single_chunk_when_count_equals_cap : Bool
chunk_orders_returns_single_chunk_when_count_equals_cap =
    are_chunks (chunk_ids 5 (some 5)) (range 0 5 ∷ [])

abbrev chunk_orders_cap_of_one_gives_one_order_per_chunk : Bool
chunk_orders_cap_of_one_gives_one_order_per_chunk =
    are_chunks (chunk_ids 3 (some 1)) ((0 ∷ []) ∷ (1 ∷ []) ∷ (2 ∷ []) ∷ [])

chunk_tests_pass :
    (chunk_orders_returns_single_chunk_when_cap_unset ≡ true)
    × (chunk_orders_returns_single_chunk_when_within_cap ≡ true)
    × (chunk_orders_splits_into_equal_chunks_and_preserves_order ≡ true)
    × (chunk_orders_leaves_short_final_chunk_for_uneven_split ≡ true)
    × (chunk_orders_returns_single_chunk_when_count_equals_cap ≡ true)
    × (chunk_orders_cap_of_one_gives_one_order_per_chunk ≡ true)
unfolding chunk_orders split_loop
chunk_tests_pass = (refl, refl, refl, refl, refl, refl)
