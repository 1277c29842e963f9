-- ===== src/Tests/Repository.antt =====
-- The unit tests of the repository, run on the model: each test is a definition into Bool, and next to it
-- stands that it is true. They use the sample chain constants.
mod Pricing
mod Unpriced
mod Budgets
mod Selection
mod Chunks
mod Cache
use signet_filler.Prelude.{ℕ, zero, suc, Bool, true, false, ◌&&◌, List, [], ◌∷◌, ◌==◌}
use signet_filler.Order.{TokenPermissions, Output, SignedOrder}

abbrev zeros : ℕ → List ℕ
zeros zero = []
zeros (suc n) = 0 ∷ zeros n

-- `SignedOrder::new` with a batch of deadline 0, the zero address as its owner, and a signature of zeros.
abbrev pub new_order : List TokenPermissions → ℕ → List Output → SignedOrder
new_order permitted nonce outputs = record {
  permitted = permitted;
  nonce = nonce;
  deadline = 0;
  owner = 0;
  signature = zeros 65;
  outputs = outputs;
}

abbrev pub are_equal : List ℕ → List ℕ → Bool
are_equal [] [] = true
are_equal (x ∷ xs) (y ∷ ys) = (x == y) && are_equal xs ys
are_equal _ _ = false
