-- ===== src/Filler/Chunks.antt =====
-- `chunk_orders` of src/filler_task/mod.rs, for any type of orders.
use mathlib.Core.List.{append-nil}
unfoldable pub use mathlib.Core.List.{flatten}
use signet_filler.Prelude.{
  ℕ, zero, suc, ◌+◌, ◌*◌, ◌≤◌, ◌<◌, ◌≡◌, ◌≢◌, ap, Option, none, some, List, [], ◌∷◌, ltb,
  if◌then◌else◌, length, take, drop, take-append-drop, length-take, length-drop, length-append,
  length_pos, arith, Bool-cases, inl, inr,
}

module _ {ℓ} {A : Type ℓ} where
  -- The loop `while orders.len() > cap`, on fuel.
  unfoldable pub split_loop : ℕ → ℕ → List A → List (List A)
  split_loop zero limit orders = orders ∷ []
  split_loop (suc fuel) limit orders =
      let rest = split_loop fuel limit (drop limit orders) in
      if ltb limit (length orders) then take limit orders ∷ rest else orders ∷ []

  -- Each round removes at least one order, so their number is enough fuel.
  unfoldable pub chunk_orders : List A → Option ℕ → List (List A)
  unfolding split_loop
  chunk_orders orders none = orders ∷ []
  chunk_orders orders (some limit) = split_loop (length orders) limit orders

  split_loop-flatten :
      (fuel limit : ℕ) (orders : List A) → flatten (split_loop fuel limit orders) ≡ orders
  unfolding split_loop flatten
  split_loop-flatten zero limit orders = append-nil orders
  split_loop-flatten (suc fuel) limit orders = elim (Bool-cases (ltb limit (length orders))) [
    | inl more ↦
        rw (more, split_loop-flatten fuel limit (drop limit orders)) (take-append-drop limit orders)
    | inr last ↦ rw last (append-nil orders)
  ]

  -- Every chunk but the last has `limit` entries, and the last has at least one and at most `limit`.
  abbrev pub AreChunks : ℕ → List (List A) → Type 0
  AreChunks limit [] = ⊥
  AreChunks limit (c ∷ []) = (0 < length c) × (length c ≤ limit)
  AreChunks limit (c ∷ d ∷ cs) = (length c ≡ limit) × AreChunks limit (d ∷ cs)

  AreChunks-cons :
      (limit : ℕ) (c : List A) (cs : List (List A))
      → length c ≡ limit
      → AreChunks limit cs
      → AreChunks limit (c ∷ cs)
  AreChunks-cons limit c [] e h = absurd h
  AreChunks-cons limit c (d ∷ cs) e h = (e, h)

  split_loop-AreChunks :
      (fuel limit : ℕ) (orders : List A)
      → 0 < limit
      → 0 < length orders
      → length orders ≤ fuel
      → AreChunks limit (split_loop fuel limit orders)
  unfolding split_loop
  split_loop-AreChunks zero limit orders c n h = absurd (omega arith)
  split_loop-AreChunks (suc fuel) limit orders c n h =
      elim (Bool-cases (ltb limit (length orders))) [
        | inl more ↦ rw more (
            AreChunks-cons limit (take limit orders) _ (ground (arith, length-take limit orders)) (
              split_loop-AreChunks fuel limit (drop limit orders) c
                (ground (arith, length-drop limit orders))
                (ground (arith, length-drop limit orders))))
        | inr last ↦ rw last (ground arith)
      ]

  -- The chunks, in order, hold exactly the orders, in order; for any limit.
  pub flatten-chunk_orders :
      (orders : List A) (limit : Option ℕ) → flatten (chunk_orders orders limit) ≡ orders
  unfolding chunk_orders flatten
  flatten-chunk_orders orders none = append-nil orders
  flatten-chunk_orders orders (some limit) = split_loop-flatten (length orders) limit orders

  -- With a positive limit and at least one order, every chunk but the last has exactly `limit`
  -- orders, and the last has at least one and at most `limit`.
  pub chunk_orders-AreChunks :
      (orders : List A) (limit : ℕ)
      → 0 < limit
      → orders ≢ []
      → AreChunks limit (chunk_orders orders (some limit))
  unfolding chunk_orders
  chunk_orders-AreChunks orders limit c n =
      split_loop-AreChunks (length orders) limit orders c (length_pos orders n) (omega arith)

  AreChunks-count :
      (limit : ℕ) (cs : List (List A))
      → AreChunks limit cs
      → (length (flatten cs) ≤ length cs * limit)
        × (length cs * limit < length (flatten cs) + limit)
  unfolding flatten
  AreChunks-count limit [] h = absurd h
  AreChunks-count limit (c ∷ []) h = omega (arith, length-append c [])
  AreChunks-count limit (c ∷ d ∷ cs) h =
      omega (arith, length-append c (flatten (d ∷ cs)), AreChunks-count limit (d ∷ cs) h.1)

  -- The number of chunks is the number of orders divided by the limit, rounded up: `limit` times it
  -- is at least the number of orders, and `limit` times one less is below it.
  pub length-chunk_orders :
      (orders : List A) (limit : ℕ)
      → 0 < limit
      → orders ≢ []
      → let chunks = chunk_orders orders (some limit) in
        (length orders ≤ length chunks * limit) × (length chunks * limit < length orders + limit)
  length-chunk_orders orders limit c n = omega (
    arith,
    ap (λ (xs : List A). length xs) (flatten-chunk_orders orders (some limit)),
    AreChunks-count limit (chunk_orders orders (some limit))
        (chunk_orders-AreChunks orders limit c n),
  )
