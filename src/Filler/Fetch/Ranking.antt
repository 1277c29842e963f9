-- ===== src/Filler/Fetch/Ranking.antt =====
-- The order of the candidates of `fetch_and_score_orders` in src/filler_task/mod.rs is the only one that
-- puts the largest margin first and is stable.
use signet_filler.Prelude.{
  ◌≡◌, ◌↔◌, refl, sym, ◌∙◌, ap, true, List, [], ◌∷◌, arith, Bool-cases, inl, inr,
}
use signet_filler.Prelude.Int.{ℤ, pos, negsuc, ◌≤ℤ◌}
use signet_filler.Order.{SignedOrder}
use signet_filler.Filler.Fetch.Sorting.{IsDescending, with_margin, eqb_ℤ}

eqb_ℤ_iff : (a b : ℤ) → (eqb_ℤ a b ≡ true) ↔ (a ≡ b)
eqb_ℤ_iff (pos m) (pos n) = grind arith
eqb_ℤ_iff (pos m) (negsuc n) = grind arith
eqb_ℤ_iff (negsuc m) (pos n) = grind arith
eqb_ℤ_iff (negsuc m) (negsuc n) = grind arith

≤ℤ_antisymm : (a b : ℤ) → a ≤ℤ b → b ≤ℤ a → a ≡ b
≤ℤ_antisymm (pos m) (pos n) h k = ap pos (omega arith)
≤ℤ_antisymm (pos m) (negsuc n) h k = absurd (omega arith)
≤ℤ_antisymm (negsuc m) (pos n) h k = absurd (omega arith)
≤ℤ_antisymm (negsuc m) (negsuc n) h k = ap negsuc (omega arith)

-- Where the largest margin comes first, no margin is above the first.
with_margin-le :
    (m : ℤ) (x e : ℤ × SignedOrder) (xs rest : List (ℤ × SignedOrder))
    → IsDescending (x ∷ xs)
    → with_margin m (x ∷ xs) ≡ e ∷ rest
    → m ≤ℤ x.0
with_margin-le m x e [] rest d h = elim (Bool-cases (eqb_ℤ x.0 m)) [
  | inl same ↦ rw ((eqb_ℤ_iff x.0 m).0 same) (omega arith)
  | inr other ↦ absurd (cc (rw other at h))
]
with_margin-le m x e (y ∷ ys) rest d h = elim (Bool-cases (eqb_ℤ x.0 m)) [
  | inl same ↦ rw ((eqb_ℤ_iff x.0 m).0 same) (omega arith)
  | inr other ↦ omega (arith, with_margin-le m y e ys rest d.1 (rw other at h), d.0)
]

with_margin-head :
    (x : ℤ × SignedOrder) (xs : List (ℤ × SignedOrder))
    → with_margin x.0 (x ∷ xs) ≡ x ∷ with_margin x.0 xs
with_margin-head x xs = rw ((eqb_ℤ_iff x.0 x.0).1 refl) refl

IsDescending-tail :
    (x : ℤ × SignedOrder) (xs : List (ℤ × SignedOrder)) → IsDescending (x ∷ xs) → IsDescending xs
IsDescending-tail x [] d = tt
IsDescending-tail x (y ∷ ys) d = d.1

tails_agree :
    (m : ℤ) (x : ℤ × SignedOrder) (xs ys : List (ℤ × SignedOrder))
    → with_margin m (x ∷ xs) ≡ with_margin m (x ∷ ys)
    → with_margin m xs ≡ with_margin m ys
tails_agree m x xs ys h = elim (Bool-cases (eqb_ℤ x.0 m)) [
  | inl same ↦ cc (rw same at h)
  | inr other ↦ rw other at h
]

-- Two lists in descending order with the same entries of each margin, in the same order, are the same.
pub IsDescending-unique :
    (xs ys : List (ℤ × SignedOrder))
    → IsDescending xs
    → IsDescending ys
    → ((m : ℤ) → with_margin m xs ≡ with_margin m ys)
    → xs ≡ ys
IsDescending-unique [] [] d e h = refl
IsDescending-unique [] (y ∷ ys) d e h = absurd (cc (h y.0, with_margin-head y ys))
IsDescending-unique (x ∷ xs) [] d e h = absurd (cc (h x.0, with_margin-head x xs))
IsDescending-unique (x ∷ xs) (y ∷ ys) d e h =
    let above =
      with_margin-le x.0 y x ys (with_margin x.0 xs) e (sym (h x.0) ∙ with_margin-head x xs) in
    let below = with_margin-le y.0 x y xs (with_margin y.0 ys) d (h y.0 ∙ with_margin-head y ys) in
    let same : x.0 ≡ y.0 = ≤ℤ_antisymm x.0 y.0 above below in
    let heads : x ≡ y = cc (h x.0, with_margin-head x xs, with_margin-head y ys, same) in
    let tails : (m : ℤ) → with_margin m xs ≡ with_margin m ys =
      λ m. tails_agree m x xs ys (rw (← heads) at (h m)) in
    cc
      (heads, IsDescending-unique xs ys (IsDescending-tail x xs d) (IsDescending-tail y ys e) tails)
