-- ===== src/Filler/Fetch/Sorting.antt =====
-- The order of the candidates of `fetch_and_score_orders` in src/filler_task/mod.rs.
use mathlib.Core.List.{Perm}
use mathlib.Core.List.Perm
use signet_filler.Prelude.{
  ◌≡◌, refl, Bool, ◌&&◌, List, [], ◌∷◌, ◌==◌, if◌then◌else◌, arith, Bool-cases, inl, inr,
}
use signet_filler.Prelude.Int.{ℤ, ◌≤ℤ◌, pos_part, neg_part, ltb_ℤ}
use signet_filler.Order.{SignedOrder}
use signet_filler.Filler.Fetch.{insert_entry, sort_entries}

-- The largest margin first.
abbrev pub IsDescending : List (ℤ × SignedOrder) → Type 0
IsDescending [] = Unit
IsDescending (x ∷ []) = Unit
IsDescending (x ∷ y ∷ rest) = (y.0 ≤ℤ x.0) × IsDescending (y ∷ rest)

abbrev pub eqb_ℤ : ℤ → ℤ → Bool
eqb_ℤ a b = (pos_part a == pos_part b) && (neg_part a == neg_part b)

-- The entries of one margin, in the order of the list.
abbrev pub with_margin : ℤ → List (ℤ × SignedOrder) → List (ℤ × SignedOrder)
with_margin m [] = []
with_margin m (x ∷ rest) = if eqb_ℤ x.0 m then x ∷ with_margin m rest else with_margin m rest

insert_entry-IsDescending :
    (e : ℤ × SignedOrder) (xs : List (ℤ × SignedOrder))
    → IsDescending xs
    → IsDescending (insert_entry e xs)
unfolding insert_entry
insert_entry-IsDescending e [] d = tt
insert_entry-IsDescending e (x ∷ []) d = ground arith
insert_entry-IsDescending e (x ∷ y ∷ rest) d =
    ground (arith, insert_entry-IsDescending e (y ∷ rest) d.1)

insert_entry-with_margin :
    (m : ℤ) (e : ℤ × SignedOrder) (xs : List (ℤ × SignedOrder))
    → with_margin m (insert_entry e xs) ≡ with_margin m (e ∷ xs)
unfolding insert_entry
insert_entry-with_margin m e [] = refl
insert_entry-with_margin m e (x ∷ rest) = ground (arith, insert_entry-with_margin m e rest)

-- The candidates come out with the largest margin first.
pub sort_entries-IsDescending : (xs : List (ℤ × SignedOrder)) → IsDescending (sort_entries xs)
unfolding sort_entries
sort_entries-IsDescending [] = tt
sort_entries-IsDescending (x ∷ rest) =
    insert_entry-IsDescending x (sort_entries rest) (sort_entries-IsDescending rest)

-- Sorting keeps, for each margin, the entries of that margin in their order (it is stable).
pub sort_entries-with_margin :
    (m : ℤ) (xs : List (ℤ × SignedOrder)) → with_margin m (sort_entries xs) ≡ with_margin m xs
unfolding sort_entries
sort_entries-with_margin m [] = refl
sort_entries-with_margin m (x ∷ rest) =
    rw (insert_entry-with_margin m x (sort_entries rest), sort_entries-with_margin m rest)

insert_entry-perm :
    (e : ℤ × SignedOrder) (xs : List (ℤ × SignedOrder)) → Perm (insert_entry e xs) (e ∷ xs)
unfolding insert_entry
insert_entry-perm e [] = Perm.refl _
insert_entry-perm e (x ∷ rest) = elim (Bool-cases (ltb_ℤ e.0 x.0)) [
  | inl before ↦
      rw before (Perm.trans (Perm.cons x (insert_entry-perm e rest)) (Perm.swap e x rest))
  | inr after ↦ rw after (Perm.refl _)
]

-- Sorting neither loses nor adds nor repeats a candidate.
pub sort_entries-perm : (xs : List (ℤ × SignedOrder)) → Perm (sort_entries xs) xs
unfolding sort_entries
sort_entries-perm [] = Perm.refl _
sort_entries-perm (x ∷ rest) =
    Perm.trans (insert_entry-perm x (sort_entries rest)) (Perm.cons x (sort_entries-perm rest))
