-- ===== src/Prelude/HashMap.antt =====
-- `HashMap` as an association list. No program output depends on the order of the entries.
use mathlib.Core.Path.{◌≡◌, refl, subst}
use mathlib.Core.Logic.{◌↔◌, ◌≢◌, inl, inr}
use mathlib.Core.Bool.{Bool, true, ◌&&◌}
use mathlib.Core.List.{List, [], ◌∷◌, map}
use mathlib.Core.Option
use mathlib.Core.Option.{Option, none, some, some-injective}
use native.Mathlib.Omega.{arith}
use signet_filler.Prelude.Tests.{if◌then◌else◌, Bool-cases}
use signet_filler.Prelude.Lists.{All}
use signet_filler.Prelude.Eq.{Eq, ◌=?◌, contains}

abbrev pub HashMap {ℓ κ} : Type ℓ → Type κ → Type (ℓ ⊔ κ)
HashMap K V = List (K × V)

-- `Option::or`
abbrev pub or_else {ℓ} : {A : Type ℓ} → Option A → Option A → Option A
or_else none b = b
or_else (some a) b = some a

module _ {ℓ κ} {K : Type ℓ} {V : Type κ} ⦃e : Eq K⦄ where
  unfoldable pub get : K → HashMap K V → Option V
  get k [] = none
  get k ((j, v) ∷ m) = if j =? k then some v else get k m

  unfoldable pub insert : K → V → HashMap K V → HashMap K V
  insert k v [] = (k, v) ∷ []
  insert k v ((j, w) ∷ m) = if j =? k then (k, v) ∷ m else (j, w) ∷ insert k v m

  -- `if let Some(v) = map.get_mut(k) { *v = f(v) }`
  unfoldable pub modify : K → (V → V) → HashMap K V → HashMap K V
  modify k f [] = []
  modify k f ((j, w) ∷ m) = if j =? k then (j, f w) ∷ m else (j, w) ∷ modify k f m

  -- `map.extend(entries)`: a later entry of a key wins.
  unfoldable pub extend : HashMap K V → List (K × V) → HashMap K V
  extend m [] = m
  extend m ((k, v) ∷ rest) = extend (insert k v m) rest

  -- `map.iter().all(p)`
  unfoldable pub all : (K → V → Bool) → HashMap K V → Bool
  all p [] = true
  all p ((k, v) ∷ m) = p k v && all p m

  -- No key has two entries.
  abbrev pub HasUniqueKeys : HashMap K V → Type κ
  HasUniqueKeys [] = Unit
  HasUniqueKeys ((k, v) ∷ m) = (get k m ≡ none) × HasUniqueKeys m

  pub get-insert :
      (k j : K) (v : V) (m : HashMap K V)
      → get j (insert k v m) ≡ (if k =? j then some v else get j m)
  unfolding get insert
  get-insert k j v [] = refl
  get-insert k j v ((i, w) ∷ m) =
      ground (arith, e.eqb_iff k j, e.eqb_iff i k, e.eqb_iff i j, get-insert k j v m)

  pub get-modify :
      (k j : K) (f : V → V) (m : HashMap K V)
      → get j (modify k f m) ≡ (if k =? j then Option.map f (get j m) else get j m)
  unfolding get modify
  get-modify k j f [] = ground arith
  get-modify k j f ((i, w) ∷ m) =
      ground (arith, e.eqb_iff k j, e.eqb_iff i k, e.eqb_iff i j, get-modify k j f m)

  pub insert-HasUniqueKeys :
      (k : K) (v : V) (m : HashMap K V) → HasUniqueKeys m → HasUniqueKeys (insert k v m)
  unfolding get insert
  insert-HasUniqueKeys k v [] u = (refl, tt)
  insert-HasUniqueKeys k v ((j, w) ∷ m) u =
      ground
        (arith, e.eqb_iff j k, e.eqb_iff k j, get-insert k j v m, insert-HasUniqueKeys k v m u.1)

  -- A test of all entries is a test of what each key is mapped to.
  pub all_iff :
      (p : K → V → Bool) (m : HashMap K V)
      → HasUniqueKeys m
      → (all p m ≡ true) ↔ ((k : K) (v : V) → get k m ≡ some v → p k v ≡ true)
  unfolding get all
  all_iff p [] u = ((λ h k v q. ground arith), (λ h. refl))
  all_iff p ((j, w) ∷ m) u = (
    λ h k v q. ground (
      arith,
      e.eqb_iff j k,
      λ (a : all p m ≡ true) (b : get k m ≡ some v). (all_iff p m u.1).0 a k v b,
    ),
    λ h. ground (
      arith,
      e.eqb_iff j j,
      h j w,
      (all_iff p m u.1).1 (λ k v q. h k v (ground (arith, e.eqb_iff j k))),
    ),
  )

  -- A property of every value is kept by a write of a value that has it.
  pub insert-holds {μ} :
      (P : V → Type μ) (k : K) (v : V) (m : HashMap K V)
      → P v
      → ((j : K) (w : V) → get j m ≡ some w → P w)
      → (j : K) (w : V) → get j (insert k v m) ≡ some w
      → P w
  insert-holds P k v m pv h j w q = elim (Bool-cases (k =? j)) [
    | inl same ↦ subst P (some-injective _ _ (rw (get-insert, same) at q)) pv
    | inr other ↦ h j w (rw (get-insert, other) at q)
  ]

  pub extend-holds {μ} :
      (P : V → Type μ) (m : HashMap K V) (entries : List (K × V))
      → ((j : K) (w : V) → get j m ≡ some w → P w)
      → All (λ e. P e.1) entries
      → (j : K) (w : V) → get j (extend m entries) ≡ some w
      → P w
  unfolding extend
  extend-holds P m [] h a = h
  extend-holds P m ((k, v) ∷ rest) h a =
      extend-holds P (insert k v m) rest (insert-holds P k v m a.0 h) a.1

  -- `extend` does not lose a key.
  pub extend-keeps :
      (j : K) (m : HashMap K V) (entries : List (K × V))
      → get j m ≢ none
      → get j (extend m entries) ≢ none
  unfolding extend
  extend-keeps j m [] h = h
  extend-keeps j m ((k, v) ∷ rest) h =
      extend-keeps j (insert k v m) rest (ground (arith, get-insert k j v m))

  -- Every key among the entries has a value after `extend`.
  pub extend-adds :
      (j : K) (m : HashMap K V) (entries : List (K × V))
      → contains j (map (λ e. e.0) entries) ≡ true
      → get j (extend m entries) ≢ none
  unfolding extend
  extend-adds j m [] h = cc
  extend-adds j m ((k, v) ∷ rest) h = elim (Bool-cases (k =? j)) [
    | inl same ↦ extend-keeps j (insert k v m) rest (rw (get-insert, same) (λ e. cc))
    | inr other ↦ extend-adds j (insert k v m) rest (rw other at h)
  ]

  pub extend-HasUniqueKeys :
      (m : HashMap K V) (entries : List (K × V))
      → HasUniqueKeys m
      → HasUniqueKeys (extend m entries)
  unfolding extend
  extend-HasUniqueKeys m [] u = u
  extend-HasUniqueKeys m ((k, v) ∷ rest) u =
      extend-HasUniqueKeys (insert k v m) rest (insert-HasUniqueKeys k v m u)

  -- Extending by a map: its entries come before the old ones.
  pub get-extend :
      (j : K) (m entries : HashMap K V)
      → HasUniqueKeys entries
      → get j (extend m entries) ≡ or_else (get j entries) (get j m)
  unfolding get extend
  get-extend j m [] u = refl
  get-extend j m ((k, v) ∷ rest) u =
      ground (arith, e.eqb_iff k j, get-insert k j v m, get-extend j (insert k v m) rest u.1)
