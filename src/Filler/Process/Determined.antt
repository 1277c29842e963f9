-- ===== src/Filler/Process/Determined.antt =====
-- The specification of a cycle of src/filler_task/mod.rs leaves nothing open: it has one outcome.
use mathlib.Core.Option.{some-injective}
use signet_filler.Prelude.{
  ℕ, ◌≡◌, ◌↔◌, refl, sym, ◌∙◌, ap, not-none-some, Option, true, some, List, ◌∷◌,
}
use signet_filler.Prelude.Eq.{nat_eq}
use signet_filler.Prelude.Int.{ℤ}
use signet_filler.Order.{SignedOrder}
use signet_filler.Filler.{Crates, FillerTask, FillerState, Cycle}
use signet_filler.Filler.Fetch.Ranking.{IsDescending-unique}
use signet_filler.Filler.Select.Choice.{Budgets, Greedy, stop, drop_filled, take_it, drop_costly}
use signet_filler.Filler.Submit.{Submission}
use signet_filler.Filler.Submit.Trace.{Follows, finished, went_on, stopped}
use signet_filler.Filler.Process.{process_orders}
use signet_filler.Filler.Process.Outcome.{
  IsRanking, Submits, nothing, in_chunks, Outcome, stream_failed, ran, process_orders-Outcome,
}
use signet_filler.Filler.Process.Realistic.{IsRealisticRpc}

IsRanking-unique :
    (found xs ys : List (ℤ × SignedOrder)) → IsRanking found xs → IsRanking found ys → xs ≡ ys
IsRanking-unique found xs ys r q =
    IsDescending-unique xs ys r.descending q.descending (λ m. r.stable m ∙ sym (q.stable m))

module _ {C : Type 0} {crates : Crates C} {filled : List ℕ} {budgets : Budgets} where
  Greedy-unique :
      {taken : List SignedOrder} {scored : List (ℤ × SignedOrder)} {out out' : List SignedOrder}
      → Greedy crates filled budgets taken scored out
      → Greedy crates filled budgets taken scored out'
      → out ≡ out'
  Greedy-unique (stop taken) (stop _) = refl
  Greedy-unique (drop_filled m o f g) (drop_filled _ _ f' g') = Greedy-unique g g'
  Greedy-unique (drop_filled m o f g) (take_it _ _ f' a' g') = absurd (cc (f, f'))
  Greedy-unique (drop_filled m o f g) (drop_costly _ _ f' a' g') = absurd (cc (f, f'))
  Greedy-unique (take_it m o f a g) (drop_filled _ _ f' g') = absurd (cc (f, f'))
  Greedy-unique (take_it m o f a g) (take_it _ _ f' a' g') = ap (λ os. o ∷ os) (Greedy-unique g g')
  Greedy-unique (take_it m o f a g) (drop_costly _ _ f' a' g') = absurd (a' a)
  Greedy-unique (drop_costly m o f a g) (drop_filled _ _ f' g') = absurd (cc (f, f'))
  Greedy-unique (drop_costly m o f a g) (take_it _ _ f' a' g') = absurd (a a')
  Greedy-unique (drop_costly m o f a g) (drop_costly _ _ f' a' g') = Greedy-unique g g'

module _ {task : FillerTask} {cycle : Cycle} where
  Follows-unique :
      {index : ℕ} {chunks : List (List SignedOrder)} {sent sent' : List Submission}
      → Follows task cycle index chunks sent
      → Follows task cycle index chunks sent'
      → sent ≡ sent'
  Follows-unique (finished index) (finished _) = refl
  Follows-unique (went_on index chunk ids e f) (went_on _ _ ids' e' f') =
      ap (λ later. record { orders = chunk; succeeded = true } ∷ later) (Follows-unique f f')
  Follows-unique (went_on index chunk ids e f) (stopped _ _ _ e') = absurd (cc (e, e'))
  Follows-unique (stopped index chunk rest e) (went_on _ _ ids e' f') = absurd (cc (e, e'))
  Follows-unique (stopped index chunk rest e) (stopped _ _ _ e') = refl

  Submits-unique :
      {orders : List SignedOrder} {sent sent' : List Submission}
      → Submits task cycle orders sent
      → Submits task cycle orders sent'
      → sent ≡ sent'
  Submits-unique nothing nothing = refl
  Submits-unique nothing (in_chunks _ ne f) = absurd (ne refl)
  Submits-unique (in_chunks orders ne f) nothing = absurd (ne refl)
  Submits-unique (in_chunks orders ne f) (in_chunks _ ne' f') = Follows-unique f f'

module _ {C : Type 0} {crates : Crates C} {task : FillerTask} {cycle : Cycle} {filled : C} where
  pub Outcome-unique :
      {sent sent' : Option (List Submission)} {next next' : C}
      → Outcome crates task cycle filled sent next
      → Outcome crates task cycle filled sent' next'
      → (sent ≡ sent') × (next ≡ next')
  Outcome-unique (stream_failed e) (stream_failed e') = (refl, refl)
  Outcome-unique (stream_failed e) (ran found' ranked' e' r' g' s') =
      absurd (not-none-some (sym e ∙ e'))
  Outcome-unique (ran found ranked e r g s) (stream_failed e') = absurd (not-none-some (sym e' ∙ e))
  Outcome-unique (ran found ranked e r g s) (ran found' ranked' e' r' g' s') =
      let same : found' ≡ found = some-injective _ _ (sym e' ∙ e) in
      let order : ranked' ≡ ranked = IsRanking-unique found ranked' ranked (rw same at r') r in
      let chosen = Greedy-unique g (rw order at g') in
      (ap some (Submits-unique s (rw (← chosen) at s')), rw order refl)

-- If the chains report balances below the largest number and cached allowances fit 256 bits, then what a
-- cycle returns and leaves in the cache of filled orders is the one outcome that its specification
-- allows: the error if the stream of orders has one, and else the calls, chunk by chunk up to the first
-- failure, for the greedy choice by margin within the budgets among the orders that are in time, not
-- known or reported as filled, and accepted in price, with the reported hashes put into the cache.
pub process_orders_iff :
    {C : Type 0} (crates : Crates C) (task : FillerTask) (cycle : Cycle) (s : FillerState C)
    (sent : Option (List Submission)) (next : C)
    → IsRealisticRpc cycle.balances cycle.cached
    → Outcome crates task cycle s.filled_orders sent next ↔ (
        ((process_orders crates task cycle s).0 ≡ sent)
        × ((process_orders crates task cycle s).1.filled_orders ≡ next))
process_orders_iff crates task cycle s sent next real =
    let reached = process_orders-Outcome crates task cycle s real in
    (λ o. Outcome-unique reached o, λ e. rw (← e.0, ← e.1) reached)
