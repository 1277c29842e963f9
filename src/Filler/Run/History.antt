-- ===== src/Filler/Run/History.antt =====
-- What the loop of src/filler_task/mod.rs is to do over many cycles: its specification, with a cache of
-- filled orders that keeps every hash.
use signet_filler.Prelude.{
  ◌↔◌, ap, sym, ◌∙◌, ℕ, ◌≤◌, ◌<◌, ◌+◌, ◌≡◌, refl, true, false, Option, some, List, [], ◌∷◌, ltb,
  arith, All, Bool-cases, inl, inr,
}
use signet_filler.Filler.{Crates, FillerTask, FillerState}
use signet_filler.Filler.Submit.{Submission}
use signet_filler.Filler.Process.Determined.{Outcome-unique}
use signet_filler.Filler.Process.Outcome.{Outcome, process_orders-Outcome}
use signet_filler.Filler.Process.Realistic.{IsRealisticRpc}
use signet_filler.Filler.Run.{Wake, staleness_threshold, with_uptime, tick, run_loop}
use signet_filler.Filler.Run.Bounded.{run_loop-ideal}
use signet_filler.Filler.Run.Ideal.{IdealCache, ideal}
use signet_filler.Filler.Run.Memory.{LruLaws, total_orders}

-- The wake-ups, one after the other, from one cache of filled orders to another: a late one does
-- nothing, a timely one has the outcome of a cycle, and the first that finds the token cancelled ends
-- the loop.
pub data History {C : Type 0} (crates : Crates C) (task : FillerTask)
    : C → List Wake → List (Option (List Submission)) → C → Type 0 where
  ended : (filled : C) → History crates task filled [] [] filled
  cancelled :
      (filled : C) (w : Wake) (ws : List Wake)
      → w.is_cancelled ≡ true
      → History crates task filled (w ∷ ws) [] filled
  missed :
      (w : Wake) {filled end : C} {ws : List Wake} {later : List (Option (List Submission))}
      → w.is_cancelled ≡ false
      → staleness_threshold task < w.staleness
      → History crates task filled ws later end
      → History crates task filled (w ∷ ws) (some [] ∷ later) end
  worked :
      (w : Wake) {filled next end : C} {sent : Option (List Submission)} {ws : List Wake}
      {later : List (Option (List Submission))}
      → w.is_cancelled ≡ false
      → w.staleness ≤ staleness_threshold task
      → Outcome crates task w.cycle filled sent next
      → History crates task next ws later end
      → History crates task filled (w ∷ ws) (sent ∷ later) end

-- In every cycle, balances are below the largest number and cached allowances fit 256 bits.
abbrev pub AreRealistic : List Wake → Type 0
AreRealistic ws = All (λ w. IsRealisticRpc w.cycle.balances w.cycle.cached) ws

run_loop-History_of_cache :
    {C : Type 0} (crates : Crates C) (task : FillerTask) (ws : List Wake) (s : FillerState C)
    → AreRealistic ws
    → let r = run_loop crates task ws s in
      History crates task s.filled_orders ws r.0 r.1.filled_orders
unfolding run_loop tick
run_loop-History_of_cache crates task [] s real = ended s.filled_orders
run_loop-History_of_cache crates task (w ∷ ws) s real =
    let now = with_uptime w s in
    let later = run_loop-History_of_cache crates task ws (tick crates task w now).1 real.1 in
    elim (Bool-cases w.is_cancelled) [
      | inl stop ↦ simp stop (cancelled s.filled_orders w ws stop)
      | inr live ↦ elim (Bool-cases (ltb (staleness_threshold task) w.staleness)) [
        | inl late ↦ simp (live, late) (missed w live (ground arith) (rw late at later))
        | inr timely ↦
            simp (live, timely)
              (worked w live (ground arith) (process_orders-Outcome crates task w.cycle now real.0)
                (rw timely at later))
      ]
    ]

-- Nothing is open: two histories of the same wake-ups are the same.
History-unique :
    {C : Type 0} {crates : Crates C} {task : FillerTask} {filled end end' : C} {ws : List Wake}
    {out out' : List (Option (List Submission))}
    → History crates task filled ws out end
    → History crates task filled ws out' end'
    → (out ≡ out') × (end ≡ end')
History-unique (ended filled) (ended _) = (refl, refl)
History-unique (cancelled filled w ws c) (cancelled _ _ _ c') = (refl, refl)
History-unique (cancelled filled w ws c) (missed _ l' s' h') = absurd (cc (c, l'))
History-unique (cancelled filled w ws c) (worked _ l' s' o' h') = absurd (cc (c, l'))
History-unique (missed w l s h) (cancelled _ _ _ c') = absurd (cc (l, c'))
History-unique (missed w l s h) (missed _ l' s' h') =
    let (same, end_same) = History-unique h h' in (ap (λ out. some [] ∷ out) same, end_same)
History-unique (missed w l s h) (worked _ l' s' o' h') = absurd (omega arith)
History-unique (worked w l s o h) (cancelled _ _ _ c') = absurd (cc (l, c'))
History-unique (worked w l s o h) (missed _ l' s' h') = absurd (omega arith)
History-unique (worked w {sent = sent} l s o h) (worked _ {later = later'} l' s' o' h') =
    let (same_sent, same_next) = Outcome-unique o o' in
    let (same, end_same) = History-unique h (rw (← same_next) at h') in
    (ap (λ out. sent ∷ out) same ∙ ap (λ x. x ∷ later') same_sent, end_same)

-- The history from the hashes in the cache of a state, with a cache that keeps every hash.
abbrev pub IdealHistory :
    {C : Type 0}
    → Crates C
    → FillerTask
    → FillerState C
    → List Wake
    → List (Option (List Submission))
    → IdealCache
    → Type 0
IdealHistory crates task s = History (ideal crates) task (crates.lru_contains s.filled_orders)

-- As long as the cache of filled orders has room for all the orders of the wake-ups, the submissions of
-- the loop are exactly those that its specification allows with a cache that keeps every hash, and the
-- cache ends with the same hashes: each timely wake-up before the cancellation has the outcome of a
-- cycle, which leaves out the orders that an earlier cycle found filled, and each late one does nothing.
-- The conditions are what the documentation of `lru` says, and balances and cached allowances in range.
pub run_loop_iff :
    {C : Type 0} (crates : Crates C) (size : C → ℕ) (capacity : ℕ) (task : FillerTask)
    (ws : List Wake) (s : FillerState C) (out : List (Option (List Submission)))
    → LruLaws crates size capacity
    → size s.filled_orders + total_orders ws ≤ capacity
    → AreRealistic ws
    → let r = run_loop crates task ws s in
      ((known : IdealCache) × IdealHistory crates task s ws out known
        × ((h : ℕ) → crates.lru_contains r.1.filled_orders h ≡ known h))
      ↔ (out ≡ r.0)
run_loop_iff crates size capacity task ws s out laws room real =
    let t : FillerState IdealCache = record {
      filled_orders = crates.lru_contains s.filled_orders;
      metrics = s.metrics;
    } in
    let (same, agree) =
      run_loop-ideal crates size capacity laws task ws s t room
        (record { hashes = λ h. refl; metrics = refl }) in
    let history = run_loop-History_of_cache (ideal crates) task ws t real in
    (
      λ other. (History-unique other.1 history).0 ∙ sym same,
      λ e.
          ((run_loop (ideal crates) task ws t).1.filled_orders, rw (e, same) history, agree.hashes),
    )
