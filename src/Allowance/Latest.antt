-- ===== src/Allowance/Latest.antt =====
-- What the cache of src/allowance.rs holds while the periodic loop runs.
use signet_filler.Prelude.{
  ℕ, ◌≡◌, refl, ap, ◌∙◌, Bool, true, false, Option, none, List, [], ◌∷◌, if◌then◌else◌, Bool-cases,
  inl, inr,
}
use signet_filler.Prelude.Eq.{contains}
use signet_filler.Prelude.HashMap.{get, or_else}
use signet_filler.Tokens.{Address, SystemConstants, ChainTokenPair, pair_eq}
use signet_filler.Metrics.{Metrics}
use signet_filler.Allowance.{
  AllowanceCache, new_cache, get_cached, AllowanceRefreshTask, new_task, refresh, warm_up, Wake,
  run,
}
use signet_filler.Allowance.Refresh.{answer, refresh_lem}

-- The answers of the chains for one token, at each tick before the cancellation.
unfoldable pub answers : AllowanceRefreshTask → ChainTokenPair → List Wake → List (Option ℕ)
answers task key [] = []
answers task key (w ∷ ws) =
    let later = answers task key ws in
    if w.is_cancelled then [] else answer task w.allowances key ∷ later

-- The last of the answers that is not an error, or the value from before.
unfoldable pub latest : List (Option ℕ) → Option ℕ → Option ℕ
latest [] old = old
latest (a ∷ rest) old = latest rest (or_else a old)

abbrev if_known : Bool → List (Option ℕ) → Option ℕ → Option ℕ
if_known true rs old = latest rs old
if_known false rs old = old

run_lem :
    (task : AllowanceRefreshTask) (key : ChainTokenPair) (ws : List Wake) (cache : AllowanceCache)
    (m : Metrics)
    → get_cached (run task ws cache m).0 key
      ≡ if_known (contains key task.tokens) (answers task key ws) (get_cached cache key)
unfolding run answers latest
run_lem task key [] cache m = elim (Bool-cases (contains key task.tokens)) [
  | inl e ↦ rw e refl
  | inr e ↦ rw e refl
]
run_lem task key (w ∷ ws) cache m = elim (Bool-cases w.is_cancelled) [
  | inl c ↦ elim (Bool-cases (contains key task.tokens)) [
    | inl e ↦ rw (c, e) refl
    | inr e ↦ rw (c, e) refl
  ]
  | inr c ↦
      let (cache', m') = refresh task w.allowances cache m in
      let later = run_lem task key ws cache' m' in
      let now = refresh_lem task w.allowances cache m key in
      elim (Bool-cases (contains key task.tokens)) [
        | inl e ↦ rw (c, e) ((rw e at later) ∙ ap (latest (answers task key ws)) (rw e at now))
        | inr e ↦ rw (c, e) ((rw e at later) ∙ (rw e at now))
      ]
]

warm_up_lem :
    (task : AllowanceRefreshTask) (key : ChainTokenPair) (w : Wake) (cache : AllowanceCache)
    (m : Metrics)
    → get_cached (warm_up task w.is_cancelled w.allowances cache m).0 key
      ≡ if_known (contains key task.tokens) (answers task key (w ∷ [])) (get_cached cache key)
unfolding warm_up answers latest refresh
warm_up_lem task key w cache m =
    let now = refresh_lem task w.allowances cache m key in
    elim (Bool-cases (contains key task.tokens)) [
      | inl e ↦ elim (Bool-cases w.is_cancelled) [
        | inl c ↦ rw (c, e) refl
        | inr c ↦ rw (c, e) (rw e at now)
      ]
      | inr e ↦ elim (Bool-cases w.is_cancelled) [
        | inl c ↦ rw (c, e) refl
        | inr c ↦ rw (c, e) (rw e at now)
      ]
    ]

-- The cache while the task runs, from its initialization on an empty cache: for a token that it asks
-- about it holds the last allowance that the chains answered, the one at the initialization included
-- unless it was cancelled, and nothing if every query failed; and nothing for any other token.
pub run-latest :
    (c : SystemConstants) (filler : Address) (first : Wake) (ws : List Wake) (m : Metrics)
    (key : ChainTokenPair)
    → let task = new_task c filler in
      let (cache, m') = warm_up task first.is_cancelled first.allowances new_cache m in
      get_cached (run task ws cache m').0 key ≡ (
        if contains key task.tokens
        then latest (answers task key ws) (latest (answers task key (first ∷ [])) none)
        else none)
unfolding get_cached get
run-latest c filler first ws m key =
    let task = new_task c filler in
    let (cache, m') = warm_up task first.is_cancelled first.allowances new_cache m in
    let later = run_lem task key ws cache m' in
    let now = warm_up_lem task key first new_cache m in
    elim (Bool-cases (contains key task.tokens)) [
      | inl e ↦ rw e ((rw e at later) ∙ ap (latest (answers task key ws)) (rw e at now))
      | inr e ↦ rw e ((rw e at later) ∙ (rw e at now))
    ]
