-- ===== src/Allowance/Refresh.antt =====
-- What a refresh of src/allowance.rs does to the cache, the error counter and the startup summary.
use signet_filler.Prelude.{
  ℕ, ◌+◌, ◌<◌, ◌≡◌, refl, ap, sym, ◌∙◌, Option, none, some, List, [], ◌∷◌, map, length, arith,
  if◌then◌else◌, Option-cases, Bool-cases, inl, inr,
}
use signet_filler.Prelude.Eq.{◌=?◌, contains}
use signet_filler.Prelude.HashMap.{
  HashMap, get, insert, extend, or_else, get-insert, get-extend, extend-HasUniqueKeys,
}
use signet_filler.Tokens.{ChainTokenPair, pair_eq, pair_eqb_iff}
use signet_filler.Report.{Reports, summary-Reports}
use signet_filler.Metrics.{Metrics, allowance, record_preflight_query_error}
use signet_filler.Allowance.{
  AllowanceCache, get_cached, update, AllowanceRefreshTask, Allowances, query, successes,
  query_and_cache, record_errors, refresh, AllowanceQueryResult, startup_refresh,
}

-- The answer of the chains for one token.
abbrev pub answer : AllowanceRefreshTask → Allowances → ChainTokenPair → Option ℕ
answer task rpc key = (query task rpc key).outcome

abbrev pub is_error : Option ℕ → ℕ
is_error none = 1
is_error (some n) = 0

-- How many of the tokens get an error.
unfoldable pub failed : AllowanceRefreshTask → Allowances → List ChainTokenPair → ℕ
failed task rpc [] = 0
failed task rpc (t ∷ ts) = is_error (answer task rpc t) + failed task rpc ts

get-successes :
    (task : AllowanceRefreshTask) (rpc : Allowances) (key : ChainTokenPair)
    (tokens : List ChainTokenPair) (m : HashMap ChainTokenPair ℕ)
    → get key (extend m (successes (map (query task rpc) tokens)))
      ≡ (if contains key tokens then or_else (answer task rpc key) (get key m) else get key m)
unfolding successes extend query
get-successes task rpc key [] m = refl
get-successes task rpc key (t ∷ ts) m = elim (Option-cases (answer task rpc t)) [
  | inl e ↦ rw e (elim (Bool-cases (t =? key)) [
    | inl same ↦ rw same (
        ground (
          arith,
          sym (ap (answer task rpc) ((pair_eqb_iff t key).0 same)) ∙ e,
          get-successes task rpc key ts m,
        ))
    | inr other ↦ rw other (get-successes task rpc key ts m)
  ])
  | inr (n, e) ↦ rw e (elim (Bool-cases (t =? key)) [
    | inl same ↦ rw same (
        ground (
          arith,
          sym (ap (answer task rpc) ((pair_eqb_iff t key).0 same)) ∙ e,
          get-insert t key n m,
          get-successes task rpc key ts (insert t n m),
        ))
    | inr other ↦
        rw other
          (ground (arith, get-insert t key n m, get-successes task rpc key ts (insert t n m)))
  ])
]

-- A refresh writes the answer for a token that it asks about, keeps the old allowance of one whose
-- query fails, and leaves every other entry as it is.
pub refresh_lem :
    (task : AllowanceRefreshTask) (rpc : Allowances) (cache : AllowanceCache) (m : Metrics)
    (key : ChainTokenPair)
    → let old = get_cached cache key in
      get_cached (refresh task rpc cache m).0 key
      ≡ (if contains key task.tokens then or_else (answer task rpc key) old else old)
unfolding refresh query_and_cache update get_cached get
refresh_lem task rpc cache m key =
    let entries = successes (map (query task rpc) task.tokens) in
    ground (
      arith,
      get-extend key cache.inner (extend [] entries) (extend-HasUniqueKeys [] entries tt),
      get-successes task rpc key task.tokens [],
    )

record_errors-counts :
    (task : AllowanceRefreshTask) (rpc : Allowances) (tokens : List ChainTokenPair) (m : Metrics)
    → (record_errors (map (query task rpc) tokens) m).preflight_allowance_errors
      ≡ m.preflight_allowance_errors + failed task rpc tokens
unfolding record_errors failed record_preflight_query_error
record_errors-counts task rpc [] m = omega arith
record_errors-counts task rpc (t ∷ ts) m = elim (Option-cases (answer task rpc t)) [
  | inl e ↦
      rw e
        (omega (arith, record_errors-counts task rpc ts (record_preflight_query_error allowance m)))
  | inr (n, e) ↦ rw e (omega (arith, record_errors-counts task rpc ts m))
]

-- Every failed query of a refresh is counted once, as a preflight error of an allowance.
pub refresh-counts :
    (task : AllowanceRefreshTask) (rpc : Allowances) (cache : AllowanceCache) (m : Metrics)
    → (refresh task rpc cache m).1.preflight_allowance_errors
      ≡ m.preflight_allowance_errors + failed task rpc task.tokens
unfolding refresh query_and_cache
refresh-counts task rpc cache m = record_errors-counts task rpc task.tokens m

outcomes-results :
    (task : AllowanceRefreshTask) (rpc : Allowances) (tokens : List ChainTokenPair)
    → map {A = AllowanceQueryResult} (λ r. r.outcome) (map (query task rpc) tokens)
      ≡ map (answer task rpc) tokens
outcomes-results task rpc [] = refl
outcomes-results task rpc (t ∷ ts) = rw (outcomes-results task rpc ts)

length-map {ℓ κ} :
    {A : Type ℓ} {B : Type κ} (f : A → B) (xs : List A) → length (map f xs) ≡ length xs
length-map f [] = refl
length-map f (x ∷ xs) = omega (arith, length-map f xs)

-- With at least one token, the startup refresh reports that all queries failed exactly when all
-- failed, and that no allowance was found exactly when some query succeeded and every allowance that
-- was read is zero.
pub startup_refresh-summary :
    (task : AllowanceRefreshTask) (rpc : Allowances) (cache : AllowanceCache) (m : Metrics)
    → 0 < length task.tokens
    → Reports (map (answer task rpc) task.tokens) (startup_refresh task rpc cache m).2
unfolding startup_refresh query_and_cache
startup_refresh-summary task rpc cache m h =
    let answers = map (answer task rpc) task.tokens in
    rw
      (
        outcomes-results task rpc task.tokens,
        length-map (query task rpc) task.tokens,
        ← length-map (answer task rpc) task.tokens,
      )
      (summary-Reports answers (rw (length-map (answer task rpc) task.tokens) h))
