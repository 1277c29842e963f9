-- ===== src/Metrics/Labels.antt =====
-- The labels of the counters in src/metrics.rs tell the counters of one name apart.
use Prim.Native.String.{String}
use mathlib.Core.Option.{some-injective}
use text.Mathlib.Text.{◌==◌ as str_eq}
use signet_filler.Prelude.{
  ◌≡◌, refl, ap, sym, ◌∙◌, Option, none, some, List, [], ◌∷◌, if◌then◌else◌,
}
use signet_filler.Metrics.{
  OrderSkippedReason, already_filled, expired, exceeds_max_loss, unknown_token,
  insufficient_filler_balance, SubmissionResult, success, failure, ConnectionTarget, host_provider,
  rollup_provider, tx_cache, PreflightQuery, balance, allowance, reason_label, result_label,
  target_label, query_label,
}

-- The first entry with the label.
find_label {ℓ} : {A : Type ℓ} → (A → String) → List A → String → Option A
find_label label [] text = none
find_label label (a ∷ rest) text =
    if str_eq (label a) text then some a else find_label label rest text

-- If each value is found again by its label, no two have the same.
injective-find {ℓ} :
    {A : Type ℓ} (label : A → String) (all : List A)
    → ((a : A) → find_label label all (label a) ≡ some a)
    → (a b : A) → label a ≡ label b
    → a ≡ b
injective-find label all found a b e =
    some-injective _ _ (sym (found a) ∙ ap (find_label label all) e ∙ found b)

abbrev reasons : List OrderSkippedReason
reasons =
    already_filled ∷ expired ∷ exceeds_max_loss ∷ unknown_token ∷ insufficient_filler_balance ∷ []

reason-found : (r : OrderSkippedReason) → find_label reason_label reasons (reason_label r) ≡ some r
unfolding find_label reason_label
reason-found already_filled = refl
reason-found expired = refl
reason-found exceeds_max_loss = refl
reason-found unknown_token = refl
reason-found insufficient_filler_balance = refl

abbrev results : List SubmissionResult
results = success ∷ failure ∷ []

result-found : (r : SubmissionResult) → find_label result_label results (result_label r) ≡ some r
unfolding find_label result_label
result-found success = refl
result-found failure = refl

abbrev targets : List ConnectionTarget
targets = host_provider ∷ rollup_provider ∷ tx_cache ∷ []

target-found : (t : ConnectionTarget) → find_label target_label targets (target_label t) ≡ some t
unfolding find_label target_label
target-found host_provider = refl
target-found rollup_provider = refl
target-found tx_cache = refl

abbrev queries : List PreflightQuery
queries = balance ∷ allowance ∷ []

query-found : (q : PreflightQuery) → find_label query_label queries (query_label q) ≡ some q
unfolding find_label query_label
query-found balance = refl
query-found allowance = refl

-- Different reasons, results, targets and queries have different labels.
pub labels-injective :
    ((a b : OrderSkippedReason) → reason_label a ≡ reason_label b → a ≡ b)
    × ((a b : SubmissionResult) → result_label a ≡ result_label b → a ≡ b)
    × ((a b : ConnectionTarget) → target_label a ≡ target_label b → a ≡ b)
    × ((a b : PreflightQuery) → query_label a ≡ query_label b → a ≡ b)
labels-injective = (
  injective-find reason_label reasons reason-found,
  injective-find result_label results result-found,
  injective-find target_label targets target-found,
  injective-find query_label queries query-found,
)
