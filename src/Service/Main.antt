-- ===== src/Service/Main.antt =====
-- bin/filler.rs: `main`, and what its result says of the run of the tasks.
use Prim.Native.String.{String}
use text.Mathlib.Text.{◌==◌}
use signet_filler.Prelude.{
  ℕ, ◌≡◌, refl, Bool, true, false, ◌||◌, ◌∙◌, ◌⊎◌, List, [], ◌∷◌, inl, inr, arith,
}
use signet_filler.Prelude.Result.{Result, ok, err}
use signet_filler.Service.{ServiceError, Phase, done, join_results}
use signet_filler.Service.System.{Signal, System, start, Steps}
use signet_filler.Service.Shutdown.{
  is_error, IsSound, reachable-IsSound, IsGraceful, shutdown-IsGraceful,
}

-- `should_print_help`; `lower` is `to_ascii_lowercase`.
unfoldable pub should_print_help : (String → String) → List String → Bool
should_print_help lower [] = false
should_print_help lower (arg ∷ args) =
    (lower arg == "-h") || (lower arg == "--help") || should_print_help lower args

-- The errors of `main`; `E` is that of the configuration and `I` that of the initialization.
pub data MainError (E I : Type 0) : Type 0 where
  config_failed : E → MainError E I
  signals_failed : Signal → MainError E I
  initialization_failed : I → MainError E I
  service_failed : ServiceError → MainError E I

abbrev pub service_result :
    {E I : Type 0} → Result ServiceError (Unit {0}) → Result (MainError E I) (Unit {0})
service_result (ok t) = ok t
service_result (err e) = err (service_failed e)

-- The match on the context: with the token cancelled, a failed initialization is no error. The last
-- argument is what `join!` gives.
unfoldable pub with_context :
    {E I K : Type 0}
    → Result I K
    → Bool
    → (K → Result ServiceError (Unit {0}) × Result ServiceError (Unit {0}))
    → Result (MainError E I) (Unit {0})
unfolding join_results
with_context (ok context) is_cancelled join =
    let (filler_result, server_result) = join context in
    service_result (join_results filler_result server_result)
with_context (err e) true join = ok tt
with_context (err e) false join = err (initialization_failed e)

-- `signals` is the outcome of `handle_signals`.
unfoldable pub run_main :
    {E I A K : Type 0}
    → Bool
    → Result E A
    → Result Signal (Unit {0})
    → (A → Result I K)
    → Bool
    → (K → Result ServiceError (Unit {0}) × Result ServiceError (Unit {0}))
    → Result (MainError E I) (Unit {0})
unfolding with_context join_results
run_main true config signals initialize is_cancelled join = ok tt
run_main false (err e) signals initialize is_cancelled join = err (config_failed e)
run_main false (ok config) (err e) initialize is_cancelled join = err (signals_failed e)
run_main false (ok config) (ok token) initialize is_cancelled join =
    with_context (initialize config) is_cancelled join

results-ok :
    {E I : Type 0} (f g : Result ServiceError (Unit {0}))
    → Path (Result (MainError E I) (Unit {0})) (service_result (join_results f g)) (ok tt)
    → (f ≡ ok tt) × (g ≡ ok tt)
unfolding join_results
results-ok (ok t) (ok u) h = (refl, refl)
results-ok (ok t) (err e) h = cc
results-ok (err e) g h = cc

results-cases :
    {E I : Type 0} (f g : Result ServiceError (Unit {0}))
    → Path (Result (MainError E I) (Unit {0})) (service_result (join_results f g)) (ok tt)
      ⊎ ((e : ServiceError) × Path
            (Result (MainError E I) (Unit {0}))
            (service_result (join_results f g))
            (err (service_failed e)))
unfolding join_results
results-cases (ok t) (ok u) = inl refl
results-cases (ok t) (err e) = inr (e, refl)
results-cases (err e) g = inr (e, refl)

result-fine : {R : Type 0} (p : Phase R) (f : _) → is_error p ≡ false → p ≡ done f → f ≡ ok tt
result-fine p (ok t) h e = refl
result-fine p (err error) h e = grind arith

module _ {E I A K : Type 0} (config : A) (context : K) (initialize : A → Result I K)
    (initialized : initialize config ≡ ok context) (b : Bool)
    (f g : Result ServiceError (Unit {0})) where
  -- What `main` returns when the two supervisors end with these results.
  abbrev pub exit : Result (MainError E I) (Unit {0})
  exit = run_main false (ok config) (ok tt) initialize b (λ (c : K). (f, g))

  exit-results : exit ≡ service_result {E = E} {I = I} (join_results f g)
  unfolding run_main with_context
  exit-results = rw initialized refl

  -- What a sound state says of the exit: a signal was received, or `main` returns an error.
  pub sound_exit :
      (s : System)
      → IsSound s
      → s.is_signalled ≡ false
      → s.filler ≡ done f
      → s.server ≡ done g
      → (e : ServiceError) × (exit ≡ err (service_failed e))
  sound_exit s sound quiet d d' = elim (results-cases {E = E} {I = I} f g) [
    | inl fine ↦
        let (fine, fine') = results-ok f g fine in
        elim (sound.has_cause (sound.filler_done (rw d refl))) [
          | inl came ↦ absurd (cc (came, quiet))
          | inr (inl bad) ↦ absurd (grind arith)
          | inr (inr bad) ↦ absurd (grind arith)
        ]
    | inr (e, h) ↦ (e, exit-results ∙ h)
  ]

  -- If `main` has run its tasks to the end and returns no error, a signal was received.
  pub exit-IsSignalled :
      (n : ℕ) (s : System)
      → Steps n (start b) s
      → s.filler ≡ done f
      → s.server ≡ done g
      → exit ≡ ok tt
      → s.is_signalled ≡ true
  unfolding run_main
  exit-IsSignalled n s steps e e' h =
      let sound = reachable-IsSound b n s steps in
      let h' : service_result {E = E} {I = I} (join_results f g) ≡ ok tt = rw initialized at h in
      let (fine, fine') = results-ok f g h' in
      elim (sound.has_cause (sound.filler_done (rw e refl))) [
        | inl came ↦ came
        | inr (inl bad) ↦ absurd (grind arith)
        | inr (inr bad) ↦ absurd (grind arith)
      ]

  -- If the token is cancelled before a supervisor finds it not cancelled, `main` returns no error,
  -- however the tasks end.
  pub exit-IsGraceful :
      (n : ℕ) (s t : System)
      → Steps n s t
      → IsGraceful s
      → t.filler ≡ done f
      → t.server ≡ done g
      → exit ≡ ok tt
  unfolding run_main join_results
  exit-IsGraceful n s t steps graceful e e' =
      let (fine, fine') = shutdown-IsGraceful steps graceful in
      rw (initialized, result-fine t.filler f fine e, result-fine t.server g fine' e') refl
