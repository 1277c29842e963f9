-- ===== src/Service/Exit.antt =====
-- What `main` of bin/filler.rs returns when the tasks of the service have stopped, by themselves or after
-- a signal.
use signet_filler.Prelude.{ℕ, ◌≤◌, ◌≡◌, refl, inl, inr, Bool, true, arith}
use signet_filler.Prelude.Result.{Result, ok}
use signet_filler.Service.{ServiceError, Phase, running, joined, failing, done}
use signet_filler.Service.System.{System, start, Steps, stay, then}
use signet_filler.Service.Shutdown.{is_done, reachable-IsSound, IsGraceful}
use signet_filler.Service.Stopping.{Runs, halt, next, IsAtRest, is_triggered, shutdown-terminates}
use signet_filler.Service.Main.{exit, exit-IsGraceful}

is_done-result :
    {R : Type 0} (p : Phase R)
    → is_done p ≡ true
    → (f : Result ServiceError (Unit {0})) × (p ≡ done f)
is_done-result (done f) h = (f, refl)
is_done-result running h = absurd (cc h)
is_done-result (joined r) h = absurd (cc h)
is_done-result (failing r) h = absurd (cc h)

Runs-Steps : {k : ℕ} {s t : System} → Runs k s t → Steps k s t
Runs-Steps (halt s) = stay s
Runs-Steps (next step own runs) = then step (Runs-Steps runs)

IsGraceful-triggered :
    (b : Bool) (n : ℕ) (s : System) → Steps n (start b) s → IsGraceful s → is_triggered s ≡ true
IsGraceful-triggered b n s steps graceful =
    elim ((reachable-IsSound b n s steps).has_cause graceful.is_stopping) [
      | inl came ↦ rw came refl
      | inr (inl bad) ↦ absurd (grind (arith, graceful.filler_fine))
      | inr (inr bad) ↦ absurd (grind (arith, graceful.server_fine))
    ]

-- If the token is cancelled before a supervisor has found it not cancelled, then, when the code makes no
-- more steps by itself, which is after at most eight, both supervisors have returned and `main` returns
-- no error.
pub stop_succeeds :
    {E I A K : Type 0} (config : A) (context : K) (initialize : A → Result I K)
    (initialized : initialize config ≡ ok context) (b : Bool) (n : ℕ) (s : System)
    → Steps n (start b) s
    → IsGraceful s
    → (k : ℕ) (t : System) → Runs k s t
    → IsAtRest t
    → (k ≤ 8)
      × (f : Result ServiceError (Unit {0})) × (g : Result ServiceError (Unit {0})) × (t.filler
          ≡ done f)
      × (t.server ≡ done g)
      × (exit {E = E} config context initialize initialized b f g ≡ ok tt)
stop_succeeds config context initialize initialized b n s steps graceful k t runs rests =
    let h = IsGraceful-triggered b n s steps graceful in
    let (few, stopped) = shutdown-terminates b n s steps h k t runs rests in
    let (f, d) = is_done-result t.filler (grind arith) in
    let (g, d') = is_done-result t.server (grind arith) in
    (
      few,
      f,
      g,
      d,
      d',
      exit-IsGraceful config context initialize initialized b f g k s t (Runs-Steps runs) graceful d
          d',
    )
