-- ===== src/Tests/Shutdown.antt =====
-- The theorems on the shutdown of the service at sample runs of its tasks.
use signet_filler.Prelude.{ℕ, ◌≤◌, ◌≡◌, refl, true, false}
use signet_filler.Prelude.Result.{Result, ok, err}
use signet_filler.Service.{
  ServiceError, panicked, blame_filler, running, joined, done, check, failed_serving, join_results,
  filler_panicked,
}
use signet_filler.Service.System.{
  System, start, interrupt, handle_signal, signal, filler_joins, filler_checks, filler_cancels,
  server_joins, server_checks, server_cancels, allowance_stops, Steps, stay, then,
}
use signet_filler.Service.Shutdown.{
  is_error, IsSound, reachable-IsSound, IsGraceful, shutdown-IsGraceful, is_stopped,
}
use signet_filler.Service.Stopping.{is_own, Runs, halt, next, IsAtRest, shutdown-terminates}
use signet_filler.Service.Exit.{stop_succeeds}
use signet_filler.Service.Main.{
  MainError, run_main, with_context, exit, exit-IsSignalled, exit-IsGraceful,
}

-- The filler task has panicked and its supervisor returns the error; the others still run.
abbrev crashed : System
crashed = record {
  is_cancelled = true;
  is_signalled = false;
  filler = done (err filler_panicked);
  allowance_stopped = false;
  server = running;
}

crash : Steps 3 (start false) crashed
unfolding start check blame_filler
crash = then (filler_joins _ (err panicked) refl (λ h. cc)) (
    then (filler_checks _ (err panicked) refl)
      (then (filler_cancels _ (err panicked) refl) (stay _)))

reachable-IsSound_example : IsSound crashed
reachable-IsSound_example = reachable-IsSound false 3 crashed crash

-- The filler task has panicked, and its supervisor has yet to look at the token.
abbrev panicking : System
panicking = record {
  is_cancelled = false;
  is_signalled = false;
  filler = joined (err panicked);
  allowance_stopped = false;
  server = running;
}

panic : Steps 1 (start false) panicking
unfolding start
panic = then (filler_joins _ (err panicked) refl (λ h. cc)) (stay _)

-- All tasks have stopped after the panic.
abbrev ended : System
ended = record {
  is_cancelled = true;
  is_signalled = false;
  filler = done (err filler_panicked);
  allowance_stopped = true;
  server = done (ok tt);
}

ending : Runs 5 panicking ended
unfolding check blame_filler is_own
ending = next (filler_checks _ (err panicked) refl) refl (
    next (filler_cancels _ (err panicked) refl) refl (
      next (server_joins _ (ok (ok tt)) refl) refl (
        next (allowance_stops _ refl refl) refl
          (next (server_checks _ (ok (ok tt)) refl) refl (halt _)))))

ended-IsAtRest : IsAtRest ended
unfolding is_own
ended-IsAtRest t (signal s which e) = refl
ended-IsAtRest t (filler_joins s r e g) = absurd (cc e)
ended-IsAtRest t (filler_checks s r e) = absurd (cc e)
ended-IsAtRest t (filler_cancels s r e) = absurd (cc e)
ended-IsAtRest t (allowance_stops s e c) = absurd (cc e)
ended-IsAtRest t (server_joins s r e) = absurd (cc e)
ended-IsAtRest t (server_checks s r e) = absurd (cc e)
ended-IsAtRest t (server_cancels s r e) = absurd (cc e)

shutdown-terminates_example : (5 ≤ 8) × (is_stopped ended ≡ true)
shutdown-terminates_example =
    shutdown-terminates false 1 panicking panic refl 5 ended ending ended-IsAtRest

-- An interrupt has come while the tasks run.
abbrev interrupted : System
interrupted = record {
  is_cancelled = true;
  is_signalled = true;
  filler = running;
  allowance_stopped = false;
  server = running;
}

graceful : IsGraceful interrupted
graceful = record { is_stopping = refl; filler_fine = refl; server_fine = refl }

-- All tasks have stopped, the server's with an error that came after the cancellation.
abbrev stopped : System
stopped = record {
  is_cancelled = true;
  is_signalled = true;
  filler = done (ok tt);
  allowance_stopped = true;
  server = done (ok tt);
}

stop : Steps 5 interrupted stopped
unfolding check
stop = then (server_joins _ (ok (err failed_serving)) refl) (
    then (filler_joins _ (ok tt) refl (λ h. refl)) (
      then (server_checks _ (ok (err failed_serving)) refl)
        (then (filler_checks _ (ok tt) refl) (then (allowance_stops _ refl refl) (stay _)))))

run : Steps 6 (start false) stopped
unfolding start handle_signal
run = then (signal _ interrupt refl) stop

shutdown-IsGraceful_example : (is_error stopped.filler ≡ false) × (is_error stopped.server ≡ false)
shutdown-IsGraceful_example = shutdown-IsGraceful stop graceful

-- An initialization that succeeds.
abbrev initialized : ℕ → Result ℕ ℕ
initialized = λ config. ok 1

exits :
    Path
      (Result (MainError ℕ ℕ) (Unit {0}))
      (exit 0 1 initialized refl false (ok tt) (ok tt))
      (ok tt)
unfolding run_main with_context join_results
exits = refl

exit-IsSignalled_example : stopped.is_signalled ≡ true
exit-IsSignalled_example =
    exit-IsSignalled {E = ℕ} 0 1 initialized refl false (ok tt) (ok tt) 6 stopped run refl refl
      exits

exit-IsGraceful_example :
    Path
      (Result (MainError ℕ ℕ) (Unit {0}))
      (exit 0 1 initialized refl false (ok tt) (ok tt))
      (ok tt)
exit-IsGraceful_example =
    exit-IsGraceful {E = ℕ} 0 1 initialized refl false (ok tt) (ok tt) 5 interrupted stopped stop
      graceful refl refl

-- The steps of the code after the interrupt.
stopping : Runs 5 interrupted stopped
unfolding check is_own
stopping = next (server_joins _ (ok (ok tt)) refl) refl (
    next (filler_joins _ (ok tt) refl (λ h. refl)) refl (
      next (server_checks _ (ok (ok tt)) refl) refl (
        next (filler_checks _ (ok tt) refl) refl
          (next (allowance_stops _ refl refl) refl (halt _)))))

stopped-IsAtRest : IsAtRest stopped
unfolding is_own
stopped-IsAtRest t (signal s which e) = refl
stopped-IsAtRest t (filler_joins s r e g) = absurd (cc e)
stopped-IsAtRest t (filler_checks s r e) = absurd (cc e)
stopped-IsAtRest t (filler_cancels s r e) = absurd (cc e)
stopped-IsAtRest t (allowance_stops s e c) = absurd (cc e)
stopped-IsAtRest t (server_joins s r e) = absurd (cc e)
stopped-IsAtRest t (server_checks s r e) = absurd (cc e)
stopped-IsAtRest t (server_cancels s r e) = absurd (cc e)

interruption : Steps 1 (start false) interrupted
unfolding start handle_signal
interruption = then (signal _ interrupt refl) (stay _)

stop_succeeds_example :
    (5 ≤ 8)
    × (f : Result ServiceError (Unit {0})) × (g : Result ServiceError (Unit {0})) × (stopped.filler
        ≡ done f)
    × (stopped.server ≡ done g)
    × Path (Result (MainError ℕ ℕ) (Unit {0})) (exit 0 1 initialized refl false f g) (ok tt)
stop_succeeds_example =
    stop_succeeds {E = ℕ} 0 1 initialized refl false 1 interrupted interruption graceful 5 stopped
      stopping stopped-IsAtRest
