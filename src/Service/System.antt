-- ===== src/Service/System.antt =====
-- The tasks of the service as they run side by side, with the cancellation token that they share: the
-- task of `handle_signals` (src/lib.rs), `FillerTask::run` (src/filler_task/mod.rs), the loop of
-- `AllowanceRefreshTask::run` (src/allowance.rs), and `serve_healthcheck` (src/service.rs).
use signet_filler.Prelude.{ℕ, ◌+◌, ◌≡◌, Bool, true, false, if◌then◌else◌}
use signet_filler.Prelude.Result.{Result, ok, err}
use signet_filler.Service.{
  FillerJoin, ServerJoin, blame_filler, blame_server, Phase, running, joined, failing, done, check,
}

pub data Signal : Type 0 where
  interrupt terminate : Signal

-- `handle_signals` up to its task: whether the handler of each signal can be registered.
unfoldable pub handle_signals : (Signal → Bool) → Result Signal (Unit {0})
handle_signals registers =
    if registers interrupt
    then (if registers terminate then ok tt else err terminate)
    else err interrupt

-- `is_signalled` says that the task of `handle_signals` has received its signal.
pub record System : Type 0 where
  pub is_cancelled : Bool
  pub is_signalled : Bool
  pub filler : Phase FillerJoin
  pub allowance_stopped : Bool
  pub server : Phase ServerJoin

-- The tasks when `main` joins them; the signal may have come before.
unfoldable pub start : Bool → System
start b = record {
  is_cancelled = b;
  is_signalled = b;
  filler = running;
  allowance_stopped = false;
  server = running;
}

-- Either signal cancels the token.
unfoldable pub handle_signal : Signal → System → System
handle_signal which s = record s { is_cancelled = true; is_signalled = true }

-- One step of one task. The loop of the filler task ends by itself only when it finds the token
-- cancelled, and so does that of the allowance task. The filler task may panic or be aborted at any
-- time, and the server may end with any result at any time: the relation has every run that can come
-- about, and Service/Stopping tells which of the steps the code takes by itself.
pub data Step : System → System → Type 0 where
  signal : (s : System) (which : Signal) → s.is_signalled ≡ false → Step s (handle_signal which s)
  filler_joins :
      (s : System) (r : FillerJoin)
      → s.filler ≡ running
      → (r ≡ ok tt → s.is_cancelled ≡ true)
      → Step s (record s { filler = joined r })
  filler_checks :
      (s : System) (r : FillerJoin)
      → s.filler ≡ joined r
      → Step s (record s { filler = check s.is_cancelled r })
  filler_cancels :
      (s : System) (r : FillerJoin)
      → s.filler ≡ failing r
      → Step s (record s { is_cancelled = true; filler = done (err (blame_filler r)) })
  allowance_stops :
      (s : System)
      → s.allowance_stopped ≡ false
      → s.is_cancelled ≡ true
      → Step s (record s { allowance_stopped = true })
  server_joins :
      (s : System) (r : ServerJoin) → s.server ≡ running → Step s (record s { server = joined r })
  server_checks :
      (s : System) (r : ServerJoin)
      → s.server ≡ joined r
      → Step s (record s { server = check s.is_cancelled r })
  server_cancels :
      (s : System) (r : ServerJoin)
      → s.server ≡ failing r
      → Step s (record s { is_cancelled = true; server = done (err (blame_server r)) })

-- So many steps, one after the other.
pub data Steps : ℕ → System → System → Type 0 where
  stay : (s : System) → Steps 0 s s
  then : {n : ℕ} {s t u : System} → Step s t → Steps n t u → Steps (n + 1) s u
