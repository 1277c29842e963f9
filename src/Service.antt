-- ===== src/Service.antt =====
-- How the service runs and stops: the supervision of its tasks in src/service.rs and in
-- src/filler_task/mod.rs, the signals of src/lib.rs, and bin/filler.rs.
pub mod System
pub mod Shutdown
pub mod Stopping
pub mod Main
pub mod Exit
use Prim.Native.String.{String}
use signet_filler.Prelude.{ℕ, Bool, true, false, List, [], ◌∷◌}
use signet_filler.Prelude.Result.{Result, ok, err, ◌>>=◌}

-- What the program reads of a `tokio::task::JoinError`.
pub data JoinError : Type 0 where
  panicked aborted : JoinError

-- A status and a body.
pub record Response : Type 0 where
  pub status : ℕ
  pub body : String

unfoldable pub return_404 : Response
return_404 = record { status = 404; body = "not found" }

unfoldable pub return_200 : Response
return_200 = record { status = 200; body = "ok" }

-- The router: the handlers of GET requests by path, and that of all other paths.
pub record Router : Type 0 where
  pub get_routes : List (String × Response)
  pub fallback : Response

unfoldable pub router : Router
unfolding return_200 return_404
router = record { get_routes = ("/healthcheck", return_200) ∷ []; fallback = return_404 }

-- The errors of `do_serve_healthcheck`.
pub data ServerError : Type 0 where
  failed_to_bind : ℕ → ServerError
  failed_serving : ServerError

-- The body of the spawned server: the listener of the port, then what serving ends with.
unfoldable pub do_serve_healthcheck :
    ℕ → Result (Unit {0}) (Unit {0}) → Result (Unit {0}) (Unit {0}) → Result ServerError (Unit {0})
do_serve_healthcheck port (err e) served = err (failed_to_bind port)
do_serve_healthcheck port (ok listener) (err e) = err failed_serving
do_serve_healthcheck port (ok listener) (ok t) = ok t

-- The errors of the two supervised tasks.
pub data ServiceError : Type 0 where
  filler_exited filler_panicked filler_aborted : ServiceError
  server_exited server_panicked server_aborted : ServiceError
  server_failed : ServerError → ServiceError

-- What joining the two tasks gives.
abbrev pub FillerJoin : Type 0
FillerJoin = Result JoinError (Unit {0})

abbrev pub ServerJoin : Type 0
ServerJoin = Result JoinError (Result ServerError (Unit {0}))

-- The last `match` of `FillerTask::run`.
unfoldable pub blame_filler : FillerJoin → ServiceError
blame_filler (ok t) = filler_exited
blame_filler (err panicked) = filler_panicked
blame_filler (err aborted) = filler_aborted

-- The last `match` of `serve_healthcheck`.
unfoldable pub blame_server : ServerJoin → ServiceError
blame_server (ok (ok t)) = server_exited
blame_server (ok (err error)) = server_failed error
blame_server (err panicked) = server_panicked
blame_server (err aborted) = server_aborted

-- How far the supervisor of a task is: the task runs, it has been joined, the token was found not
-- cancelled, or the supervisor has returned.
pub data Phase (R : Type 0) : Type 0 where
  running : Phase R
  joined failing : R → Phase R
  done : Result ServiceError (Unit {0}) → Phase R

-- `if cancellation_token.is_cancelled() { return Ok(()) }`
unfoldable pub check : {R : Type 0} → Bool → R → Phase R
check true result = done (ok tt)
check false result = failing result

-- The end of `main`: `filler_result?; server_result`.
unfoldable pub join_results :
    Result ServiceError (Unit {0}) → Result ServiceError (Unit {0}) → Result ServiceError (Unit {0})
join_results filler_result server_result = do t ← filler_result; server_result
