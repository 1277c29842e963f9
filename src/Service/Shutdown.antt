-- ===== src/Service/Shutdown.antt =====
-- How the service stops: the tasks of src/service.rs, src/filler_task/mod.rs, src/allowance.rs and
-- src/lib.rs, in every order of their steps.
use signet_filler.Prelude.{
  ℕ, ◌+◌, ◌≤◌, ◌≡◌, Bool, true, false, ◌⊎◌, inl, inr, ◌&&◌, arith, Bool-cases,
}
use signet_filler.Prelude.Result.{err}
use signet_filler.Service.{Phase, running, joined, failing, done, check}
use signet_filler.Service.System.{
  System, start, handle_signal, Step, signal, filler_joins, filler_checks, filler_cancels,
  allowance_stops, server_joins, server_checks, server_cancels, Steps, stay, then,
}

abbrev pub is_done : {R : Type 0} → Phase R → Bool
is_done (done result) = true
is_done phase = false

abbrev pub is_failing : {R : Type 0} → Phase R → Bool
is_failing (failing r) = true
is_failing (done (err e)) = true
is_failing phase = false

abbrev pub is_error : {R : Type 0} → Phase R → Bool
is_error (done (err e)) = true
is_error phase = false

-- What holds of the token: it is cancelled once a task has stopped or a signal has come, and if it is
-- cancelled, a signal has come or one of the two supervisors returns an error.
pub record IsSound (s : System) : Type 0 where
  pub filler_done : is_done s.filler ≡ true → s.is_cancelled ≡ true
  pub server_done : is_done s.server ≡ true → s.is_cancelled ≡ true
  pub allowance_done : s.allowance_stopped ≡ true → s.is_cancelled ≡ true
  pub signalled : s.is_signalled ≡ true → s.is_cancelled ≡ true
  pub has_cause :
      s.is_cancelled ≡ true
      → (s.is_signalled ≡ true) ⊎ (is_error s.filler ≡ true) ⊎ (is_error s.server ≡ true)

pub Step-IsSound : {s t : System} → Step s t → IsSound s → IsSound t
unfolding handle_signal check
Step-IsSound (signal s which e) i = grind arith
Step-IsSound (filler_joins s r e g) i = grind arith
Step-IsSound (filler_checks s r e) i = elim (Bool-cases s.is_cancelled) [
  | inl c ↦ grind arith
  | inr c ↦ grind arith
]
Step-IsSound (filler_cancels s r e) i = grind arith
Step-IsSound (allowance_stops s e c) i = grind arith
Step-IsSound (server_joins s r e) i = grind arith
Step-IsSound (server_checks s r e) i = elim (Bool-cases s.is_cancelled) [
  | inl c ↦ grind arith
  | inr c ↦ grind arith
]
Step-IsSound (server_cancels s r e) i = grind arith

Steps-IsSound : {n : ℕ} {s t : System} → Steps n s t → IsSound s → IsSound t
Steps-IsSound (stay s) i = i
Steps-IsSound (then step steps) i = Steps-IsSound steps (Step-IsSound step i)

start-IsSound : (b : Bool) → IsSound (start b)
unfolding start
start-IsSound true = grind arith
start-IsSound false = grind arith

-- Whatever the order of the steps, at any time: if one of the filler, the server and the allowance task
-- has stopped or a signal has been received, the token is cancelled; and if it is cancelled, a signal
-- has been received or a supervisor returns an error.
pub reachable-IsSound : (b : Bool) (n : ℕ) (s : System) → Steps n (start b) s → IsSound s
reachable-IsSound b n s steps = Steps-IsSound steps (start-IsSound b)

-- The token is cancelled, and neither supervisor has found it not cancelled.
pub record IsGraceful (s : System) : Type 0 where
  pub is_stopping : s.is_cancelled ≡ true
  pub filler_fine : is_failing s.filler ≡ false
  pub server_fine : is_failing s.server ≡ false

Step-IsGraceful : {s t : System} → Step s t → IsGraceful s → IsGraceful t
unfolding handle_signal check
Step-IsGraceful (signal s which e) i = grind arith
Step-IsGraceful (filler_joins s r e g) i = grind arith
Step-IsGraceful (filler_checks s r e) i = rw i.is_stopping (grind arith)
Step-IsGraceful (filler_cancels s r e) i = grind arith
Step-IsGraceful (allowance_stops s e c) i = grind arith
Step-IsGraceful (server_joins s r e) i = grind arith
Step-IsGraceful (server_checks s r e) i = rw i.is_stopping (grind arith)
Step-IsGraceful (server_cancels s r e) i = grind arith

-- If the token is cancelled before a supervisor has found it not cancelled, then whatever happens later
-- neither supervisor returns an error, however its task ends.
pub shutdown-IsGraceful :
    {n : ℕ} {s t : System}
    → Steps n s t
    → IsGraceful s
    → (is_error t.filler ≡ false) × (is_error t.server ≡ false)
shutdown-IsGraceful (stay s) i = grind arith
shutdown-IsGraceful (then step steps) i = shutdown-IsGraceful steps (Step-IsGraceful step i)

abbrev pub steps_left : {R : Type 0} → Phase R → ℕ
steps_left running = 3
steps_left (joined r) = 2
steps_left (failing r) = 1
steps_left (done result) = 0

abbrev pub one_if_false : Bool → ℕ
one_if_false true = 0
one_if_false false = 1

-- How many steps a state can still make.
abbrev pub remaining : System → ℕ
remaining s =
    steps_left s.filler
    + steps_left s.server
    + one_if_false s.is_signalled
    + one_if_false s.allowance_stopped

pub Step-remaining : {s t : System} → Step s t → remaining t + 1 ≤ remaining s
unfolding handle_signal check
Step-remaining (signal s which e) = grind arith
Step-remaining (filler_joins s r e g) = grind arith
Step-remaining (filler_checks s r e) = elim (Bool-cases s.is_cancelled) [
  | inl c ↦ grind arith
  | inr c ↦ grind arith
]
Step-remaining (filler_cancels s r e) = grind arith
Step-remaining (allowance_stops s e c) = grind arith
Step-remaining (server_joins s r e) = grind arith
Step-remaining (server_checks s r e) = elim (Bool-cases s.is_cancelled) [
  | inl c ↦ grind arith
  | inr c ↦ grind arith
]
Step-remaining (server_cancels s r e) = grind arith

pub Steps-remaining : {n : ℕ} {s t : System} → Steps n s t → n + remaining t ≤ remaining s
Steps-remaining (stay s) = omega arith
Steps-remaining (then step steps) = omega (arith, Step-remaining step, Steps-remaining steps)

-- All the tasks have stopped.
abbrev pub is_stopped : System → Bool
is_stopped s = is_done s.filler && is_done s.server && s.allowance_stopped
