-- ===== src/Service/Stopping.antt =====
-- How the tasks of the service stop by themselves, once one of them has ended or a signal has come: the
-- graceful shutdown of `serve_healthcheck` (src/service.rs) and the loops of `FillerTask::run`
-- (src/filler_task/mod.rs) and of `AllowanceRefreshTask::run` (src/allowance.rs).
use signet_filler.Prelude.{
  ℕ, ◌+◌, ◌≤◌, ◌≡◌, refl, Bool, true, false, not, ◌⊎◌, inl, inr, ◌&&◌, ◌||◌, arith, Bool-cases,
}
use signet_filler.Prelude.Result.{ok, err}
use signet_filler.Service.{FillerJoin, ServerJoin, Phase, running, joined, failing, done, check}
use signet_filler.Service.System.{
  System, start, handle_signal, Step, signal, filler_joins, filler_checks, filler_cancels,
  allowance_stops, server_joins, server_checks, server_cancels, Steps,
}
use signet_filler.Service.Shutdown.{
  is_done, IsSound, Step-IsSound, reachable-IsSound, remaining, Step-remaining, Steps-remaining,
  is_stopped,
}

abbrev pub returns : FillerJoin → Bool
returns (ok t) = true
returns (err e) = false

abbrev pub serves : ServerJoin → Bool
serves (ok (ok t)) = true
serves r = false

-- Whether a step is one that the code takes by itself: no signal comes, the filler task neither panics
-- nor is aborted, and the server ends only by its graceful shutdown, which waits for the token to be
-- cancelled; the connections that are open then are taken to end.
unfoldable pub is_own : {s t : System} → Step s t → Bool
is_own (signal s which e) = false
is_own (filler_joins s r e g) = returns r
is_own (filler_checks s r e) = true
is_own (filler_cancels s r e) = true
is_own (allowance_stops s e c) = true
is_own (server_joins s r e) = s.is_cancelled && serves r
is_own (server_checks s r e) = true
is_own (server_cancels s r e) = true

-- So many steps of the code by itself.
pub data Runs : ℕ → System → System → Type 0 where
  halt : (s : System) → Runs 0 s s
  next :
      {n : ℕ} {s t u : System}
      → (step : Step s t) → is_own step ≡ true
      → Runs n t u
      → Runs (n + 1) s u

-- The code makes no further step by itself.
abbrev pub IsAtRest : System → Type 0
IsAtRest s = (t : System) (step : Step s t) → is_own step ≡ false

abbrev pub is_running : {R : Type 0} → Phase R → Bool
is_running running = true
is_running phase = false

-- A signal has come, or one of the two supervised tasks has ended.
abbrev pub is_triggered : System → Bool
is_triggered s = s.is_signalled || not (is_running s.filler) || not (is_running s.server)

Phase-cases :
    {R : Type 0} (p : Phase R)
    → (p ≡ running) ⊎ ((r : R) × (p ≡ joined r)) ⊎ ((r : R) × (p ≡ failing r)) ⊎ (is_done p ≡ true)
Phase-cases running = inl refl
Phase-cases (joined r) = inr (inl (r, refl))
Phase-cases (failing r) = inr (inr (inl (r, refl)))
Phase-cases (done result) = inr (inr (inr refl))

Step-is_triggered : {s t : System} → Step s t → is_triggered s ≡ true → is_triggered t ≡ true
unfolding handle_signal check
Step-is_triggered (signal s which e) h = grind arith
Step-is_triggered (filler_joins s r e g) h = grind arith
Step-is_triggered (filler_checks s r e) h = elim (Bool-cases s.is_cancelled) [
  | inl c ↦ grind arith
  | inr c ↦ grind arith
]
Step-is_triggered (filler_cancels s r e) h = grind arith
Step-is_triggered (allowance_stops s e c) h = grind arith
Step-is_triggered (server_joins s r e) h = grind arith
Step-is_triggered (server_checks s r e) h = elim (Bool-cases s.is_cancelled) [
  | inl c ↦ grind arith
  | inr c ↦ grind arith
]
Step-is_triggered (server_cancels s r e) h = grind arith

Runs-is_triggered :
    {n : ℕ} {s t : System} → Runs n s t → is_triggered s ≡ true → is_triggered t ≡ true
Runs-is_triggered (halt s) h = h
Runs-is_triggered (next step own runs) h = Runs-is_triggered runs (Step-is_triggered step h)

pub Runs-IsSound : {n : ℕ} {s t : System} → Runs n s t → IsSound s → IsSound t
Runs-IsSound (halt s) i = i
Runs-IsSound (next step own runs) i = Runs-IsSound runs (Step-IsSound step i)

Runs-remaining : {n : ℕ} {s t : System} → Runs n s t → n + remaining t ≤ remaining s
Runs-remaining (halt s) = omega arith
Runs-remaining (next step own runs) = omega (arith, Step-remaining step, Runs-remaining runs)

-- A step of the code by itself.
abbrev Goes : System → Type 0
Goes s = (t : System) × (step : Step s t) × (is_own step ≡ true)

-- With the token cancelled, all the tasks have stopped or one of them goes on.
go_cancelled : (s : System) → s.is_cancelled ≡ true → (is_stopped s ≡ true) ⊎ Goes s
unfolding is_own
go_cancelled s c = elim (Phase-cases s.filler) [
  | inl e ↦ inr (_, filler_joins s (ok tt) e (λ h. c), refl)
  | inr (inl (r, e)) ↦ inr (_, filler_checks s r e, refl)
  | inr (inr (inl (r, e))) ↦ inr (_, filler_cancels s r e, refl)
  | inr (inr (inr f)) ↦ elim (Phase-cases s.server) [
    | inl e ↦ inr (_, server_joins s (ok (ok tt)) e, rw c refl)
    | inr (inl (r, e)) ↦ inr (_, server_checks s r e, refl)
    | inr (inr (inl (r, e))) ↦ inr (_, server_cancels s r e, refl)
    | inr (inr (inr g)) ↦ elim (Bool-cases s.allowance_stopped) [
      | inl a ↦ inl (rw (f, g, a) refl)
      | inr a ↦ inr (_, allowance_stops s a c, refl)
    ]
  ]
]

-- Before that, a supervisor whose task has ended goes on to cancel it.
go_live : (s : System) → IsSound s → s.is_cancelled ≡ false → is_triggered s ≡ true → Goes s
unfolding is_own
go_live s i c h = elim (Phase-cases s.filler) [
  | inl e ↦ elim (Phase-cases s.server) [
    | inl e' ↦ absurd (grind (arith, i.signalled))
    | inr (inl (r, e')) ↦ (_, server_checks s r e', refl)
    | inr (inr (inl (r, e'))) ↦ (_, server_cancels s r e', refl)
    | inr (inr (inr g)) ↦ absurd (cc (i.server_done g, c))
  ]
  | inr (inl (r, e)) ↦ (_, filler_checks s r e, refl)
  | inr (inr (inl (r, e))) ↦ (_, filler_cancels s r e, refl)
  | inr (inr (inr f)) ↦ absurd (cc (i.filler_done f, c))
]

at_rest_stopped :
    (s : System) → IsSound s → is_triggered s ≡ true → IsAtRest s → is_stopped s ≡ true
at_rest_stopped s i h quiet =
    let no_step : Goes s → is_stopped s ≡ true =
      λ (t, step, own). absurd (cc (quiet t step, own)) in
    elim (Bool-cases s.is_cancelled) [
      | inl c ↦ elim (go_cancelled s c) [ inl stopped ↦ stopped | inr goes ↦ no_step goes ]
      | inr c ↦ no_step (go_live s i c h)
    ]

-- From every state that the service can reach in which a signal has come or the filler task or the
-- server has ended, for whatever reason: the code by itself makes at most eight steps in whatever order,
-- and when it makes no more, both supervisors have returned and the allowance task has stopped.
pub shutdown-terminates :
    (b : Bool) (n : ℕ) (s : System)
    → Steps n (start b) s
    → is_triggered s ≡ true
    → (k : ℕ) (t : System) → Runs k s t
    → IsAtRest t
    → (k ≤ 8) × (is_stopped t ≡ true)
unfolding start
shutdown-terminates b n s steps h k t runs quiet =
    let few : remaining (start b) ≤ 8 = elim (Bool-cases b) [
      | inl e ↦ rw e (omega arith)
      | inr e ↦ rw e (omega arith)
    ] in
    (
      omega (arith, Steps-remaining steps, Runs-remaining runs, few),
      at_rest_stopped t (Runs-IsSound runs (reachable-IsSound b n s steps))
          (Runs-is_triggered runs h) quiet,
    )
