-- ===== src/Http/Safety.antt =====
-- Runs of the HTTP client: whatever the server, the clock and the callbacks do, `trigger` keeps an
-- invariant that ties the state of the machine to `agent_state`, and panics only on what comes
-- from outside.
use mosfet_rs.Prelude.{ℕ, ◌≡◌, refl, Result, ok, err, arith}
use mosfet_rs.Exec.{
  Fault, returns, repeat, bad_retries, bad_gzip, bad_slice, bad_decode, no_host_info, no_ulid,
  bad_time,
}
use mosfet_rs.Exec.Keeps.{Ends, Ends-mono, Keeps, Meets, Meets-bind, Keeps-Meets, repeat-Keeps}
use mosfet_rs.Env.{Env}
use mosfet_rs.Messages.{ApiClientError, ConnectionSettings}
use mosfet_rs.Machine.{
  State, disconnected, connecting, connected, polling, sending, waiting, evaluate, after_connect,
  after_handshake, after_poll, after_send, after_wait,
}
use mosfet_rs.Exec.Steps.{Trail, loop-Trail}
use mosfet_rs.Machine.{reply, error, nothing, StateResponse}
use mosfet_rs.Exec.{◌>>=◌}
use mosfet_rs.Machine.Moves.{
  Move, begin, reach, miss, hello, queue, pass, sent, fault, again, IsUp, Move-IsUp,
}
use mosfet_rs.Agent.Phases.{Fits}
use mosfet_rs.Machine.Arm.{arm}
use mosfet_rs.Agent.Ready.{IsReady, IsSound, Never, OnClock, OnHost}
use mosfet_rs.Http.Wire.{HttpClient, new}
use mosfet_rs.Http.Steps.{channel, trigger, settle, connect, handshake, poll, send, wait}
use mosfet_rs.Http.Ready.{Greeted, Flows, OnResponse, OnRetries, poll-Ready, handshake-Ready}
use mosfet_rs.Http.Answers.{Answered, Rested, send_answers, connect-Keeps, wait_rests}

-- The panics that the outside world can cause.
abbrev pub IsExternal : Fault → Type 0
IsExternal bad_retries = Unit
IsExternal bad_gzip = Unit
IsExternal bad_slice = Unit
IsExternal bad_decode = Unit
IsExternal no_host_info = Unit
IsExternal no_ulid = Unit
IsExternal bad_time = Unit
IsExternal _ = ⊥

Never-IsExternal : (f : Fault) → Never f → IsExternal f
Never-IsExternal f h = absurd h

response-IsExternal : (f : Fault) → OnResponse f → IsExternal f
response-IsExternal f h = ground arith

retries-IsExternal : (f : Fault) → OnRetries f → IsExternal f
retries-IsExternal f h = ground arith

clock-IsExternal : (f : Fault) → OnClock f → IsExternal f
clock-IsExternal f h = ground arith

host-IsExternal : (f : Fault) → OnHost f → IsExternal f
host-IsExternal f h = ground arith

module _ (E : Env) (settings : ConnectionSettings E.crates) where
  abbrev pub Inv : HttpClient E → Type 0
  Inv c = Fits E settings c.state c.agent

  -- From `x` a move leads on, to a state that the agent part fits.
  abbrev pub Next : State → Result ApiClientError State → HttpClient E → Type 0
  Next x (ok s) c = Move x s × Fits E settings s c.agent
  Next x (err e) c = ⊥

  evaluate-Next :
      (x : State)
      → Meets
          (λ c. (c.state ≡ x) × Fits E settings x c.agent)
          (evaluate (channel E) x)
          (Next x)
          IsExternal
  unfolding evaluate channel
  evaluate-Next (disconnected x) = record { at = λ c w h. (begin, h.1) }
  evaluate-Next (connecting x) =
      arm _ (Next (connecting x)) (connect E) after_connect
        (Keeps-Meets _ (connect-Keeps E (IsSound E settings) (connecting x))) retries-IsExternal
        dialled
    where
      dialled :
          (r : Result ApiClientError StateResponse) (c : HttpClient E)
          → (c.state ≡ connecting x) × IsSound E settings c.agent
          → Next (connecting x) (ok (after_connect r)) c
      dialled (ok (reply y)) c h = (reach, h.1)
      dialled (ok nothing) c h = (reach, h.1)
      dialled (ok (error e)) c h = (miss, h.1)
      dialled (err e) c h = (miss, h.1)
  evaluate-Next (connected x) =
      arm _ (Next (connected x)) (handshake E) after_handshake
        (handshake-Ready E settings (connected x)) host-IsExternal greeted
    where
      greeted :
          (r : Result ApiClientError StateResponse) (c : HttpClient E)
          → Greeted E settings (connected x) r c
          → Next (connected x) (ok (after_handshake r)) c
      greeted (ok (reply y)) c h = (hello, h.1)
      greeted (ok (error e)) c h = absurd h
      greeted (ok nothing) c h = absurd h
      greeted (err e) c h = absurd h
  evaluate-Next (polling x) =
      arm _ (Next (polling x)) (poll E) (after_poll (polling x)) (poll-Ready E settings (polling x))
        clock-IsExternal polled
    where
      polled :
          (r : Result ApiClientError StateResponse) (c : HttpClient E)
          → Flows E settings (polling x) r c
          → Next (polling x) (ok (after_poll (polling x) r)) c
      polled (ok (reply y)) c h = (queue, h.1)
      polled (ok nothing) c h = (pass, h.1)
      polled (ok (error e)) c h = absurd h
      polled (err e) c h = absurd h
  evaluate-Next (sending x) =
      arm _ (Next (sending x)) (send E) after_send
        (send_answers E (IsReady E settings) (sending x) (λ a h. h)) response-IsExternal answered
    where
      answered :
          (r : Result ApiClientError StateResponse) (c : HttpClient E)
          → Answered E (IsReady E settings) (sending x) r c
          → Next (sending x) (ok (after_send r)) c
      answered (ok (reply y)) c h = (sent, h.1)
      answered (ok (error e)) c h = (fault, h.1)
      answered (ok nothing) c h = absurd h
      answered (err e) c h = absurd h
  evaluate-Next (waiting x) =
      arm _ (Next (waiting x)) (wait E) (after_wait (waiting x))
        (wait_rests E (IsReady E settings) (waiting x)) Never-IsExternal rested
    where
      rested :
          (r : Result ApiClientError StateResponse) (c : HttpClient E)
          → Rested E (IsReady E settings) (waiting x) r c
          → Next (waiting x) (ok (after_wait (waiting x) r)) c
      rested (ok (reply y)) c h = (again, h.1)
      rested (ok (error e)) c h = absurd h
      rested (ok nothing) c h = absurd h
      rested (err e) c h = absurd h

  settle-Inv :
      (x : State) (r : Result ApiClientError State)
      → Meets (Next x r) (settle E r) (λ u c. Move x c.state × Inv c) IsExternal
  unfolding settle
  settle-Inv x (ok s) = record { at = λ c w h. h }
  settle-Inv x (err e) = record { at = λ c w h. absurd h }

  -- One trigger is one move, whatever happens.
  trigger_moves :
      (c : HttpClient E) (w : E.World)
      → Inv c
      → Ends (λ u c'. Move c.state c'.state × Inv c') IsExternal (trigger E c w)
  unfolding trigger ◌>>=◌
  trigger_moves c w h =
      (Meets-bind (Next c.state) _ _ (evaluate-Next c.state) (settle-Inv c.state)).at c w (refl, h)

  pub trigger-Inv : Keeps Inv IsExternal (trigger E)
  trigger-Inv = record {
    at = λ c w h.
        Ends-mono {P = λ u c'. Move c.state c'.state × Inv c'} {R = IsExternal} _ _ _
          (λ u c' k. k.1) (λ f k. k) (trigger_moves c w h);
  }

  new-Inv : {c : HttpClient E} → new E settings ≡ returns c → Inv c
  unfolding new
  new-Inv e = ground arith

  new_disconnected : {c : HttpClient E} → new E settings ≡ returns c → c.state ≡ disconnected ""
  unfolding new
  new_disconnected e = ground arith

  -- A client made by `new` and triggered any number of times keeps the invariant `Inv`, and no
  -- panic occurs but one that `IsExternal` lists: never on a missing `agent_state` or health.
  pub run_safe :
      (n : ℕ) {c : HttpClient E} (w : E.World)
      → new E settings ≡ returns c
      → Ends (λ u. Inv) IsExternal (repeat n (trigger E) c w)
  run_safe n {c} w made = (repeat-Keeps n (trigger E) trigger-Inv).at c w (new-Inv made)

  -- The triggers of a client, each a move between the states it goes through.
  abbrev pub Moves : ℕ → HttpClient E → E.World → Type 0
  Moves = Trail Inv IsExternal (λ c c'. Move c.state c'.state) (trigger E)

  -- A client made by new starts in `Disconnected`, and each of its next n triggers takes it from
  -- the state it is in to the one after it along one of nine edges, none of which leads back to
  -- dialling after the handshake, the agent part fitting every state it goes through; or one of
  -- them panics on what comes from outside, never on a missing agent state or health record.
  pub run_walks :
      (n : ℕ) {c : HttpClient E} (w : E.World)
      → new E settings ≡ returns c
      → (c.state ≡ disconnected "") × Moves n c w
  run_walks n {c} w made = (
    new_disconnected made,
    loop-Trail Inv IsExternal (λ c c'. Move c.state c'.state) (trigger E) trigger_moves n c w
        (new-Inv made),
  )

  abbrev pub InvUp : HttpClient E → Type 0
  InvUp c = Inv c × IsUp c.state

  trigger-Up : Keeps InvUp IsExternal (trigger E)
  trigger-Up = record {
    at = λ c w h.
        Ends-mono {P = λ u c'. Move c.state c'.state × Inv c'} {R = IsExternal} _ _ _
          (λ u c' k. (k.1, Move-IsUp k.0 h.1)) (λ f k. k) (trigger_moves c w h.0);
  }

  -- An HTTP client in a polling, sending or waiting state that the agent part fits stays in these
  -- states over any number of triggers: it neither reconnects nor repeats the handshake. Only a
  -- panic that `IsExternal` lists ends this.
  pub run_stays_up :
      (n : ℕ) (c : HttpClient E) (w : E.World)
      → InvUp c
      → Ends (λ u. InvUp) IsExternal (repeat n (trigger E) c w)
  run_stays_up n c w up = (repeat-Keeps n (trigger E) trigger-Up).at c w up
