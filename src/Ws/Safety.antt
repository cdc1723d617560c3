-- ===== src/Ws/Safety.antt =====
-- Runs of the websocket client: `trigger` keeps the invariant that ties the state of the machine to
-- `agent_state`, and panics only on what comes from outside.
use mosfet_rs.Prelude.{ℕ, ◌≡◌, refl, Result, ok, err, arith}
use mosfet_rs.Exec.{Fault, returns, repeat}
use mosfet_rs.Exec.Keeps.{Ends, Keeps, Meets, Meets-bind, repeat-Keeps}
use mosfet_rs.Env.{Env}
use mosfet_rs.Messages.{ApiClientError, ConnectionSettings}
use mosfet_rs.Machine.{
  State, disconnected, connecting, connected, polling, sending, waiting, evaluate, after_connect,
  after_handshake, after_poll, after_send, after_wait,
}
use mosfet_rs.Machine.Arm.{arm}
use mosfet_rs.Agent.Ready.{IsReady}
use mosfet_rs.Exec.Steps.{Trail, loop-Trail}
use mosfet_rs.Machine.{reply, error, nothing, StateResponse}
use mosfet_rs.Exec.{◌>>=◌}
use mosfet_rs.Exec.Keeps.{Ends-mono}
use mosfet_rs.Ws.Handlers.{Greeted, Flows, Ready}
use mosfet_rs.Ws.Ready.{Replied}
use mosfet_rs.Agent.Ready.{IsReady-IsSound}
use mosfet_rs.Machine.Moves.{
  Move, begin, reach, miss, hello, queue, pass, sent, again, IsUp, Move-IsUp,
}
use mosfet_rs.Agent.Phases.{Fits}
use mosfet_rs.Ws.{WsClient, new, channel, trigger, settle, connect, handshake, poll, send, wait}
use mosfet_rs.Ws.Ready.{IsExternal, send_replies, wait_replies}
use mosfet_rs.Ws.Handlers.{connect-Ready, handshake-Ready, poll-Flows}

same-IsExternal : (f : Fault) → IsExternal f → IsExternal f
same-IsExternal f h = h

module _ (E : Env) (settings : ConnectionSettings E.crates) where
  abbrev pub Inv : WsClient E → Type 0
  Inv c = Fits E settings c.state c.agent

  -- From `x` a move leads on, to a state that the agent part fits.
  abbrev pub Next : State → Result ApiClientError State → WsClient E → Type 0
  Next x (ok s) c = Move x s × Fits E settings s c.agent
  Next x (err e) c = ⊥

  evaluate-Next :
      (x : State)
      → Meets
          (λ c. (c.state ≡ x) × Fits E settings x c.agent)
          (evaluate (channel E) x)
          (Next x)
          IsExternal
  unfolding evaluate channel
  evaluate-Next (disconnected x) = record { at = λ c w h. (begin, h.1) }
  evaluate-Next (connecting x) =
      arm _ (Next (connecting x)) (connect E) after_connect
        (connect-Ready E settings (connecting x)) same-IsExternal dialled
    where
      dialled :
          (r : Result ApiClientError StateResponse) (c : WsClient E)
          → Ready E settings (connecting x) c
          → Next (connecting x) (ok (after_connect r)) c
      dialled (ok (reply y)) c h = (reach, IsReady-IsSound E settings c.agent h.1)
      dialled (ok nothing) c h = (reach, IsReady-IsSound E settings c.agent h.1)
      dialled (ok (error e)) c h = (miss, IsReady-IsSound E settings c.agent h.1)
      dialled (err e) c h = (miss, IsReady-IsSound E settings c.agent h.1)
  evaluate-Next (connected x) =
      arm _ (Next (connected x)) (handshake E) after_handshake
        (handshake-Ready E settings (connected x)) same-IsExternal greeted
    where
      greeted :
          (r : Result ApiClientError StateResponse) (c : WsClient E)
          → Greeted E settings (connected x) r c
          → Next (connected x) (ok (after_handshake r)) c
      greeted (ok (reply y)) c h = (hello, h.1)
      greeted (ok (error e)) c h = absurd h
      greeted (ok nothing) c h = absurd h
      greeted (err e) c h = absurd h
  evaluate-Next (polling x) =
      arm _ (Next (polling x)) (poll E) (after_poll (polling x)) (poll-Flows E settings (polling x))
        same-IsExternal polled
    where
      polled :
          (r : Result ApiClientError StateResponse) (c : WsClient E)
          → Flows E settings (polling x) r c
          → Next (polling x) (ok (after_poll (polling x) r)) c
      polled (ok (reply y)) c h = (queue, h.1)
      polled (ok nothing) c h = (pass, h.1)
      polled (ok (error e)) c h = absurd h
      polled (err e) c h = absurd h
  evaluate-Next (sending x) =
      arm _ (Next (sending x)) (send E) after_send
        (send_replies E (IsReady E settings) (sending x) (λ a h. h)) same-IsExternal replied
    where
      replied :
          (r : Result ApiClientError StateResponse) (c : WsClient E)
          → Replied E (IsReady E settings) (sending x) r c
          → Next (sending x) (ok (after_send r)) c
      replied (ok (reply y)) c h = (sent, h.1)
      replied (ok (error e)) c h = absurd h
      replied (ok nothing) c h = absurd h
      replied (err e) c h = absurd h
  evaluate-Next (waiting x) =
      arm _ (Next (waiting x)) (wait E) (after_wait (waiting x))
        (wait_replies E (IsReady E settings) (waiting x)) same-IsExternal rested
    where
      rested :
          (r : Result ApiClientError StateResponse) (c : WsClient E)
          → Replied E (IsReady E settings) (waiting x) r c
          → Next (waiting x) (ok (after_wait (waiting x) r)) c
      rested (ok (reply y)) c h = (again, h.1)
      rested (ok (error e)) c h = absurd h
      rested (ok nothing) c h = absurd h
      rested (err e) c h = absurd h

  settle-Inv :
      (x : State) (r : Result ApiClientError State)
      → Meets (Next x r) (settle E r) (λ u c. Move x c.state × Inv c) IsExternal
  unfolding settle
  settle-Inv x (ok s) = record { at = λ c w h. h }
  settle-Inv x (err e) = record { at = λ c w h. absurd h }

  -- One trigger is one move, whatever happens.
  trigger_moves :
      (c : WsClient E) (w : E.World)
      → Inv c
      → Ends (λ u c'. Move c.state c'.state × Inv c') IsExternal (trigger E c w)
  unfolding trigger ◌>>=◌
  trigger_moves c w h =
      (Meets-bind (Next c.state) _ _ (evaluate-Next c.state) (settle-Inv c.state)).at c w (refl, h)

  pub trigger-Inv : Keeps Inv IsExternal (trigger E)
  trigger-Inv = record {
    at = λ c w h.
        Ends-mono {P = λ u c'. Move c.state c'.state × Inv c'} {R = IsExternal} _ _ _
          (λ u c' k. k.1) (λ f k. k) (trigger_moves c w h);
  }

  new-Inv : {c : WsClient E} → new E settings ≡ returns c → Inv c
  unfolding new
  new-Inv e = ground arith

  new_disconnected : {c : WsClient E} → new E settings ≡ returns c → c.state ≡ disconnected ""
  unfolding new
  new_disconnected e = ground arith

  -- A websocket client made by `new` and triggered any number of times keeps the invariant `Inv`,
  -- and no panic occurs but one that `IsExternal` lists: never on a missing `agent_state` or
  -- health.
  pub socket_run_safe :
      (n : ℕ) {c : WsClient E} (w : E.World)
      → new E settings ≡ returns c
      → Ends (λ u. Inv) IsExternal (repeat n (trigger E) c w)
  socket_run_safe n {c} w made = (repeat-Keeps n (trigger E) trigger-Inv).at c w (new-Inv made)

  -- The triggers of a client, each a move between the states it goes through.
  abbrev pub Moves : ℕ → WsClient E → E.World → Type 0
  Moves = Trail Inv IsExternal (λ c c'. Move c.state c'.state) (trigger E)

  -- A websocket client made by new starts in `Disconnected`, and each of its next n triggers
  -- takes it from the state it is in to the one after it along one of the same nine edges, the
  -- agent part fitting every state it goes through; or one of them panics, as `IsExternal` lists.
  pub socket_walks :
      (n : ℕ) {c : WsClient E} (w : E.World)
      → new E settings ≡ returns c
      → (c.state ≡ disconnected "") × Moves n c w
  socket_walks n {c} w made = (
    new_disconnected made,
    loop-Trail Inv IsExternal (λ c c'. Move c.state c'.state) (trigger E) trigger_moves n c w
        (new-Inv made),
  )

  abbrev pub InvUp : WsClient E → Type 0
  InvUp c = Inv c × IsUp c.state

  trigger-Up : Keeps InvUp IsExternal (trigger E)
  trigger-Up = record {
    at = λ c w h.
        Ends-mono {P = λ u c'. Move c.state c'.state × Inv c'} {R = IsExternal} _ _ _
          (λ u c' k. (k.1, Move-IsUp k.0 h.1)) (λ f k. k) (trigger_moves c w h.0);
  }

  -- A websocket client in a polling, sending or waiting state that the agent part fits stays in
  -- these states over any number of triggers: it never dials again. Only a panic that
  -- `IsExternal` lists ends this.
  pub socket_stays_up :
      (n : ℕ) (c : WsClient E) (w : E.World)
      → InvUp c
      → Ends (λ u. InvUp) IsExternal (repeat n (trigger E) c w)
  socket_stays_up n c w up = (repeat-Keeps n (trigger E) trigger-Up).at c w up
