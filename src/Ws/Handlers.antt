-- ===== src/Ws/Handlers.antt =====
-- `connect`, `handshake` and `poll` of the websocket client, from the state of the agent part that
-- each finds to the one that it leaves.
use mosfet_rs.Prelude.{ℕ, ◌≡◌, Option, none, some, List, Result, ok, err, arith}
use mosfet_rs.Exec.{Fault, Exec, within, ◌>>=◌}
use mosfet_rs.Exec.Keeps.{
  Keeps, Meets, keeps_rules, Keeps-gets, Keeps-then, Keeps-Meets, Meets-Keeps, Meets-bind, Meets-if,
  Meets-pure,
}
use mosfet_rs.Env.{Env}
use mosfet_rs.Messages.{AgentToServer, ApiClientError, ConnectionSettings}
use mosfet_rs.Machine.{State, StateResponse, reply, error, nothing}
use mosfet_rs.Agent.{Agent, pending_response}
use mosfet_rs.Agent.Mail.{run_on_loop-Keeps}
use mosfet_rs.Agent.Ready.{
  IsReady, IsSound, Never, Reports, GoesOn, get_status-IsReady, set_health_fills, set_health-Keeps,
  get_health-Keeps, report_health-Keeps, handle_message-IsReady,
}
use mosfet_rs.Ws.{
  WsClient, on_agent, receive, connect, queue_handshake, handshake, process_message, process_bytes,
  process_binary, process_frame, finish_poll, poll_stream, poll,
}
use mosfet_rs.Ws.Ready.{
  IsExternal, Holds, on_agent-Meets, Never-IsExternal, clock-IsExternal, host-IsExternal,
  keep_stream-Keeps,
}

module _ (E : Env) (settings : ConnectionSettings E.crates) (x : State) where
  abbrev pub Ready : WsClient E → Type 0
  Ready = Holds E (IsReady E settings) x

  abbrev pub Sound : WsClient E → Type 0
  Sound = Holds E (IsSound E settings) x

  on_agent-Ready :
      {A : Type 0} {R : Fault → Type 0} (m : Exec E.World (Agent E) A)
      → ((f : Fault) → R f → IsExternal f)
      → Keeps (IsReady E settings) R m
      → Keeps Ready IsExternal (on_agent E m)
  on_agent-Ready m more k =
      Meets-Keeps _ (on_agent-Meets E x m (λ a. IsReady E settings) more (Keeps-Meets m k))

  -- `connect` fills the agent's state before it dials, and leaves it ready however that ends.
  pub connect-Ready : Meets Sound (connect E) (λ r. Ready) IsExternal
  unfolding connect
  connect-Ready =
      Meets-bind (λ u. Ready) _ _
        (on_agent-Meets E x _ _ host-IsExternal (set_health_fills E settings _))
        λ u. Keeps-Meets _ (search (keeps_rules, keep_stream-Keeps E (IsReady E settings) x))

  -- An answer by `Reply`, from a ready client.
  abbrev pub Greeted : Result ApiClientError StateResponse → WsClient E → Type 0
  Greeted (ok (reply y)) c = Ready c
  Greeted (ok nothing) c = ⊥
  Greeted (ok (error e)) c = ⊥
  Greeted (err e) c = ⊥

  queue_handshake-Ready :
      (r : Result ApiClientError (AgentToServer E.crates))
      → Meets
          (λ c. (c.state ≡ x) × Reports E settings r c.agent)
          (queue_handshake E r)
          Greeted
          IsExternal
  unfolding queue_handshake on_agent within ◌>>=◌
  queue_handshake-Ready (ok st) = record { at = λ c w h. (h.0, h.1.0) }
  queue_handshake-Ready (err e) = record { at = λ c w h. absurd h.1 }

  pub handshake-Ready : Meets Sound (handshake E) Greeted IsExternal
  unfolding handshake
  handshake-Ready =
      Meets-bind (λ u. Ready) _ _
        (on_agent-Meets E x _ _ host-IsExternal (set_health_fills E settings _))
        λ u.
          Meets-bind (λ r c. (c.state ≡ x) × Reports E settings r c.agent) _ _
            (on_agent-Meets E x _ _ Never-IsExternal (get_status-IsReady E settings))
            queue_handshake-Ready

  -- A response that leads on to polling or sending, from a ready client.
  abbrev pub Flows : Result ApiClientError StateResponse → WsClient E → Type 0
  Flows (ok (reply y)) c = Ready c
  Flows (ok nothing) c = Ready c
  Flows (ok (error e)) c = ⊥
  Flows (err e) c = ⊥

  abbrev Continues : Option StateResponse → WsClient E → Type 0
  Continues o c = (c.state ≡ x) × GoesOn E settings o c.agent

  process_message-Continues :
      (o : Option E.ServerToAgent) → Meets Ready (process_message E o) Continues IsExternal
  unfolding process_message
  process_message-Continues none = Meets-pure none (λ c h. h)
  process_message-Continues (some msg) =
      on_agent-Meets E x _ _ Never-IsExternal
        (handle_message-IsReady E settings _ (set_health-Keeps E settings _) msg)

  process_bytes-Continues :
      (o : Option (List ℕ)) → Meets Ready (process_bytes E o) Continues IsExternal
  unfolding process_bytes
  process_bytes-Continues none = record { at = λ c w h. tt }
  process_bytes-Continues (some bytes) = process_message-Continues _

  process_binary-Continues :
      (o : Option (List ℕ)) → Meets Ready (process_binary E o) Continues IsExternal
  unfolding process_binary
  process_binary-Continues none = Meets-pure none (λ c h. h)
  process_binary-Continues (some bytes) = process_bytes-Continues _

  process_frame-Continues :
      (r : Result ApiClientError (Option E.Frame))
      → Meets Ready (process_frame E r) Continues IsExternal
  unfolding process_frame
  process_frame-Continues (ok (some frame)) = process_binary-Continues _
  process_frame-Continues (ok none) = Meets-pure none (λ c h. h)
  process_frame-Continues (err e) = Meets-pure none (λ c h. h)

  pending_response-Flows : Meets Ready (on_agent E (pending_response E)) Flows IsExternal
  unfolding on_agent within pending_response ◌>>=◌
  pending_response-Flows = record { at = λ c w h. ground arith }

  finish_poll-Flows :
      (o : Option StateResponse) → Meets (Continues o) (finish_poll E o) Flows IsExternal
  unfolding finish_poll
  finish_poll-Flows none =
      Keeps-then _ _ (on_agent-Ready _ Never-IsExternal (run_on_loop-Keeps E _ Never (λ m a h. h)))
        λ u. pending_response-Flows
  finish_poll-Flows (some r) = record { at = λ c w h. absurd h.1 }

  -- On a ready client `poll` leaves the client ready and answers by `Reply` or `None`, or panics
  -- for want of a stream, on an empty binary frame or on a time before the epoch.
  pub poll-Flows : Meets Ready (poll E) Flows IsExternal
  unfolding poll poll_stream receive
  poll-Flows =
      Keeps-then _ _ (on_agent-Ready _ clock-IsExternal (get_health-Keeps E settings)) λ health.
        Keeps-then _ _ (on_agent-Ready _ Never-IsExternal (report_health-Keeps E settings health))
          λ u. Keeps-then _ _ (Keeps-gets _) λ c.
            Meets-if _ _ _
              (Keeps-then _ _ (search keeps_rules)
                λ frame. Meets-bind Continues _ _ (process_frame-Continues frame) finish_poll-Flows)
              (Meets-pure _ (λ c h. h))
