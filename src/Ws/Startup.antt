-- ===== src/Ws/Startup.antt =====
-- The start of the websocket client of src/wsclient/mod.rs where dialling and sending work: dial,
-- handshake, and on to polling.
use mosfet_rs.Prelude.{◌≡◌, refl, ◌∙◌, false, none, some, List, [], ◌∷◌, ok, arith, push}
use mosfet_rs.Exec.{returns, repeat, within, ◌>>=◌}
use mosfet_rs.Env.{Env}
use mosfet_rs.Messages.{AgentToServer, ConnectionSettings}
use mosfet_rs.Machine.{
  State, disconnected, connecting, connected, polling, sending, waiting, nullstr, evaluate,
}
use mosfet_rs.Agent.{with_health, get_status}
use mosfet_rs.Agent.Hosted.{Hosted, IsUnhealthy, first_health}
use mosfet_rs.Agent.Unseen.{get_status-Calm}
use mosfet_rs.Ws.{
  WsClient, on_agent, new, connect, keep_stream, queue_handshake, handshake, to_sink, expect_sent,
  flush_all, flush, unwrap_flush, send, wait, channel, settle, trigger,
}
use mosfet_rs.Agent.Report.{set_health_lem}
use mosfet_rs.Ws.Counts.{SocketLog}
use mosfet_rs.Exec.Steps.{repeat-suc}

-- A host that is known, a server that takes every dial, and streams that take every frame.
pub record Listening (E : Env) : Type 0 where
  pub hosted : Hosted E
  pub dial : (u : E.Url) (w : E.World) → (s : E.Stream) × ((E.ws_connect u w).0 ≡ ok s)
  pub takes : (s : E.Stream) (f : E.Frame) (w : E.World) → (E.ws_send s f w).0 ≡ ok tt

module _ (E : Env) (L : SocketLog E) (R : Listening E) (settings : ConnectionSettings E.crates)
    (start : List (E.Stream × E.Frame)) where
  open L use {sent}

  -- Before the dial, in state `x`.
  abbrev Blank : State → WsClient E → E.World → Type 0
  Blank x c w =
      (c.state ≡ x)
      × (c.settings ≡ settings)
      × (c.agent_state ≡ none)
      × (c.outbox ≡ [])
      × (c.seqno ≡ 0)
      × (sent w ≡ start)

  begins :
      (c : WsClient E) (w : E.World)
      → Blank (disconnected "") c w
      → ((trigger E c w).0 ≡ returns tt)
        × Blank (connecting nullstr) (trigger E c w).1 (trigger E c w).2
  unfolding trigger settle evaluate channel ◌>>=◌
  begins c w h = ground arith

  module _ (s : E.Stream) where
    -- Joined over the stream `s`, with the status `st`.
    abbrev Joined : State → AgentToServer E.crates → WsClient E → E.World → Type 0
    Joined x st c w =
        (c.state ≡ x)
        × (c.settings ≡ settings)
        × (c.stream ≡ some s)
        × (c.agent_state ≡ some st)
        × (st.instance_uid ≡ settings.instance_id)
        × IsUnhealthy st.health
        × (c.outbox ≡ [])
        × (c.seqno ≡ 0)
        × (sent w ≡ start)

    -- The handshake with the status waits in the outbox.
    abbrev Greeting : AgentToServer E.crates → WsClient E → E.World → Type 0
    Greeting st c w =
        (c.state ≡ sending "handshake enqueued")
        × (c.settings ≡ settings)
        × (c.stream ≡ some s)
        × (c.agent_state ≡ some st)
        × (st.instance_uid ≡ settings.instance_id)
        × IsUnhealthy st.health
        × (c.outbox ≡ st ∷ [])
        × (c.seqno ≡ 0)
        × (sent w ≡ start)

    -- The first frame: the status, numbered 1.
    abbrev pub greeting_frame : AgentToServer E.crates → E.Frame
    greeting_frame st = E.binary (E.encode (record st { sequence_num = 1 }))

    -- The handshake is sent over the stream, and the machine is in state `x`.
    abbrev pub Greeted : State → AgentToServer E.crates → WsClient E → E.World → Type 0
    Greeted x st c w =
        (c.state ≡ x)
        × (c.settings ≡ settings)
        × (c.stream ≡ some s)
        × (c.agent_state ≡ some st)
        × (st.instance_uid ≡ settings.instance_id)
        × IsUnhealthy st.health
        × (c.outbox ≡ [])
        × (c.seqno ≡ 1)
        × (sent w ≡ push start (s, greeting_frame st))

    greets :
        (st : AgentToServer E.crates) (c : WsClient E) (w : E.World)
        → Joined (connected "connected") st c w
        → ((trigger E c w).0 ≡ returns tt)
          × Greeting (with_health E false st) (trigger E c w).1 (trigger E c w).2
    unfolding trigger settle evaluate channel handshake queue_handshake get_status on_agent within
        ◌>>=◌
    greets st c w h = let marked = set_health_lem E false st c.agent w h.3 in ground (arith, marked)

    sends :
        (st : AgentToServer E.crates) (c : WsClient E) (w : E.World)
        → Greeting st c w
        → ((trigger E c w).0 ≡ returns tt)
          × Greeted (waiting "messages sent") st (trigger E c w).1 (trigger E c w).2
    unfolding trigger settle evaluate channel send flush flush_all to_sink expect_sent unwrap_flush
        ◌>>=◌
    sends st c w h =
        let f = greeting_frame st in ground (arith, R.takes s f w, L.log.sent-send s f w)

    rests :
        (st : AgentToServer E.crates) (c : WsClient E) (w : E.World)
        → Greeted (waiting "messages sent") st c w
        → ((trigger E c w).0 ≡ returns tt)
          × Greeted (polling "") st (trigger E c w).1 (trigger E c w).2
    unfolding trigger settle evaluate channel wait ◌>>=◌
    rests st c w h = ground arith

  joins :
      (c : WsClient E) (w : E.World)
      → Blank (connecting nullstr) c w
      → ((trigger E c w).0 ≡ returns tt)
        × ((s : E.Stream) × ((st : AgentToServer E.crates) × Joined s
                (connected "connected")
                st
                (trigger E c w).1
                (trigger E c w).2))
  unfolding trigger settle evaluate channel connect keep_stream on_agent within ◌>>=◌
  joins c w h =
      let (st, made, named, unwell) = first_health E R.hosted false c.agent w h.2 in
      let w₁ = (get_status E c.agent w).2 in
      let (s, dialled) = R.dial c.address w₁ in
      let calm = (get_status-Calm E sent L.unseen settings start).at c.agent w (h.1, h.5) in
      (
        ground (arith, made, dialled),
        (s, (st, ground (arith, made, named, dialled, calm.1, L.sent-connect c.address w₁))),
      )

-- Where dialling and sending work, on a host that is known, a client made by `new` is polling after
-- five triggers, none of which panics. By then it has sent exactly one frame, on the stream that it
-- keeps: its agent state numbered 1.
pub socket_starts_up :
    (E : Env) (L : SocketLog E) (R : Listening E) (settings : ConnectionSettings E.crates)
    {c : WsClient E} (w : E.World)
    → new E settings ≡ returns c
    → let (o, c', w') = repeat 5 (trigger E) c w in
      (o ≡ returns tt)
      × ((s : E.Stream) × ((st : AgentToServer E.crates) × Greeted E L R settings
              (L.sent w)
              s
              (polling "")
              st
              c'
              w'))
unfolding new repeat
socket_starts_up E L R settings {c} w made =
    let z = L.sent w in
    let run = trigger E in
    let (o₁, h₁) = begins E L R settings z c w (ground arith) in
    let c₁ = (run c w).1 in
    let w₁ = (run c w).2 in
    let (o₂, (s, (st, h₂))) = joins E L R settings z c₁ w₁ h₁ in
    let c₂ = (run c₁ w₁).1 in
    let w₂ = (run c₁ w₁).2 in
    let (o₃, h₃) = greets E L R settings z s st c₂ w₂ h₂ in
    let c₃ = (run c₂ w₂).1 in
    let w₃ = (run c₂ w₂).2 in
    let (o₄, h₄) = sends E L R settings z s (with_health E false st) c₃ w₃ h₃ in
    let c₄ = (run c₃ w₃).1 in
    let w₄ = (run c₃ w₃).2 in
    let (o₅, h₅) = rests E L R settings z s (with_health E false st) c₄ w₄ h₄ in
    rw
      (repeat-suc 4 run c w o₁
        ∙ repeat-suc 3 run c₁ w₁ o₂
        ∙ repeat-suc 2 run c₂ w₂ o₃
        ∙ repeat-suc 1 run c₃ w₃ o₄
        ∙ repeat-suc 0 run c₄ w₄ o₅)
      (refl, (s, (with_health E false st, h₅)))
