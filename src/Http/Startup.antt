-- ===== src/Http/Startup.antt =====
-- The start of the HTTP client of src/httpclient/mod.rs against a server that answers: dial,
-- handshake, and on to polling.
use mosfet_rs.Prelude.{
  ◌≡◌, refl, ◌∙◌, false, ◌==◌, none, some, List, [], ◌∷◌, ok, arith, push, length,
}
use mosfet_rs.Exec.{returns, repeat, within, ◌>>=◌}
use mosfet_rs.Env.{Env, Request}
use mosfet_rs.Messages.{AgentToServer, ConnectionSettings}
use mosfet_rs.Machine.{
  State, disconnected, connecting, connected, polling, sending, waiting, nullstr, evaluate,
}
use mosfet_rs.Agent.Hosted.{Hosted, IsUnhealthy, first_status}
use mosfet_rs.Agent.Unseen.{get_status-Calm}
use mosfet_rs.Http.Wire.{HttpClient, on_agent, new, base_headers}
use mosfet_rs.Http.Steps.{connect, queue_handshake, handshake, channel, settle, trigger}
use mosfet_rs.Exec.Steps.{repeat-suc}
use mosfet_rs.Http.Exchange.{Answering, sends_one, rest_over}
use mosfet_rs.Http.Counts.{HttpLog}

-- A host that is known, and a server that is there and answers.
pub record Welcome (E : Env) : Type 0 where
  pub hosted : Hosted E
  pub present :
      (u : E.Url) (w : E.World)
      → (r : E.Response) × ((E.http_head u w).0 ≡ ok r) × ((E.status_code r == 404) ≡ false)
  pub answering : Answering E

module _ (E : Env) (L : HttpLog E) (W : Welcome E) (settings : ConnectionSettings E.crates)
    (address : E.Url) (start : List (Request E.crates)) where
  open L use {sent}

  -- Before the handshake, in state `x`.
  abbrev Blank : State → HttpClient E → E.World → Type 0
  Blank x c w =
      (c.state ≡ x)
      × (c.settings ≡ settings)
      × (c.address ≡ address)
      × (c.agent_state ≡ none)
      × (c.outbox ≡ [])
      × (c.inbox ≡ [])
      × (c.seqno ≡ 0)
      × (sent w ≡ start)

  dials :
      (c : HttpClient E) (w : E.World)
      → Blank (disconnected "") c w
      → ((trigger E c w).0 ≡ returns tt)
        × Blank (connecting nullstr) (trigger E c w).1 (trigger E c w).2
  unfolding trigger settle evaluate channel ◌>>=◌
  dials c w h = ground arith

  connects :
      (c : HttpClient E) (w : E.World)
      → Blank (connecting nullstr) c w
      → ((trigger E c w).0 ≡ returns tt)
        × Blank (connected "remote server present") (trigger E c w).1 (trigger E c w).2
  unfolding trigger settle evaluate channel connect ◌>>=◌
  connects c w h =
      let (r, there, found) = W.present c.address w in
      ground (arith, there, found, L.sent-head c.address w)

  module _ (st : AgentToServer E.crates) where
    -- The handshake with the status `st` waits in the outbox.
    abbrev Greeting : HttpClient E → E.World → Type 0
    Greeting c w =
        (c.state ≡ sending "Handshake enqueued")
        × (c.settings ≡ settings)
        × (c.address ≡ address)
        × (c.agent_state ≡ some st)
        × (c.outbox ≡ st ∷ [])
        × (c.inbox ≡ [])
        × (c.seqno ≡ 0)
        × (sent w ≡ start)

    -- The first request: the status, numbered 1.
    abbrev pub hello : Request E.crates
    hello = record {
      url = address;
      headers = base_headers E settings.api_key;
      body = E.encode (record st { sequence_num = 1 });
      timeout = 10;
    }

    -- The handshake is sent and answered, and the machine is in state `x`.
    abbrev pub Welcomed : State → HttpClient E → E.World → Type 0
    Welcomed x c w =
        (c.state ≡ x)
        × (c.settings ≡ settings)
        × (c.address ≡ address)
        × (c.agent_state ≡ some st)
        × (st.instance_uid ≡ settings.instance_id)
        × IsUnhealthy st.health
        × (c.outbox ≡ [])
        × (length c.inbox ≡ 1)
        × (c.seqno ≡ 1)
        × (sent w ≡ push start hello)

    sends :
        (c : HttpClient E) (w : E.World)
        → st.instance_uid ≡ settings.instance_id
        → IsUnhealthy st.health
        → Greeting c w
        → ((trigger E c w).0 ≡ returns tt)
          × Welcomed (waiting "sent") (trigger E c w).1 (trigger E c w).2
    sends c w named unwell h =
        let (done, made) = sends_one E L.log W.answering st c w h.0 h.4 in
        ground (arith, named, unwell, done, made)

    rests :
        (c : HttpClient E) (w : E.World)
        → Welcomed (waiting "sent") c w
        → ((trigger E c w).0 ≡ returns tt)
          × Welcomed (polling "") (trigger E c w).1 (trigger E c w).2
    rests c w h = ground (arith, rest_over E L.log W.answering c w h.0)

  greets :
      (c : HttpClient E) (w : E.World)
      → Blank (connected "remote server present") c w
      → ((trigger E c w).0 ≡ returns tt)
        × ((st : AgentToServer E.crates) × (st.instance_uid ≡ settings.instance_id)
            × IsUnhealthy st.health
            × Greeting st (trigger E c w).1 (trigger E c w).2)
  unfolding trigger settle evaluate channel handshake queue_handshake on_agent within ◌>>=◌
  greets c w h =
      let (st, first, named, unwell) = first_status E W.hosted c.agent w h.3 in
      let calm = (get_status-Calm E sent L.unseen settings start).at c.agent w (h.1, h.7) in
      (ground (arith, first), (st, ground (arith, named), unwell, ground (arith, first, calm.1)))

-- Against a server that answers, on a host that is known, a client made by `new` is polling after
-- five triggers, none of which panics. By then it has posted exactly one request, its agent state
-- numbered 1, and has one response in its inbox.
pub starts_up :
    (E : Env) (L : HttpLog E) (W : Welcome E) (settings : ConnectionSettings E.crates)
    {c : HttpClient E} (w : E.World)
    → new E settings ≡ returns c
    → let (o, c', w') = repeat 5 (trigger E) c w in
      (o ≡ returns tt)
      × ((st : AgentToServer E.crates) × Welcomed E L W settings c.address
            (L.sent w)
            st
            (polling "")
            c'
            w')
unfolding new repeat
starts_up E L W settings {c} w made =
    let a = c.address in
    let z = L.sent w in
    let run = trigger E in
    let (o₁, h₁) = dials E L W settings a z c w (ground arith) in
    let c₁ = (run c w).1 in
    let w₁ = (run c w).2 in
    let (o₂, h₂) = connects E L W settings a z c₁ w₁ h₁ in
    let c₂ = (run c₁ w₁).1 in
    let w₂ = (run c₁ w₁).2 in
    let (o₃, (st, named, unwell, h₃)) = greets E L W settings a z c₂ w₂ h₂ in
    let c₃ = (run c₂ w₂).1 in
    let w₃ = (run c₂ w₂).2 in
    let (o₄, h₄) = sends E L W settings a z st c₃ w₃ named unwell h₃ in
    let c₄ = (run c₃ w₃).1 in
    let w₄ = (run c₃ w₃).2 in
    let (o₅, h₅) = rests E L W settings a z st c₄ w₄ h₄ in
    rw
      (repeat-suc 4 run c w o₁
        ∙ repeat-suc 3 run c₁ w₁ o₂
        ∙ repeat-suc 2 run c₂ w₂ o₃
        ∙ repeat-suc 1 run c₃ w₃ o₄
        ∙ repeat-suc 0 run c₄ w₄ o₅)
      (refl, (st, h₅))
