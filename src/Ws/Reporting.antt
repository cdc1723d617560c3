-- ===== src/Ws/Reporting.antt =====
-- The health report of the websocket client of src/wsclient/mod.rs, from `poll` to the stream.
use mosfet_rs.Prelude.{
  ℕ, ◌+◌, ◌%◌, ◌^◌, ◌<◌, ◌≡◌, refl, ◌∙◌, ap, String, false, some, [], ◌++◌, ok, arith, push,
  is_empty-push, length,
}
use mosfet_rs.Exec.{Outcome, returns, repeat, within, ◌>>=◌}
use mosfet_rs.Exec.Steps.{repeat-suc, repeat-append}
use mosfet_rs.Env.{Env}
use mosfet_rs.Messages.{AgentHealth, AgentToServer, ConnectionSettings}
use mosfet_rs.Machine.{polling, sending, evaluate}
use mosfet_rs.Util.Clock.{Clock}
use mosfet_rs.Agent.{Agent, get_status, get_health, report_health, set_health}
use mosfet_rs.Agent.Hosted.{unhealthy_record}
use mosfet_rs.Agent.Report.{well_again, report}
use mosfet_rs.Ws.{WsClient, on_agent, new, poll, channel, settle, trigger, features_of}
use mosfet_rs.Ws.Counts.{SocketLog}
use mosfet_rs.Ws.Delivery.{frames}
use mosfet_rs.Ws.Sending.{sends_all}
use mosfet_rs.Ws.Startup.{Listening, greeting_frame, socket_starts_up}

module _ (E : Env) (L : SocketLog E) (T : Clock E) where
  open L use {sent}

  -- The client after the `poll` that makes the report.
  abbrev reporting : WsClient E → E.World → AgentToServer E.crates → AgentHealth → WsClient E
  reporting c w st h = record c {
    agent = record c.agent {
      agent_state = some (well_again E st h);
      outbox = push c.outbox (report E c.settings h (T.read w));
    };
    state = sending "flushing queue";
  }

  reports :
      (c : WsClient E) (w : E.World) {x : String} {st : AgentToServer E.crates} {h : AgentHealth}
      → c.agent_state ≡ some st
      → st.health ≡ some h
      → h.healthy ≡ false
      → c.state ≡ polling x
      → trigger E c w ≡ (returns tt, reporting c w st h, (E.now w).1)
  unfolding trigger settle evaluate channel poll on_agent within get_health report_health set_health
      get_status ◌>>=◌
  reports c w {h = h} there has ill at =
      ground (arith, is_empty-push c.outbox (report E c.settings h (T.read w)), T.reads w)

  -- Over a stream that takes every frame, with a clock that does not stand before the epoch, a
  -- client that polls and is not marked healthy polls again after three triggers, none of which
  -- panics. By then its state is marked healthy, and it has sent what its outbox held and then one
  -- report of its health, one frame each, numbered onwards from `seqno`.
  pub socket_health_reported :
      (s : E.Stream) (takes : (f : E.Frame) (w : E.World) → (E.ws_send s f w).0 ≡ ok tt)
      (c : WsClient E) (w : E.World) {x : String} {st : AgentToServer E.crates} {h : AgentHealth}
      → c.agent_state ≡ some st
      → st.health ≡ some h
      → h.healthy ≡ false
      → c.state ≡ polling x
      → c.stream ≡ some s
      → c.seqno < 2 ^ 64
      → let ms = push c.outbox (report E c.settings h (T.read w)) in
        let (o, c', w') = repeat 3 (trigger E) c w in
        (o ≡ returns tt)
        × (c'.state ≡ polling "")
        × (c'.agent ≡ record c.agent { agent_state = some (well_again E st h); outbox = [] })
        × (c'.stream ≡ some s)
        × (c'.seqno ≡ (c.seqno + length ms) % 2 ^ 64)
        × (sent w' ≡ sent w ++ frames E L.log s (features_of E (some st)) c.seqno ms)
  socket_health_reported s takes c w {x} {st} {h} has_state has_health ill at there small =
      let ms = push c.outbox (report E c.settings h (T.read w)) in
      let first = reports c w has_state has_health ill at in
      let (done, (rest, owner, kept, number, logged)) =
        sends_all E L s takes (reporting c w st h) (E.now w).1 refl there small in
      rw (repeat-suc 2 (trigger E) c w (ap (λ o. o.0) first), first)
        (
          done,
          rest,
          owner,
          kept,
          number,
          logged
              ∙ ap (λ x. x ++ frames E L.log s (features_of E (some st)) c.seqno ms)
                  (L.unseen.now w),
        )

-- The second frame of a client: its health report, numbered 2.
abbrev pub second_frame :
    (E : Env) → ConnectionSettings E.crates → AgentToServer E.crates → AgentHealth → ℕ → E.Frame
second_frame E settings st h t = E.binary (
    E.encode (record (report E settings h t) {
      sequence_num = 2;
      capabilities = st.capabilities;
      flags = st.flags;
    }))

-- From `w`, a client polls, its state marked healthy, and has sent two frames on the stream that it
-- keeps, its agent state numbered 1 and its health report numbered 2.
abbrev pub CameUp :
    (E : Env)
    → SocketLog E
    → Listening E
    → ConnectionSettings E.crates
    → E.World
    → Outcome (Unit {0}) × WsClient E × E.World
    → Type 0
CameUp E L R settings w (o, c', w') =
    (o ≡ returns tt)
    × (c'.state ≡ polling "")
    × (c'.outbox ≡ [])
    × (c'.seqno ≡ 2)
    × ((s : E.Stream) × ((st : AgentToServer E.crates) × ((h : AgentHealth) × ((t : ℕ)
              × (st.instance_uid ≡ settings.instance_id)
              × (c'.agent_state ≡ some (well_again E st h))
              × (c'.stream ≡ some s)
              × (L.sent w'
                  ≡ push (push (L.sent w) (s, greeting_frame E L R settings (L.sent w) s st))
                      (s, second_frame E settings st h t))))))

-- Where dialling and sending work, on a host that is known, a client made by `new` is polling after
-- eight triggers, none of which panics. By then its state is marked healthy, and it has sent two
-- frames on the stream that it keeps, its agent state numbered 1 and its health report numbered 2.
pub socket_comes_up :
    (E : Env) (L : SocketLog E) (R : Listening E) (settings : ConnectionSettings E.crates)
    {c : WsClient E} (w : E.World)
    → new E settings ≡ returns c
    → CameUp E L R settings w (repeat 8 (trigger E) c w)
socket_comes_up E L R settings {c} w made =
    let (o₅, (s, (st, (at, owner, there, state, named, unwell, empty, number, logged)))) =
      socket_starts_up E L R settings w made in
    let c₅ = (repeat 5 (trigger E) c w).1 in
    let w₅ = (repeat 5 (trigger E) c w).2 in
    let T = R.hosted.clock in
    let (h, has, ill) = unhealthy_record st.health unwell in
    let (o₈, rest, agent, kept, count, said) =
      socket_health_reported E L T s (R.takes s) c₅ w₅ state has ill at there (omega arith) in
    rw (repeat-append 3 (trigger E) 5 c w o₅) (
      o₈,
      rest,
      ap (λ (a : Agent E). a.outbox) agent,
      count ∙ rw (number, empty) (omega arith),
      (
        s,
        (
          st,
          (
            h,
            (
              T.read w₅,
              named,
              ap (λ (a : Agent E). a.agent_state) agent,
              kept,
              said ∙ rw (logged, empty, number, owner) refl,
            ),
          ),
        ),
      ),
    )
