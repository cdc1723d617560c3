-- ===== src/Ws/Answering.antt =====
-- One inbound message at the websocket client of src/wsclient/mod.rs, from the frame that `poll`
-- takes to the replies that `send` hands to the stream.
use mathlib.Core.Path.{sym}
use mosfet_rs.Prelude.{
  ℕ, ◌^◌, ◌<◌, ◌≡◌, refl, ◌∙◌, ap, String, true, Option, none, some, List, [], ◌∷◌, ◌++◌, Result,
  ok, err, arith, is_empty, if◌then◌else◌,
}
use mosfet_rs.Exec.{Exec, Outcome, returns, repeat, within, ◌>>=◌}
use mosfet_rs.Env.{Env}
use mosfet_rs.Util.Clock.{Clock}
use mosfet_rs.Messages.{AgentHealth, AgentToServer, ConnectionSettings}
use mosfet_rs.Machine.{StateResponse, polling, sending, reply, nothing, evaluate}
use mosfet_rs.Agent.{
  Agent, with_health, set_health, pending_response, handle_message, wants_full_state,
}
use mosfet_rs.Agent.Report.{set_health_lem}
use mosfet_rs.Agent.Dispatch.{CallLog, asks_us, Entry, Happens, events}
use mosfet_rs.Agent.Dispatch.Handling.{handle_message_does}
use mosfet_rs.Agent.Unseen.{set_health-Calm, handle_message-Calm}
use mosfet_rs.Ws.{
  WsClient, on_agent, finish_poll, poll, channel, settle, trigger, received, process_message,
  process_bytes, process_binary, process_frame,
}
use mosfet_rs.Ws.Inbound.{message, inbound, decoded, bytes_of, timed, read, poll_reads}
use mosfet_rs.Ws.Counts.{SocketLog}
use mosfet_rs.Ws.Sending.{Answered, answers}
use mosfet_rs.Agent.Loop.{with_outbox, queued_by, run_on_loop_lem, rounds_for}

module _ (E : Env) where
  -- The state of the agent once a message is handled.
  abbrev pub state_after :
      CallLog E
      → ConnectionSettings E.crates
      → E.ServerToAgent
      → AgentToServer E.crates
      → AgentToServer E.crates
  state_after C settings m st =
      if wants_full_state E m
      then if asks_us E C settings m then with_health E true st else st
      else st

  -- The end of `poll`: `on_loop` is asked too, and the outbox decides the answer.
  finish_poll_lem :
      (c : WsClient E) (v : E.World)
      → let (r, w) = E.callbacks.on_loop v in
        let ms = c.outbox ++ queued_by E r in
        finish_poll E none c v ≡ (
          returns (ok (if is_empty ms then nothing else reply "messages pending")),
          record c { agent = with_outbox E c.agent ms },
          w,
        )
  unfolding finish_poll on_agent within pending_response ◌>>=◌
  finish_poll_lem c v = rw (run_on_loop_lem E c.agent v) refl

  -- What `poll` does with a frame that holds a message.
  module _ (m : E.ServerToAgent) where
    abbrev handled : Exec E.World (WsClient E) (Option StateResponse)
    handled = on_agent E (handle_message E (set_health E true) m)

    decoded_lem :
        (o : Option E.ServerToAgent) → decoded E o ≡ message m → process_message E o ≡ handled
    unfolding process_message
    decoded_lem none e = cc e
    decoded_lem (some m') e = cc e

    bytes_lem : (o : Option (List ℕ)) → bytes_of E o ≡ message m → process_binary E o ≡ handled
    unfolding process_binary process_bytes
    bytes_lem none e = cc e
    bytes_lem (some []) e = cc e
    bytes_lem (some (b ∷ bs)) e = decoded_lem (E.decode bs) e

    frame_lem :
        (o : Option (Result String E.Frame))
        → inbound E o ≡ message m
        → process_frame E (received E o) ≡ handled
    unfolding process_frame
    frame_lem none e = cc e
    frame_lem (some (err x)) e = cc e
    frame_lem (some (ok frame)) e = bytes_lem (E.as_binary frame) e

  module _ (L : SocketLog E) (s : E.Stream)
      (takes : (f : E.Frame) (w : E.World) → (E.ws_send s f w).0 ≡ ok tt) where
    open L use {sent}

    module _ (C : CallLog E) (T : Clock E) (settings : ConnectionSettings E.crates)
        (m : E.ServerToAgent) where
      -- The agent and the world once the message is handled.
      abbrev pub run : WsClient E → E.World → Outcome (Option StateResponse) × Agent E × E.World
      run c w = handle_message E (set_health E true) m c.agent (read E s w)

      -- The outbox once `on_loop` has been asked too.
      abbrev pub waiting_then : WsClient E → E.World → List (AgentToServer E.crates)
      waiting_then c w = (run c w).1.outbox ++ queued_by E (E.callbacks.on_loop (run c w).2).0

      poll_lem :
          (c : WsClient E) (w : E.World) {st : AgentToServer E.crates} {h : AgentHealth}
          → c.settings ≡ settings
          → c.agent_state ≡ some st
          → st.health ≡ some h
          → h.healthy ≡ true
          → c.outbox ≡ []
          → c.stream ≡ some s
          → inbound E (E.ws_next s (timed E w)).0 ≡ message m
          → let ms = waiting_then c w in
            poll E c w ≡ (
              returns (ok (if is_empty ms then nothing else reply "messages pending")),
              record c { agent = with_outbox E (run c w).1 ms },
              (E.callbacks.on_loop (run c w).2).1,
            )
      unfolding on_agent within ◌>>=◌
      poll_lem c w {st} owner has_state has_health well empty there holds =
          let done =
            (handle_message_does E C settings m (set_health E true) (with_health E true)
              (set_health_lem E true) st c.agent (read E s w) owner has_state).0 in
          poll_reads E T c w s has_state has_health well empty there
          ∙ rw (frame_lem m (E.ws_next s (timed E w)).0 holds, done)
              (finish_poll_lem (record c { agent = (run c w).1 }) (run c w).2)

      -- The client after that trigger.
      abbrev pub polled : String → WsClient E → E.World → WsClient E
      polled x c w =
          let ms = waiting_then c w in
          record c {
            agent = with_outbox E (run c w).1 ms;
            state = if is_empty ms then polling x else sending "messages pending";
          }

      pub polls :
          (c : WsClient E) (w : E.World) {x : String} {st : AgentToServer E.crates}
          {h : AgentHealth}
          → c.settings ≡ settings
          → c.state ≡ polling x
          → c.agent_state ≡ some st
          → st.health ≡ some h
          → h.healthy ≡ true
          → c.outbox ≡ []
          → c.stream ≡ some s
          → inbound E (E.ws_next s (timed E w)).0 ≡ message m
          → trigger E c w ≡ (returns tt, polled x c w, (E.callbacks.on_loop (run c w).2).1)
      unfolding trigger settle evaluate channel ◌>>=◌
      polls c w owner at has_state has_health well empty there holds =
          ground (arith, at, poll_lem c w owner has_state has_health well empty there holds)

      pub unseen_yet :
          (c : WsClient E) (w : E.World)
          → c.settings ≡ settings
          → sent (E.callbacks.on_loop (run c w).2).1 ≡ sent w
      unseen_yet c w owner =
          let calm =
            (handle_message-Calm E sent L.unseen settings (sent w) (set_health E true) m
                (set_health-Calm E sent L.unseen settings (sent w) true)).at
              c.agent (read E s w) (owner, L.sent-next s (timed E w) ∙ L.unseen.now w) in
          L.unseen.on_loop (run c w).2 ∙ calm.1

      -- What has become of the message `m` once its replies are sent.
      pub run-Answered :
          (c : WsClient E) (w : E.World) {x : String} {st : AgentToServer E.crates}
          {h : AgentHealth}
          → c.settings ≡ settings
          → c.state ≡ polling x
          → c.agent_state ≡ some st
          → st.health ≡ some h
          → h.healthy ≡ true
          → c.outbox ≡ []
          → c.stream ≡ some s
          → c.seqno < 2 ^ 64
          → inbound E (E.ws_next s (timed E w)).0 ≡ message m
          → let v = (run c w).2 in
            let ms = waiting_then c w in
            (ls : List (Entry E)) × (qs : List (AgentToServer E.crates)) × (C.calls v
              ≡ C.calls (read E s w) ++ ls)
            × Happens E C settings m (events E C settings m (with_health E true st)) ls qs
            × (ms ≡ qs ++ queued_by E (E.callbacks.on_loop v).0)
            × Answered E L s
                (state_after C settings m st)
                ms
                c
                w
                (repeat (rounds_for E ms) (trigger E) c w)
      run-Answered c w {x} {st} owner at has_state has_health well empty there small holds =
          let (done, kept, state, (ls, qs, queued, heard, happened)) =
            handle_message_does E C settings m (set_health E true) (with_health E true)
              (set_health_lem E true) st c.agent (read E s w) owner has_state in
          let v = (run c w).2 in
          (
            ls,
            qs,
            heard,
            happened,
            ap (λ ms. ms ++ queued_by E (E.callbacks.on_loop v).0)
                (queued ∙ ap (λ ms. ms ++ qs) empty),
            answers E L s takes (waiting_then c w) (run c w).1 x c w (E.callbacks.on_loop v).1
                (kept ∙ sym owner) state there small (unseen_yet c w owner)
                (polls c w owner at has_state has_health well empty there holds),
          )
