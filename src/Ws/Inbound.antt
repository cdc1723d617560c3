-- ===== src/Ws/Inbound.antt =====
-- `poll` of src/wsclient/mod.rs by what the stream gives: a message, a frame that is passed over,
-- or a binary frame without a byte.
use mathlib.Core.Path.{subst}
use mosfet_rs.Prelude.{
  ℕ, String, ◌≡◌, refl, sym, true, Option, none, some, List, [], ◌∷◌, Result, ok, err, arith,
  if◌then◌else◌,
}
use mosfet_rs.Exec.{Outcome, returns, panics, within, bad_slice, ◌>>=◌}
use mosfet_rs.Env.{Env}
use mosfet_rs.Util.Clock.{Clock}
use mosfet_rs.Messages.{AgentHealth, AgentToServer, ApiClientError, ConnectionSettings}
use mosfet_rs.Machine.{StateResponse}
use mosfet_rs.Agent.{
  Agent, with_health, set_health, get_health, report_health, handle_message, wants_full_state,
}
use mosfet_rs.Agent.Report.{set_health_lem}
use mosfet_rs.Agent.Dispatch.{CallLog, asks_us, events, Done, no_return}
use mosfet_rs.Agent.Dispatch.Handling.{handle_message_does}
use mosfet_rs.Ws.{
  WsClient, on_agent, receive, process_message, process_bytes, process_binary, process_frame,
  finish_poll, poll_stream, poll, received,
}

module _ (E : Env) where
  -- What comes off the stream: a message; nothing to act on (no frame since the stream is closed, a
  -- receive error, a frame that is not binary, bytes that do not decode); or a frame without a byte.
  pub data Inbound : Type 0 where
    message : E.ServerToAgent → Inbound
    ignored hollow : Inbound

  abbrev pub decoded : Option E.ServerToAgent → Inbound
  decoded none = ignored
  decoded (some m) = message m

  abbrev pub bytes_of : Option (List ℕ) → Inbound
  bytes_of none = ignored
  bytes_of (some []) = hollow
  bytes_of (some (b ∷ bs)) = decoded (E.decode bs)

  abbrev pub inbound : Option (Result String E.Frame) → Inbound
  inbound none = ignored
  inbound (some (err e)) = ignored
  inbound (some (ok frame)) = bytes_of (E.as_binary frame)

  -- The world once the clock is read, and once a frame is taken from the stream.
  abbrev pub timed : E.World → E.World
  timed w = (E.now w).1

  abbrev pub read : E.Stream → E.World → E.World
  read s w = (E.ws_next s (timed w)).1

  module _ (L : CallLog E) (settings : ConnectionSettings E.crates) (c : WsClient E) (v₀ : E.World)
      (st : AgentToServer E.crates) where
    -- What `poll` does with it.
    abbrev pub Polled :
        Inbound → Outcome (Result ApiClientError StateResponse) × WsClient E × E.World → Type 0
    Polled ignored out = out ≡ finish_poll E none c v₀
    Polled hollow out = out ≡ (panics bad_slice, c, v₀)
    Polled (message m) out =
        (a : Agent E) × (v : E.World) × Done E L settings m c.agent v₀
          (if wants_full_state E m
            then if asks_us E L settings m then with_health E true st else st
            else st)
          no_return (events E L settings m (with_health E true st)) (returns no_return, a, v)
        × (out ≡ finish_poll E none (record c { agent = a }) v)

    process_message_lem :
        (o : Option E.ServerToAgent)
        → c.settings ≡ settings
        → c.agent_state ≡ some st
        → Polled (decoded o) ((do exit ← process_message E o; finish_poll E exit) c v₀)
    unfolding process_message on_agent within ◌>>=◌
    process_message_lem none owner there = refl
    process_message_lem (some m) owner there =
        let run = handle_message E (set_health E true) m c.agent v₀ in
        let (done, kept, state, happened) =
          handle_message_does E L settings m (set_health E true) (with_health E true)
            (set_health_lem E true) st c.agent v₀ owner there in
        (run.1, run.2, (refl, kept, state, happened), rw done refl)

    bytes_lem :
        (o : Option (List ℕ))
        → c.settings ≡ settings
        → c.agent_state ≡ some st
        → Polled (bytes_of o) ((do exit ← process_binary E o; finish_poll E exit) c v₀)
    unfolding process_binary process_bytes ◌>>=◌
    bytes_lem none owner there = refl
    bytes_lem (some []) owner there = refl
    bytes_lem (some (b ∷ bs)) owner there = process_message_lem (E.decode bs) owner there

    process_lem :
        (o : Option (Result String E.Frame))
        → c.settings ≡ settings
        → c.agent_state ≡ some st
        → Polled (inbound o) ((do exit ← process_frame E (received E o); finish_poll E exit) c v₀)
    unfolding process_frame ◌>>=◌
    process_lem none owner there = refl
    process_lem (some (err e)) owner there = refl
    process_lem (some (ok frame)) owner there = bytes_lem (E.as_binary frame) owner there

  pub poll_reads :
      (T : Clock E) (c : WsClient E) (w : E.World) (s : E.Stream) {st : AgentToServer E.crates}
      {h : AgentHealth}
      → c.agent_state ≡ some st
      → st.health ≡ some h
      → h.healthy ≡ true
      → c.outbox ≡ []
      → c.stream ≡ some s
      → poll E c w
        ≡ (do exit ← process_frame E (received E (E.ws_next s (timed w)).0); finish_poll E exit) c
            (read s w)
  unfolding poll poll_stream receive on_agent within get_health report_health ◌>>=◌
  poll_reads T c w s has_state has_health well empty there = ground (arith, T.reads w)

  -- With a stream and a clock that does not stand before the epoch, a healthy client with an empty
  -- outbox reads one frame. A message is handled, its callbacks asked as `events` says and the
  -- state marked healthy if it is asked for; then `on_loop` is called. An empty binary frame is a
  -- panic. All else, a closed stream and a receive error too, only leads on to `on_loop`, with the
  -- client as it was.
  pub socket_poll_reads :
      (T : Clock E) (L : CallLog E) (settings : ConnectionSettings E.crates) (c : WsClient E)
      (w : E.World) (s : E.Stream) {st : AgentToServer E.crates} {h : AgentHealth}
      → c.settings ≡ settings
      → c.agent_state ≡ some st
      → st.health ≡ some h
      → h.healthy ≡ true
      → c.outbox ≡ []
      → c.stream ≡ some s
      → Polled L settings c (read s w) st (inbound (E.ws_next s (timed w)).0) (poll E c w)
  socket_poll_reads T L settings c w s {st} owner has_state has_health well empty there =
      subst (Polled L settings c (read s w) st (inbound (E.ws_next s (timed w)).0))
        (sym (poll_reads T c w s has_state has_health well empty there))
        (process_lem L settings c (read s w) st (E.ws_next s (timed w)).0 owner has_state)
