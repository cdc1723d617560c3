-- ===== src/Http/Answering.antt =====
-- One inbound message at the HTTP client of src/httpclient/mod.rs, from the inbox that `poll` takes
-- it from to the replies that `send` posts.
use mathlib.Core.Path.{subst}
use mosfet_rs.Prelude.{
  ◌+◌, ◌^◌, ◌<◌, ◌≡◌, refl, sym, ◌∙◌, ap, String, true, Option, none, some, List, [], ◌++◌, ok,
  arith, push, is_empty, if◌then◌else◌,
}
use mosfet_rs.Exec.{Outcome, returns, repeat, pure, within, ◌>>=◌}
use mosfet_rs.Exec.Always.{Always-pure}
use mosfet_rs.Env.{Env}
use mosfet_rs.Messages.{AgentHealth, AgentToServer, ConnectionSettings}
use mosfet_rs.Machine.{StateResponse, polling, sending, reply, nothing, evaluate}
use mosfet_rs.Agent.{Agent, handle_message, pending_response, wants_full_state}
use mosfet_rs.Agent.Dispatch.{CallLog, asks_us, Entry, Happens, events}
use mosfet_rs.Agent.Dispatch.Handling.{handle_message_does}
use mosfet_rs.Agent.Loop.{with_outbox, queued_by, run_on_loop_lem, rounds_for}
use mosfet_rs.Agent.Unseen.{handle_message-Calm}
use mosfet_rs.Http.Wire.{HttpClient, on_agent}
use mosfet_rs.Http.Steps.{poll, finish_poll, server_poll_delay, channel, settle, trigger}
use mosfet_rs.Http.Polling.{HasState, twice, read_clock}
use mosfet_rs.Http.Inbox.{poll_newest, nothing_done, same_state}
use mosfet_rs.Http.Exchange.{Answering}
use mosfet_rs.Http.Counts.{HttpLog}
use mosfet_rs.Http.Sending.{Answered, answers}

module _ (E : Env) where
  -- The end of `poll`: `on_loop` is asked too, and the outbox decides the answer.
  finish_poll_lem :
      (c : HttpClient E) (v : E.World)
      → let (r, w) = E.callbacks.on_loop v in
        let ms = c.outbox ++ queued_by E r in
        finish_poll E none c v ≡ (
          returns (ok (if is_empty ms then nothing else reply "messages pending")),
          record c { agent = with_outbox E c.agent ms },
          w,
        )
  unfolding finish_poll on_agent within pending_response ◌>>=◌
  finish_poll_lem c v = rw (run_on_loop_lem E c.agent v) refl

  module _ (L : HttpLog E) (W : Answering E) (C : CallLog E)
      (settings : ConnectionSettings E.crates) (m : E.ServerToAgent)
      (older : List E.ServerToAgent) where
    open L use {sent}

    -- The agent and the world once the message is handled.
    abbrev pub run : HttpClient E → E.World → Outcome (Option StateResponse) × Agent E × E.World
    run c w = handle_message E (pure tt) m c.agent (twice E w)

    -- The outbox once `on_loop` has been asked too.
    abbrev pub waiting_then : HttpClient E → E.World → List (AgentToServer E.crates)
    waiting_then c w = (run c w).1.outbox ++ queued_by E (E.callbacks.on_loop (run c w).2).0

    -- The client after that `poll`.
    abbrev pub emptied : HttpClient E → E.World → HttpClient E
    emptied c w = record c { agent = with_outbox E (run c w).1 (waiting_then c w); inbox = older }

    poll_lem :
        (c : HttpClient E) (w : E.World) {st : AgentToServer E.crates} {h : AgentHealth}
        → HasState E c st h
        → c.settings ≡ settings
        → h.healthy ≡ true
        → c.outbox ≡ []
        → c.inbox ≡ push older m
        → read_clock E L.log.clock w < c.last_sent_timestamp + server_poll_delay
        → poll E c w ≡ (
          returns (ok (if is_empty (waiting_then c w) then nothing else reply "messages pending")),
          emptied c w,
          (E.callbacks.on_loop (run c w).2).1,
        )
    unfolding on_agent within ◌>>=◌
    poll_lem c w {st} has owner well empty there early =
        let T = L.log.clock in
        let done =
          (handle_message_does E C settings m (pure tt) (λ x. x)
            (nothing_done E T C settings c w has) st c.agent (twice E w) owner has.0).0 in
        poll_newest E T C settings c w has m older well empty there early
        ∙ rw done (finish_poll_lem (record c { agent = (run c w).1; inbox = older }) (run c w).2)

    pub polls :
        (c : HttpClient E) (w : E.World) {x : String} {st : AgentToServer E.crates}
        {h : AgentHealth}
        → HasState E c st h
        → c.settings ≡ settings
        → c.state ≡ polling x
        → h.healthy ≡ true
        → c.outbox ≡ []
        → c.inbox ≡ push older m
        → read_clock E L.log.clock w < c.last_sent_timestamp + server_poll_delay
        → trigger E c w ≡ (
          returns tt,
          record (emptied c w) {
            state = if is_empty (waiting_then c w) then polling x else sending "messages pending";
          },
          (E.callbacks.on_loop (run c w).2).1,
        )
    unfolding trigger settle evaluate channel ◌>>=◌
    polls c w has owner at well empty there early =
        ground (arith, at, poll_lem c w has owner well empty there early)

    unseen_yet :
        (c : HttpClient E) (w : E.World)
        → c.settings ≡ settings
        → sent (E.callbacks.on_loop (run c w).2).1 ≡ sent w
    unseen_yet c w owner =
        let calm =
          (handle_message-Calm E sent L.unseen settings (sent w) (pure tt) m (Always-pure tt)).at
            c.agent (twice E w) (owner, L.unseen.now _ ∙ L.unseen.now w) in
        L.unseen.on_loop (run c w).2 ∙ calm.1

    -- The agent once the message is handled, and the callbacks that were called for it.
    pub handled :
        (c : HttpClient E) (w : E.World) {st : AgentToServer E.crates} {h : AgentHealth}
        → HasState E c st h
        → c.settings ≡ settings
        → c.outbox ≡ []
        → let (o, a, v) = run c w in
          (a.settings ≡ settings)
          × (a.agent_state ≡ some st)
          × ((ls : List (Entry E)) × (qs : List (AgentToServer E.crates)) × (waiting_then c w
                ≡ qs ++ queued_by E (E.callbacks.on_loop v).0)
              × (C.calls v ≡ C.calls (twice E w) ++ ls)
              × Happens E C settings m (events E C settings m st) ls qs)
    handled c w {st} has owner empty =
        let T = L.log.clock in
        let (done, kept, state, (ls, qs, queued, heard, happened)) =
          handle_message_does E C settings m (pure tt) (λ x. x)
            (nothing_done E T C settings c w has) st c.agent (twice E w) owner has.0 in
        (
          kept,
          state
              ∙ ap some (
                  same_state E T C settings c w has (wants_full_state E m)
                    (asks_us E C settings m)),
          (
            ls,
            qs,
            ap (λ ms. ms ++ queued_by E (E.callbacks.on_loop (run c w).2).0)
                (queued ∙ ap (λ ms. ms ++ qs) empty),
            heard,
            happened,
          ),
        )

    -- Against a server whose every response can be read, with a clock that does not stand before
    -- the epoch and an early one, a healthy client that polls with an empty outbox and messages
    -- waiting polls again after one trigger, or after three if anything is queued; none panics.
    -- The newest message is taken: the callbacks are asked as `events` says and `on_loop` after
    -- them, and one request has been posted for each reply and for the state that is asked for,
    -- in that order, numbered onwards from `seqno`. The older messages stay where they are in the
    -- inbox, with as many new ones behind them as requests were posted.
    pub mail-Answered :
        (c : HttpClient E) (w : E.World) {x : String} {st : AgentToServer E.crates}
        {h : AgentHealth}
        → HasState E c st h
        → c.settings ≡ settings
        → c.state ≡ polling x
        → h.healthy ≡ true
        → c.outbox ≡ []
        → c.inbox ≡ push older m
        → c.seqno < 2 ^ 64
        → read_clock E L.log.clock w < c.last_sent_timestamp + server_poll_delay
        → (v : E.World) × (ls : List (Entry E)) × (qs : List (AgentToServer E.crates)) × (C.calls v
            ≡ C.calls (twice E w) ++ ls)
          × Happens E C settings m (events E C settings m st) ls qs
          × (let ms = qs ++ queued_by E (E.callbacks.on_loop v).0 in
              Answered E L.log st ms older c w (repeat (rounds_for E ms) (trigger E) c w))
    mail-Answered c w {x} {st} has owner at well empty there small early =
        let (kept, state, (ls, qs, same, heard, happened)) = handled c w has owner empty in
        let v = (run c w).2 in
        (
          v,
          ls,
          qs,
          heard,
          happened,
          subst (λ ms. Answered E L.log st ms older c w (repeat (rounds_for E ms) (trigger E) c w))
              same
              (answers E L.log W (waiting_then c w) older (run c w).1 x c w
                (E.callbacks.on_loop v).1 has.0 state (kept ∙ sym owner) small
                (unseen_yet c w owner) (polls c w has owner at well empty there early)),
        )
