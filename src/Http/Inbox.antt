-- ===== src/Http/Inbox.antt =====
-- The inbox of the HTTP client of src/httpclient/mod.rs: `send` pushes responses at its end, and
-- `poll` takes them from there too.
use mosfet_rs.Prelude.{
  ◌+◌, ◌<◌, ◌≡◌, refl, ap, Bool, if◌then◌else◌, true, false, Option, some, List, [], arith, push,
  pop-push, is_empty-push, lt→leb,
}
use mosfet_rs.Exec.{returns, within, pure, ◌>>=◌}
use mosfet_rs.Env.{Env}
use mosfet_rs.Util.Clock.{Clock}
use mosfet_rs.Messages.{AgentHealth, AgentToServer, ConnectionSettings}
use mosfet_rs.Agent.{Agent, set_state, get_health, report_health, handle_message}
use mosfet_rs.Agent.Dispatch.{CallLog}
use mosfet_rs.Http.Wire.{HttpClient, on_agent}
use mosfet_rs.Http.Steps.{poll, poll_idle, process_inbox, finish_poll, server_poll_delay}
use mosfet_rs.Http.Polling.{HasState, twice, read_clock}

module _ (E : Env) where
  module _ (T : Clock E) (L : CallLog E) (settings : ConnectionSettings E.crates) (c : HttpClient E)
      (w : E.World) {st : AgentToServer E.crates} {h : AgentHealth} (has : HasState E c st h) where
    -- The newest message.
    pub poll_newest :
        (msg : E.ServerToAgent) (older : List E.ServerToAgent)
        → h.healthy ≡ true
        → c.outbox ≡ []
        → c.inbox ≡ push older msg
        → read_clock E T w < c.last_sent_timestamp + server_poll_delay
        → poll E c w
          ≡ (do exit ← on_agent E (handle_message E (pure tt) msg); finish_poll E exit)
              (record c { inbox = older })
              (twice E w)
    unfolding poll poll_idle process_inbox on_agent within get_health report_health ◌>>=◌
    poll_newest msg older well empty waiting early = ground (
      arith,
      lt→leb _ _ early,
      pop-push older msg,
      is_empty-push older msg,
      T.reads w,
      T.reads (E.now w).1,
    )

    -- The transport does nothing to its state before it reports it.
    pub nothing_done :
        (x : AgentToServer E.crates) (a : Agent E) (v : E.World)
        → a.agent_state ≡ some x
        → pure tt a v ≡ (returns tt, set_state E x a, v)
    nothing_done x a v there =
        ap (λ (s : Option (AgentToServer E.crates)). (returns tt, record a { agent_state = s }, v))
          there

    pub same_state : (b d : Bool) → (if b then if d then st else st else st) ≡ st
    same_state true true = refl
    same_state true false = refl
    same_state false d = refl
