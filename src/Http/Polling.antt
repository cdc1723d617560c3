-- ===== src/Http/Polling.antt =====
-- `poll` of src/httpclient/mod.rs: the report of the client's own health, the heartbeat after 30
-- idle seconds, and the quiet rounds in between.
use mosfet_rs.Prelude.{
  ℕ, ◌+◌, ◌≤◌, ◌<◌, ◌≡◌, true, false, some, List, [], ◌∷◌, ok, arith, push, is_empty-push, le→leb,
  lt→leb,
}
use mosfet_rs.Exec.{returns, within, ◌>>=◌}
use mosfet_rs.Env.{Env}
use mosfet_rs.Util.Clock.{Clock}
use mosfet_rs.Messages.{AgentHealth, AgentToServer}
use mosfet_rs.Machine.{reply, nothing}
use mosfet_rs.Defaults.{as_u64}
use mosfet_rs.Agent.{get_status, get_health, report_health, set_health}
use mosfet_rs.Http.Wire.{HttpClient, on_agent}
use mosfet_rs.Http.Steps.{poll, poll_idle, server_poll_delay}

module _ (E : Env) where
  -- The agent's state is there, with this health record.
  abbrev pub HasState : HttpClient E → AgentToServer E.crates → AgentHealth → Type 0
  HasState c st h = (c.agent_state ≡ some st) × (st.health ≡ some h)

  -- The world after the clock readings of `get_health` and `poll_idle`.
  abbrev pub once : E.World → E.World
  once w = (E.now w).1

  abbrev pub twice : E.World → E.World
  twice w = (E.now (once w)).1

  abbrev pub heartbeat : HttpClient E → AgentToServer E.crates
  heartbeat c = record E.message_default { instance_uid = c.settings.instance_id }

  abbrev pub with_outbox : HttpClient E → List (AgentToServer E.crates) → HttpClient E
  with_outbox c ms = record c { agent = record c.agent { outbox = ms } }

-- With a clock that does not stand before the epoch.
module _ (E : Env) (T : Clock E) where
  -- The second reading, which `poll` compares with the time of the last message.
  abbrev pub read_clock : E.World → ℕ
  read_clock w = T.read (once E w)

  module _ (c : HttpClient E) (w : E.World) {st : AgentToServer E.crates} {h : AgentHealth}
      (has : HasState E c st h) where
    -- A healthy client with nothing to send and 30 seconds after the last message queues exactly
    -- one message, empty but for its instance id, and asks to send.
    pub poll_heartbeat :
        h.healthy ≡ true
        → c.outbox ≡ []
        → c.last_sent_timestamp + server_poll_delay ≤ read_clock w
        → poll E c w
          ≡ (returns (ok (reply "server poll")), with_outbox E c (heartbeat E c ∷ []), twice E w)
    unfolding poll poll_idle on_agent within get_health report_health ◌>>=◌
    poll_heartbeat well empty due = ground (arith, le→leb _ _ due, T.reads w, T.reads (once E w))

    -- Before that time, with an empty inbox, the same client changes nothing and reports nothing,
    -- and calls no callback: only the clock is read.
    poll_quiet :
        h.healthy ≡ true
        → c.outbox ≡ []
        → c.inbox ≡ []
        → read_clock w < c.last_sent_timestamp + server_poll_delay
        → poll E c w ≡ (returns (ok nothing), c, twice E w)
    unfolding poll poll_idle on_agent within get_health report_health ◌>>=◌
    poll_quiet well empty nobody early =
        ground (arith, lt→leb _ _ early, T.reads w, T.reads (once E w))

    abbrev pub marked : AgentHealth
    marked = record h { healthy = true }

    -- The health report: the record with the time of the first clock reading.
    abbrev pub health_report : AgentToServer E.crates
    health_report = record E.message_default {
      instance_uid = c.settings.instance_id;
      health = some (record h { healthy = true; start_time_unix_nano = as_u64 (T.read w) });
    }

    -- A client that is not marked healthy marks its state healthy, queues one report of it behind
    -- what is queued, and asks to send; the inbox waits.
    pub poll_reports_health :
        h.healthy ≡ false
        → poll E c w ≡ (
          returns (ok (reply "flushing queue")),
          record c {
            agent = record c.agent {
              agent_state = some (record st { health = some marked });
              outbox = push c.outbox health_report;
            };
          },
          once E w,
        )
    unfolding poll on_agent within get_health report_health set_health get_status ◌>>=◌
    poll_reports_health ill = ground (arith, is_empty-push c.outbox health_report, T.reads w)
