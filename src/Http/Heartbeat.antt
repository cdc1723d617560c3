-- ===== src/Http/Heartbeat.antt =====
-- The heartbeat of the HTTP client of src/httpclient/mod.rs, from the idle `poll` back to polling.
use mosfet_rs.Prelude.{
  ◌+◌, ◌%◌, ◌^◌, ◌≤◌, ◌≡◌, refl, sym, ap, ◌∙◌, String, true, [], ◌∷◌, arith, push, length,
}
use mosfet_rs.Exec.{returns, repeat, ◌>>=◌}
use mosfet_rs.Env.{Env}
use mosfet_rs.Messages.{AgentToServer, AgentHealth}
use mosfet_rs.Machine.{polling, sending, evaluate}
use mosfet_rs.Http.Wire.{HttpClient}
use mosfet_rs.Http.Steps.{server_poll_delay, channel, settle, trigger}
use mosfet_rs.Http.Delivery.{RequestLog}
use mosfet_rs.Http.Polling.{HasState, heartbeat, with_outbox, twice, read_clock, poll_heartbeat}
use mosfet_rs.Http.Exchange.{Answering, next_request, sends_one, rest_over}

module _ (E : Env) (L : RequestLog E) (W : Answering E) where
  open L use {sent}

  -- The client once `poll` has queued the heartbeat.
  abbrev pub beating : HttpClient E → HttpClient E
  beating c = record (with_outbox E c (heartbeat E c ∷ [])) { state = sending "server poll" }

  pub beats :
      (c : HttpClient E) (w : E.World) {x : String} {st : AgentToServer E.crates} {h : AgentHealth}
      → HasState E c st h
      → c.state ≡ polling x
      → h.healthy ≡ true
      → c.outbox ≡ []
      → c.last_sent_timestamp + server_poll_delay ≤ read_clock E L.clock w
      → trigger E c w ≡ (returns tt, beating c, twice E w)
  unfolding trigger settle evaluate channel ◌>>=◌
  beats c w has at well empty due =
      ground (arith, at, poll_heartbeat E L.clock c w has well empty due)

  -- Against a server that answers, with a clock not before the epoch, a healthy client that polls
  -- with an empty outbox, 30 seconds or more after its last message, is polling again after three
  -- triggers, none of which panics: it has posted exactly one request, for a message that has the
  -- instance id, and stamped upon sending the next number and the capabilities and flags of the
  -- state, but nothing else, has one response more in its inbox, and has its agent part as
  -- before.
  pub heartbeat_cycle :
      (c : HttpClient E) (w : E.World) {x : String} {st : AgentToServer E.crates} {h : AgentHealth}
      → HasState E c st h
      → c.state ≡ polling x
      → h.healthy ≡ true
      → c.outbox ≡ []
      → c.last_sent_timestamp + server_poll_delay ≤ read_clock E L.clock w
      → let (o, c', w') = repeat 3 (trigger E) c w in
        (o ≡ returns tt)
        × (c'.state ≡ polling "")
        × (c'.agent ≡ c.agent)
        × (length c'.inbox ≡ length c.inbox + 1)
        × (c'.seqno ≡ (c.seqno + 1) % 2 ^ 64)
        × (sent w' ≡ push (sent w) (next_request E L W c (heartbeat E c)))
  unfolding repeat ◌>>=◌
  heartbeat_cycle c w has at well empty due =
      let m = heartbeat E c in
      let w₁ = twice E w in
      let (o₂, (s, a, owner, more, number, logged)) = sends_one E L W m (beating c) w₁ refl refl in
      let c₂ = (trigger E (beating c) w₁).1 in
      let w₂ = (trigger E (beating c) w₁).2 in
      rw (beats c w has at well empty due, o₂, rest_over E L W c₂ w₂ s)
        (
          refl,
          refl,
          owner ∙ ap (λ ms. record c.agent { outbox = ms }) (sym empty),
          more,
          number,
          logged ∙ ap (λ ps. push ps (next_request E L W c m)) (L.sent-now _ ∙ L.sent-now w),
        )
