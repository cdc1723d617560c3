-- ===== src/Http/Reporting.antt =====
-- The health report of the HTTP client of src/httpclient/mod.rs, from `poll` to the server.
use mosfet_rs.Prelude.{
  ℕ, ◌+◌, ◌%◌, ◌^◌, ◌<◌, ◌≡◌, refl, ◌∙◌, ap, String, false, some, List, [], ◌∷◌, ◌++◌, arith, push,
  length,
}
use mosfet_rs.Exec.{Outcome, returns, repeat, ◌>>=◌}
use mosfet_rs.Exec.Steps.{repeat-suc, repeat-append}
use mosfet_rs.Env.{Env, Request}
use mosfet_rs.Messages.{AgentHealth, AgentToServer, ConnectionSettings}
use mosfet_rs.Machine.{polling, sending, evaluate}
use mosfet_rs.Agent.{Agent}
use mosfet_rs.Agent.Report.{well_again, report}
use mosfet_rs.Http.Wire.{HttpClient, new, base_headers}
use mosfet_rs.Http.Steps.{channel, settle, trigger}
use mosfet_rs.Http.Delivery.{RequestLog, batch}
use mosfet_rs.Http.Polling.{HasState, once, poll_reports_health}
use mosfet_rs.Http.Exchange.{Answering}
use mosfet_rs.Http.Sending.{sends_all}
use mosfet_rs.Http.Counts.{HttpLog}
use mosfet_rs.Http.Startup.{Welcome, hello, starts_up}
use mosfet_rs.Agent.Hosted.{unhealthy_record}

module _ (E : Env) where
  module _ (L : RequestLog E) (W : Answering E) where
    open L use {sent}

    -- A message gets its features from the state, marked or not.
    batch_marked :
        (c d : HttpClient E) (n : ℕ) (ms : List (AgentToServer E.crates))
        {st : AgentToServer E.crates} (h : AgentHealth)
        → c.address ≡ d.address
        → c.settings ≡ d.settings
        → c.agent_state ≡ some (well_again E st h)
        → d.agent_state ≡ some st
        → batch E L c n ms ≡ batch E L d n ms
    batch_marked c d n [] h at owner now before = refl
    batch_marked c d n (m ∷ ms) h at owner now before =
        rw (at, owner, now, before, batch_marked c d (n + 1) ms h at owner now before) refl

    -- The client after the `poll` that makes the report.
    abbrev reporting : HttpClient E → E.World → AgentToServer E.crates → AgentHealth → HttpClient E
    reporting c w st h = record c {
      agent = record c.agent {
        agent_state = some (well_again E st h);
        outbox = push c.outbox (report E c.settings h (L.clock.read w));
      };
      state = sending "flushing queue";
    }

    reports :
        (c : HttpClient E) (w : E.World) {x : String} {st : AgentToServer E.crates}
        {h : AgentHealth}
        → HasState E c st h
        → c.state ≡ polling x
        → h.healthy ≡ false
        → trigger E c w ≡ (returns tt, reporting c w st h, once E w)
    unfolding trigger settle evaluate channel ◌>>=◌
    reports c w has at ill = ground (arith, at, poll_reports_health E L.clock c w has ill)

    -- Against a server whose every response can be read, with a clock that does not stand before
    -- the epoch, a client that polls and is not marked healthy polls again after three triggers,
    -- none of which panics. By then its state is marked healthy, and it has posted what its outbox
    -- held and then one report of its health, one request each, numbered onwards from `seqno`, with
    -- a response for each in its inbox.
    pub health_reported :
        (c : HttpClient E) (w : E.World) {x : String} {st : AgentToServer E.crates}
        {h : AgentHealth}
        → HasState E c st h
        → c.state ≡ polling x
        → h.healthy ≡ false
        → c.seqno < 2 ^ 64
        → let ms = push c.outbox (report E c.settings h (L.clock.read w)) in
          let (o, c', w') = repeat 3 (trigger E) c w in
          (o ≡ returns tt)
          × (c'.state ≡ polling "")
          × (c'.agent ≡ record c.agent { agent_state = some (well_again E st h); outbox = [] })
          × (length c'.inbox ≡ length c.inbox + length ms)
          × (c'.seqno ≡ (c.seqno + length ms) % 2 ^ 64)
          × (sent w' ≡ sent w ++ batch E L c c.seqno ms)
    health_reported c w {x} {st} {h} has at ill small =
        let ms = push c.outbox (report E c.settings h (L.clock.read w)) in
        let c₁ = reporting c w st h in
        let first = reports c w has at ill in
        let (done, rest, owner, (logged, number, inbox)) =
          sends_all E L W c₁ (once E w) refl small in
        rw (repeat-suc 2 (trigger E) c w (ap (λ o. o.0) first), first)
          (
            done,
            rest,
            owner,
            inbox,
            number,
            logged
                ∙ rw (L.sent-now w)
                    (ap (λ rs. sent w ++ rs) (batch_marked c₁ c c.seqno ms h refl refl refl has.0)),
          )

  -- The second request of a client: its health report, numbered 2.
  abbrev pub second :
      ConnectionSettings E.crates
      → E.Url
      → AgentToServer E.crates
      → AgentHealth
      → ℕ
      → Request E.crates
  second settings address st h t = record {
    url = address;
    headers = base_headers E settings.api_key;
    body = E.encode (record (report E settings h t) {
      sequence_num = 2;
      capabilities = st.capabilities;
      flags = st.flags;
    });
    timeout = 10;
  }

  -- From `c` and `w`, a client polls, its state marked healthy, and has posted two requests, its
  -- agent state numbered 1 and its health report numbered 2, with a response for each in its inbox.
  abbrev pub CameUp :
      HttpLog E
      → Welcome E
      → ConnectionSettings E.crates
      → HttpClient E
      → E.World
      → Outcome (Unit {0}) × HttpClient E × E.World
      → Type 0
  CameUp L W settings c w (o, c', w') =
      (o ≡ returns tt)
      × (c'.state ≡ polling "")
      × (c'.outbox ≡ [])
      × (length c'.inbox ≡ 2)
      × (c'.seqno ≡ 2)
      × ((st : AgentToServer E.crates) × ((h : AgentHealth) × ((t : ℕ) × (st.instance_uid
                ≡ settings.instance_id)
              × (c'.agent_state ≡ some (well_again E st h))
              × (L.sent w'
                  ≡ push (push (L.sent w) (hello E L W settings c.address (L.sent w) st))
                      (second settings c.address st h t)))))

  -- Against a server that answers, on a host that is known, a client made by `new` is polling after
  -- eight triggers, none of which panics. By then its state is marked healthy, and it has posted
  -- two requests, its agent state numbered 1 and its health report numbered 2, with a response for
  -- each in its inbox.
  pub comes_up :
      (L : HttpLog E) (W : Welcome E) (settings : ConnectionSettings E.crates) {c : HttpClient E}
      (w : E.World)
      → new E settings ≡ returns c
      → CameUp L W settings c w (repeat 8 (trigger E) c w)
  comes_up L W settings {c} w made =
      let (o₅, (st, (at, owner, address, there, named, unwell, empty, one, number, logged))) =
        starts_up E L W settings w made in
      let c₅ = (repeat 5 (trigger E) c w).1 in
      let w₅ = (repeat 5 (trigger E) c w).2 in
      let (h, has, ill) = unhealthy_record st.health unwell in
      let (o₈, rest, agent, inbox, count, posted) =
        health_reported L.log W.answering c₅ w₅ (there, has) at ill (omega arith) in
      rw (repeat-append 3 (trigger E) 5 c w o₅) (
        o₈,
        rest,
        ap (λ (a : Agent E). a.outbox) agent,
        inbox ∙ rw (one, empty) (omega arith),
        count ∙ rw (number, empty) (omega arith),
        (
          st,
          (
            h,
            (
              L.log.clock.read w₅,
              named,
              ap (λ (a : Agent E). a.agent_state) agent,
              posted ∙ rw (logged, empty, number, address, owner, there) refl,
            ),
          ),
        ),
      )
