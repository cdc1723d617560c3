-- ===== src/Http/Starving.antt =====
-- The inbox of the HTTP client of src/httpclient/mod.rs under a server that asks for the full state
-- in every response: what waits at the bottom of the inbox goes on waiting.
use mathlib.Core.List.{append_assoc}
use mosfet_rs.Prelude.{
  ℕ, zero, suc, ◌+◌, ◌^◌, ◌<◌, ◌≡◌, refl, ◌∙◌, ap, inl, inr, String, true, some, List, [], ◌∷◌,
  ◌++◌, arith, push, is_empty, lt-or-le, if◌then◌else◌,
}
use mosfet_rs.Exec.{returns, repeat, ◌>>=◌}
use mosfet_rs.Exec.Steps.{repeat-suc}
use mosfet_rs.Env.{Env}
use mosfet_rs.Messages.{AgentHealth, AgentToServer, ConnectionSettings}
use mosfet_rs.Machine.{polling, sending}
use mosfet_rs.Agent.{Agent}
use mosfet_rs.Agent.Dispatch.{CallLog}
use mosfet_rs.Http.Wire.{HttpClient}
use mosfet_rs.Http.Steps.{trigger, server_poll_delay}
use mosfet_rs.Http.Counts.{HttpLog}
use mosfet_rs.Http.Delivery.{taken}
use mosfet_rs.Http.Polling.{read_clock, twice}
use mosfet_rs.Http.Heartbeat.{beats, beating}
use mosfet_rs.Http.Exchange.{Answering}
use mosfet_rs.Http.Sending.{sends_all}
use mosfet_rs.Http.Answering.{run, handled, emptied, polls}
use mosfet_rs.Http.Piling.{Demanding, Burdened, Filled, send_all-Piled, something_queued, piles}

module _ (E : Env) (L : HttpLog E) (W : Answering E) (C : CallLog E)
    (settings : ConnectionSettings E.crates) (demands : Demanding E C settings) where
  posts :
      (st : AgentToServer E.crates) (older : List E.ServerToAgent) (c : HttpClient E) (w : E.World)
      {x : String}
      → c.state ≡ sending x
      → c.agent_state ≡ some st
      → c.settings ≡ settings
      → c.seqno < 2 ^ 64
      → Filled c.outbox
      → ((middle : List E.ServerToAgent) × (c.inbox ≡ older ++ middle))
      → let (o, c', w') = repeat 2 (trigger E) c w in
        (o ≡ returns tt) × Burdened E C settings st older c'
  posts st older c w at has owner small (q, ms, queued) (middle, there) =
      let (done, after, kept, (logged, number, inbox)) = sends_all E L.log W c w at small in
      let (newer, m, mail, asks) =
        send_all-Piled E L W C settings demands ms q (taken E L.log c) w in
      (
        done,
        (
          ("", after),
          ap (λ (b : Agent E). b.agent_state) kept ∙ has,
          ap (λ (b : Agent E). b.settings) kept ∙ owner,
          ap (λ (b : Agent E). b.outbox) kept,
          rw number (omega arith),
          (
            middle ++ newer,
            m,
            piles E L W c w at queued
                ∙ mail
                ∙ ap (λ y. push y m)
                    (ap (λ ns. ns ++ newer) there ∙ append_assoc older middle newer),
            asks,
          ),
        ),
      )

  after_one :
      (st : AgentToServer E.crates) (older : List E.ServerToAgent) (c c₁ : HttpClient E)
      (w w₁ : E.World)
      → trigger E c w ≡ (returns tt, c₁, w₁)
      → (let (o, c', w') = repeat 2 (trigger E) c₁ w₁ in
          (o ≡ returns tt) × Burdened E C settings st older c')
      → let (o, c', w') = repeat 3 (trigger E) c w in
        (o ≡ returns tt) × Burdened E C settings st older c'
  unfolding repeat ◌>>=◌
  after_one st older c c₁ w w₁ first rest = rw first rest

  module _ (st : AgentToServer E.crates) {h : AgentHealth} (recorded : st.health ≡ some h)
      (well : h.healthy ≡ true) (older : List E.ServerToAgent) where
    cycle :
        (c : HttpClient E) (w : E.World)
        → Burdened E C settings st older c
        → let (o, c', w') = repeat 3 (trigger E) c w in
          (o ≡ returns tt) × Burdened E C settings st older c'
    cycle c w ((x, at), has, owner, empty, small, (middle, m, there, asks)) =
        elim (lt-or-le (read_clock E L.log.clock w) (c.last_sent_timestamp + server_poll_delay)) [
          | inl early ↦
              let (kept, state, (ls, qs, queued, heard, happened)) =
                handled E L W C settings m (older ++ middle) c w (has, recorded) owner empty in
              let (q, ms, full) = something_queued E C settings m st ls qs _ asks happened in
              let first =
                polls E L W C settings m (older ++ middle) c w (has, recorded) owner at well empty
                  there early in
              let c₁ : HttpClient E = record (emptied E L W C settings m (older ++ middle) c w) {
                state = sending "messages pending";
              } in
              let w₁ = (E.callbacks.on_loop (run E L W C settings m (older ++ middle) c w).2).1 in
              let pending =
                ap
                  (λ (xs : List (AgentToServer E.crates)). (
                    returns tt,
                    record c₁ {
                      state = if is_empty xs then polling x else sending "messages pending";
                    },
                    w₁,
                  ))
                  (queued ∙ full) in
              after_one st older c c₁ w w₁ (first ∙ pending)
                (posts st older c₁ w₁ refl state kept small (q, ms, queued ∙ full) (middle, refl))
          | inr due ↦
              let first = beats E L.log W c w (has, recorded) at well empty due in
              after_one st older c (beating E L.log W c) w (twice E w) first (
                posts st older (beating E L.log W c) (twice E w) refl has owner small (_, _, refl)
                  (push middle m, there ∙ append_assoc older middle (m ∷ [])))
        ]

    -- Against a server whose every response can be read and carries a message that asks this agent
    -- for its full state, with a clock that does not stand before the epoch, take a healthy client
    -- that polls with an empty outbox and any messages `older` in its inbox, with one that asks for
    -- the state on top of others: after three triggers, as often as one likes, none of which
    -- panics, it is such a client again, with the same state and with `older` untouched at the
    -- bottom of the inbox.
    pub repeat-Burdened :
        (k : ℕ) (c : HttpClient E) (w : E.World)
        → Burdened E C settings st older c
        → let (o, c', w') = repeat k (repeat 3 (trigger E)) c w in
          (o ≡ returns tt) × Burdened E C settings st older c'
    unfolding repeat
    repeat-Burdened zero c w h = (refl, h)
    repeat-Burdened (suc k) c w h =
        let (done, next) = cycle c w h in
        rw (repeat-suc k (repeat 3 (trigger E)) c w done) (repeat-Burdened k _ _ next)
