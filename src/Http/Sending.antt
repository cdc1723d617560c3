-- ===== src/Http/Sending.antt =====
-- `send` of src/httpclient/mod.rs against a server whose every response can be read, and the way
-- back to polling.
use mathlib.Core.List.{append-nil, append_assoc}
use mosfet_rs.Prelude.{
  ℕ, suc, ◌+◌, ◌%◌, ◌^◌, ◌<◌, ◌≡◌, refl, sym, ◌∙◌, ap, String, some, List, [], ◌∷◌, ◌++◌, Result,
  ok, err, arith, push, false, take, length, is_empty, if◌then◌else◌,
}
use mosfet_rs.Exec.{Outcome, Fault, returns, panics, repeat, ◌>>=◌}
use mosfet_rs.Exec.Keeps.{Ends}
use mosfet_rs.Env.{Env}
use mosfet_rs.Messages.{AgentToServer, ApiClientError}
use mosfet_rs.Machine.{StateResponse, polling, sending, reply, error, nothing, evaluate}
use mosfet_rs.Agent.{Agent}
use mosfet_rs.Agent.Loop.{with_outbox, rounds_for}
use mosfet_rs.Http.Wire.{HttpClient, send_and_receive}
use mosfet_rs.Http.Steps.{send, send_all, store_or_stop, wait, channel, settle, trigger}
use mosfet_rs.Http.Delivery.{RequestLog, Delivered, batch, taken, bumped, send_delivers}
use mosfet_rs.Http.Exchange.{Answering, exchange}

module _ (E : Env) (L : RequestLog E) where
  open L use {sent}

  batch_same :
      (c d : HttpClient E) (n : ℕ) (ms : List (AgentToServer E.crates))
      → c.address ≡ d.address
      → c.settings ≡ d.settings
      → c.agent_state ≡ d.agent_state
      → batch E L c n ms ≡ batch E L d n ms
  batch_same c d n [] at owner there = refl
  batch_same c d n (m ∷ ms) at owner there =
      cc (at, owner, there, batch_same c d (n + 1) ms at owner there)

  -- All of `ms` are posted and answered.
  abbrev pub Posted :
      HttpClient E → E.World → List (AgentToServer E.crates) → HttpClient E → E.World → Type 0
  Posted c w ms c' w' =
      (sent w' ≡ sent w ++ batch E L c c.seqno ms)
      × (c'.seqno ≡ (c.seqno + length ms) % 2 ^ 64)
      × (length c'.inbox ≡ length c.inbox + length ms)

  all_taken :
      (c : HttpClient E) (n : ℕ) (ms : List (AgentToServer E.crates))
      → take (length ms) (batch E L c n ms) ≡ batch E L c n ms
  all_taken c n [] = refl
  all_taken c n (m ∷ ms) = rw (all_taken c (n + 1) ms) refl

  Delivered-Posted :
      (c : HttpClient E) (w : E.World) (ms : List (AgentToServer E.crates))
      (out : Outcome (Result ApiClientError StateResponse) × HttpClient E × E.World)
      → Delivered E L c w ms out
      → out.0 ≡ returns (ok (reply "sent"))
      → Posted c w ms out.1 out.2
  Delivered-Posted c w ms (returns (ok (reply x)), c', w') ((logged, number), inbox) e =
      (logged ∙ ap (λ rs. sent w ++ rs) (all_taken c c.seqno ms), number, inbox)
  Delivered-Posted c w ms (returns (ok (error x)), c', w') h e = cc e
  Delivered-Posted c w ms (returns (ok nothing), c', w') h e = cc e
  Delivered-Posted c w ms (returns (err x), c', w') h e = cc e
  Delivered-Posted c w ms (panics f, c', w') h e = cc e

  Ends-returns :
      {A : Type 0} (Q : HttpClient E → Type 0) (R : Fault → Type 0) {a : A}
      (out : Outcome A × HttpClient E × E.World)
      → Ends (λ r. Q) R out
      → out.0 ≡ returns a
      → Q out.1
  Ends-returns Q R (returns b, c', w') h e = h
  Ends-returns Q R (panics f, c', w') h e = cc e

  module _ (W : Answering E) where
    send_all_answered :
        (ms : List (AgentToServer E.crates)) (c : HttpClient E) (w : E.World)
        → (send_all E ms c w).0 ≡ returns (ok (reply "sent"))
    unfolding send_all store_or_stop ◌>>=◌
    send_all_answered [] c w = refl
    send_all_answered (m ∷ ms) c w =
        let (r, origin, exchanged) = exchange E L W m c w in rw exchanged (send_all_answered ms _ _)

    -- The responses are pushed on top of what is in the inbox.
    send_all_pushes :
        (ms : List (AgentToServer E.crates)) (c : HttpClient E) (w : E.World)
        → (rs : List E.ServerToAgent) × ((send_all E ms c w).1.inbox ≡ c.inbox ++ rs)
          × (length rs ≡ length ms)
    unfolding send_all store_or_stop ◌>>=◌
    send_all_pushes [] c w = ([], sym (append-nil _), refl)
    send_all_pushes (m ∷ ms) c w =
        let (r, origin, exchanged) = exchange E L W m c w in
        let c₁ = record (bumped E L c w) { inbox = push c.inbox r } in
        let (rs, pushed, many) = send_all_pushes ms c₁ (send_and_receive E m 10 false c w).2 in
        (r ∷ rs, rw exchanged (pushed ∙ append_assoc c.inbox (r ∷ []) rs), ap (λ n. suc n) many)

    pub send_answered :
        (c : HttpClient E) (w : E.World) → (send E c w).0 ≡ returns (ok (reply "sent"))
    unfolding send ◌>>=◌
    send_answered c w = send_all_answered c.outbox (taken E L c) w

    -- From `sending`, two triggers post the outbox and lead back to `polling`.
    pub sends_all :
        (c : HttpClient E) (w : E.World) {x : String}
        → c.state ≡ sending x
        → c.seqno < 2 ^ 64
        → let (o, c', w') = repeat 2 (trigger E) c w in
          (o ≡ returns tt)
          × (c'.state ≡ polling "")
          × (c'.agent ≡ with_outbox E c.agent [])
          × Posted c w c.outbox c' w'
    unfolding repeat trigger settle evaluate channel wait ◌>>=◌
    sends_all c w at small =
        let (delivered, ends) = send_delivers E L c w small in
        let done = send_answered c w in
        let posted = Delivered-Posted (taken E L c) w c.outbox (send E c w) delivered done in
        let (same, owner) = Ends-returns _ _ (send E c w) ends done in
        ground (arith, at, done, posted, same, owner)

    sends_all_pushes :
        (c : HttpClient E) (w : E.World) {x : String}
        → c.state ≡ sending x
        → (rs : List E.ServerToAgent) × ((repeat 2 (trigger E) c w).1.inbox ≡ c.inbox ++ rs)
          × (length rs ≡ length c.outbox)
    unfolding repeat trigger settle evaluate channel wait send ◌>>=◌
    sends_all_pushes c w at =
        let done = send_answered c w in
        let (rs, pushed, many) = send_all_pushes c.outbox (taken E L c) w in
        (rs, ground (arith, at, done, pushed), many)

  -- `ms` are posted, numbered onwards from `seqno` of `c`, each response is in the inbox behind
  -- `older`, and the client polls again.
  abbrev pub Answered :
      AgentToServer E.crates
      → List (AgentToServer E.crates)
      → List E.ServerToAgent
      → HttpClient E
      → E.World
      → Outcome (Unit {0}) × HttpClient E × E.World
      → Type 0
  Answered st ms older c w (o, c', w') =
      (o ≡ returns tt)
      × ((y : String) × (c'.state ≡ polling y))
      × (c'.agent_state ≡ some st)
      × (c'.outbox ≡ [])
      × ((rs : List E.ServerToAgent) × (c'.inbox ≡ older ++ rs) × (length rs ≡ length ms))
      × (c'.seqno ≡ (c.seqno + length ms) % 2 ^ 64)
      × (sent w' ≡ sent w ++ batch E L c c.seqno ms)

  module _ (W : Answering E) where
    pub answers :
        (ms : List (AgentToServer E.crates)) (older : List E.ServerToAgent) (a : Agent E)
        (x : String) (c : HttpClient E) (w w₁ : E.World) {st : AgentToServer E.crates}
        → c.agent_state ≡ some st
        → a.agent_state ≡ some st
        → a.settings ≡ c.settings
        → c.seqno < 2 ^ 64
        → sent w₁ ≡ sent w
        → trigger E c w ≡ (
          returns tt,
          record c {
            agent = with_outbox E a ms;
            inbox = older;
            state = if is_empty ms then polling x else sending "messages pending";
          },
          w₁,
        )
        → Answered st ms older c w (repeat (rounds_for E ms) (trigger E) c w)
    unfolding repeat ◌>>=◌
    answers [] older a x c w w₁ was has owner small quiet first = rw first (
      refl,
      (x, refl),
      has,
      refl,
      ([], sym (append-nil _), refl),
      omega arith,
      quiet ∙ sym (append-nil _),
    )
    answers (m ∷ ms) older a x c w w₁ was has owner small quiet first =
        let c₁ : HttpClient E = record c {
          agent = with_outbox E a (m ∷ ms);
          inbox = older;
          state = sending "messages pending";
        } in
        let (done, at, kept, (logged, number, inbox)) = sends_all W c₁ w₁ refl small in
        rw first (
          done,
          ("", at),
          ap (λ (b : Agent E). b.agent_state) kept ∙ has,
          ap (λ (b : Agent E). b.outbox) kept,
          sends_all_pushes W c₁ w₁ refl,
          number,
          logged
              ∙ rw quiet (
                  ap (λ rs. sent w ++ rs)
                    (batch_same c₁ c c.seqno (m ∷ ms) refl owner (has ∙ sym was))),
        )
