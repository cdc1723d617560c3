-- ===== src/Ws/Sending.antt =====
-- `send` of src/wsclient/mod.rs over a stream that takes every frame, and the way back to polling.
use mathlib.Core.List.{append-nil}
use mosfet_rs.Prelude.{
  ℕ, ◌+◌, ◌%◌, ◌^◌, ◌<◌, ◌≡◌, refl, sym, ◌∙◌, ap, String, some, List, [], ◌∷◌, ◌++◌, Result, ok,
  err, arith, length, is_empty, if◌then◌else◌,
}
use mosfet_rs.Exec.Always.{
  Always, Always-bind, Always-call, Always-gets, Always-modify, Always-panic, Always-pure,
  Always-unwrap,
}
use mosfet_rs.Exec.{Exec, Outcome, returns, panics, repeat, ◌>>=◌}
use mosfet_rs.Env.{Env}
use mosfet_rs.Messages.{AgentToServer, ApiClientError}
use mosfet_rs.Machine.{polling, sending, reply, evaluate}
use mosfet_rs.Agent.{Agent}
use mosfet_rs.Agent.Loop.{with_outbox, rounds_for}
use mosfet_rs.Ws.{
  WsClient, send, flush, flush_all, to_sink, expect_sent, unwrap_flush, wait, channel, settle,
  trigger, features_of, stamp,
}
use mosfet_rs.Ws.Delivery.{Flushed, frames, numbered, socket_send_delivers}
use mosfet_rs.Ws.Counts.{SocketLog}

module _ (E : Env) where
  module _ (L : SocketLog E) (s : E.Stream) where
    open L use {sent}

    -- `ms` are sent, numbered onwards from `seqno` of `c`, and the client polls again.
    abbrev pub Answered :
        AgentToServer E.crates
        → List (AgentToServer E.crates)
        → WsClient E
        → E.World
        → Outcome (Unit {0}) × WsClient E × E.World
        → Type 0
    Answered st ms c w (o, c', w') =
        (o ≡ returns tt)
        × ((y : String) × (c'.state ≡ polling y))
        × (c'.settings ≡ c.settings)
        × (c'.agent_state ≡ some st)
        × (c'.outbox ≡ [])
        × (c'.stream ≡ some s)
        × (c'.seqno ≡ (c.seqno + length ms) % 2 ^ 64)
        × (sent w' ≡ sent w ++ frames E L.log s (features_of E (some st)) c.seqno ms)

  module _ (L : SocketLog E) (s : E.Stream)
      (takes : (f : E.Frame) (w : E.World) → (E.ws_send s f w).0 ≡ ok tt) where
    open L use {sent}

    to_sink_takes :
        (f : E.Frame) (c : WsClient E) (w : E.World)
        → c.stream ≡ some s
        → to_sink E f c w ≡ (returns (ok tt), c, (E.ws_send s f w).1)
    unfolding to_sink ◌>>=◌
    to_sink_takes f c w there = ground (arith, there, takes f w)

    flush_all_takes :
        (features : ℕ × ℕ) (ms : List (AgentToServer E.crates)) (c : WsClient E) (w : E.World)
        → c.stream ≡ some s
        → (flush_all E features ms c w).0 ≡ returns (ok tt)
    unfolding flush_all expect_sent ◌>>=◌
    flush_all_takes features [] c w there = refl
    flush_all_takes features (m ∷ ms) c w there =
        let c₁ = numbered E L.log s c (c.seqno + 1) in
        let f = E.binary (E.encode (stamp E features c₁.seqno m)) in
        rw (to_sink_takes f c₁ w there) (flush_all_takes features ms c₁ _ there)

    send_takes :
        (c : WsClient E) (w : E.World)
        → c.stream ≡ some s
        → (send E c w).0 ≡ returns (ok (reply "messages sent"))
    unfolding send flush unwrap_flush ◌>>=◌
    send_takes c w there = ground (
      arith,
      flush_all_takes (features_of E c.agent_state) c.outbox
          (record c { agent = with_outbox E c.agent [] }) w there,
    )

    Flushed-returns :
        {A : Type 0} (features : ℕ × ℕ) (Good : A → Type 0) (c : WsClient E) (w : E.World)
        (ms : List (AgentToServer E.crates)) (out : Outcome A × WsClient E × E.World) {a : A}
        → Flushed E L.log s features Good c w ms out
        → out.0 ≡ returns a
        → (out.1 ≡ numbered E L.log s c (c.seqno + length ms))
          × (sent out.2 ≡ sent w ++ frames E L.log s features c.seqno ms)
    Flushed-returns features Good c w ms (returns b, c', w') h e = (h.1, h.2)
    Flushed-returns features Good c w ms (panics f, c', w') h e = cc e

    -- From `sending`, two triggers send the outbox and lead back to `polling`.
    abbrev Rested :
        WsClient E → E.World → List (AgentToServer E.crates) → WsClient E → E.World → Type 0
    Rested c w ms c' w' =
        (c'.state ≡ polling "")
        × (c'.agent ≡ with_outbox E c.agent [])
        × (c'.stream ≡ some s)
        × (c'.seqno ≡ (c.seqno + length ms) % 2 ^ 64)
        × (sent w' ≡ sent w ++ frames E L.log s (features_of E c.agent_state) c.seqno ms)

    pub sends_all :
        (c : WsClient E) (w : E.World) {x : String}
        → c.state ≡ sending x
        → c.stream ≡ some s
        → c.seqno < 2 ^ 64
        → let (o, c', w') = repeat 2 (trigger E) c w in (o ≡ returns tt) × Rested c w c.outbox c' w'
    unfolding repeat trigger settle evaluate channel wait ◌>>=◌
    sends_all c w at there small =
        let (same, logged) =
          Flushed-returns (features_of E c.agent_state) _ _ w c.outbox (send E c w)
            (socket_send_delivers E L.log s c w there small) (send_takes c w there) in
        ground (arith, at, send_takes c w there, same, logged)

    pub answers :
        (ms : List (AgentToServer E.crates)) (a : Agent E) (x : String) (c : WsClient E)
        (w w₁ : E.World) {st : AgentToServer E.crates}
        → a.settings ≡ c.settings
        → a.agent_state ≡ some st
        → c.stream ≡ some s
        → c.seqno < 2 ^ 64
        → sent w₁ ≡ sent w
        → trigger E c w ≡ (
          returns tt,
          record c {
            agent = with_outbox E a ms;
            state = if is_empty ms then polling x else sending "messages pending";
          },
          w₁,
        )
        → Answered L s st ms c w (repeat (rounds_for E ms) (trigger E) c w)
    unfolding repeat ◌>>=◌
    answers [] a x c w w₁ same has there small quiet first =
        rw first (refl, (x, refl), same, has, refl, there, omega arith, quiet ∙ sym (append-nil _))
    answers (m ∷ ms) a x c w w₁ same has there small quiet first =
        let c₁ : WsClient E = record c {
          agent = with_outbox E a (m ∷ ms);
          state = sending "messages pending";
        } in
        let (done, (at, owner, kept, number, logged)) = sends_all c₁ w₁ refl there small in
        rw first (
          done,
          ("", at),
          ap (λ (b : Agent E). b.settings) owner ∙ same,
          ap (λ (b : Agent E). b.agent_state) owner ∙ has,
          ap (λ (b : Agent E). b.outbox) owner,
          kept,
          number,
          logged
              ∙ rw quiet
                  (ap (λ o. sent w ++ frames E L.log s (features_of E o) c.seqno (m ∷ ms)) has),
        )

    -- A view of the world that sending a frame leaves as it is.
    module _ {V : Type 0} (view : E.World → V)
        (kept : (r : E.Stream) (f : E.Frame) (w : E.World)
          → view (E.ws_send r f w).1 ≡ view w) where
      abbrev Stays : V → {A : Type 0} → Exec E.World (WsClient E) A → Type 0
      Stays v m = Always (λ c w. view w ≡ v) m

      expect_sent-Stays : (v : V) (r : Result ApiClientError (Unit {0})) → Stays v (expect_sent E r)
      unfolding expect_sent
      expect_sent-Stays v (ok u) = Always-pure _
      expect_sent-Stays v (err e) = Always-panic _

      to_sink-Stays : (v : V) (f : E.Frame) → Stays v (to_sink E f)
      unfolding to_sink
      to_sink-Stays v f = Always-bind _ _ (Always-gets _) λ c.
          Always-bind _ _ (Always-unwrap _ _)
            λ r. Always-bind _ _ (Always-call _ (λ d w h. kept r f w ∙ h)) λ x. Always-pure _

      flush_all-Stays :
          (v : V) (features : ℕ × ℕ) (ms : List (AgentToServer E.crates))
          → Stays v (flush_all E features ms)
      unfolding flush_all
      flush_all-Stays v features [] = Always-pure _
      flush_all-Stays v features (m ∷ ms) = Always-bind _ _ (Always-modify _ (λ c w h. h)) λ u.
          Always-bind _ _ (Always-gets _) λ c.
            Always-bind _ _ (to_sink-Stays v _)
              λ r. Always-bind _ _ (expect_sent-Stays v r) λ t. flush_all-Stays v features ms

      unwrap_flush-Stays :
          (v : V) (r : Result ApiClientError (Unit {0})) → Stays v (unwrap_flush E r)
      unfolding unwrap_flush
      unwrap_flush-Stays v (ok u) = Always-pure _
      unwrap_flush-Stays v (err e) = Always-panic _

      send-Stays : (v : V) → Stays v (send E)
      unfolding send flush
      send-Stays v =
          Always-bind _ _
            (Always-bind _ _ (Always-gets _)
              λ c. Always-bind _ _ (Always-modify _ (λ d w h. h)) λ u. flush_all-Stays v _ _)
            (unwrap_flush-Stays v)

      sends_unseen :
          (c : WsClient E) (w : E.World) {x : String}
          → c.state ≡ sending x
          → c.stream ≡ some s
          → view (repeat 2 (trigger E) c w).2 ≡ view w
      unfolding repeat trigger settle evaluate channel wait ◌>>=◌
      sends_unseen c w at there =
          ground (arith, at, send_takes c w there, (send-Stays (view w)).at c w refl)

      pub answers_unseen :
          (ms : List (AgentToServer E.crates)) (a : Agent E) (x : String) (c : WsClient E)
          (w w₁ : E.World)
          → c.stream ≡ some s
          → trigger E c w ≡ (
            returns tt,
            record c {
              agent = with_outbox E a ms;
              state = if is_empty ms then polling x else sending "messages pending";
            },
            w₁,
          )
          → view (repeat (rounds_for E ms) (trigger E) c w).2 ≡ view w₁
      unfolding repeat ◌>>=◌
      answers_unseen [] a x c w w₁ there first = rw first refl
      answers_unseen (m ∷ ms) a x c w w₁ there first =
          let c₁ : WsClient E = record c {
            agent = with_outbox E a (m ∷ ms);
            state = sending "messages pending";
          } in
          rw first (sends_unseen c₁ w₁ refl there)
