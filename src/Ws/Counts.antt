-- ===== src/Ws/Counts.antt =====
-- The frames that the websocket client of src/wsclient/mod.rs has sent, and their numbers: what
-- `send` does to them.
use mathlib.Core.List.{append_assoc}
use mosfet_rs.Prelude.{
  ℕ, ◌+◌, ◌%◌, ◌^◌, ◌≡◌, refl, ◌∙◌, Option-cases, none, List, [], ◌∷◌, ◌++◌, inl, inr, Result, ok,
  err, arith, push, length, length-append,
}
use mosfet_rs.Exec.{Exec, panics, no_stream, call, within, ◌>>=◌}
use mosfet_rs.Exec.Always.{
  Always, Always-call, Always-pure, Always-panic, Always-gets, Always-modify,
}
use mosfet_rs.Exec.Tracks.{Tracks, Tracks-bind, Always-Tracks}
use mosfet_rs.Env.{Env}
use mosfet_rs.Messages.{AgentToServer, ApiClientError, ConnectionSettings}
use mosfet_rs.Agent.{Agent}
use mosfet_rs.Agent.Unseen.{Unseen, Calm}
use mosfet_rs.Ws.{
  WsClient, on_agent, stamp, to_sink, expect_sent, flush_all, flush, unwrap_flush, send,
  features_of,
}
use mosfet_rs.Ws.Delivery.{FrameLog, to_sink_sends}

-- A log of frames that only sending one extends.
pub record SocketLog (E : Env) : Type 0 where
  pub log : FrameLog E
  pub open log use {sent}
  pub unseen : Unseen E sent
  pub sent-connect : (u : E.Url) (w : E.World) → sent (E.ws_connect u w).1 ≡ sent w
  pub sent-next : (s : E.Stream) (w : E.World) → sent (E.ws_next s w).1 ≡ sent w

module _ (E : Env) (L : SocketLog E) (settings : ConnectionSettings E.crates) where
  open L use {sent}

  -- Frames each with a message whose number is one higher than that of the frame before, cut to 64
  -- bits.
  abbrev pub Numbered : ℕ → List (E.Stream × E.Frame) → Type 0
  Numbered n [] = Unit
  Numbered n ((s, f) ∷ fs) =
      ((m : AgentToServer E.crates) × (m.sequence_num ≡ (n + 1) % 2 ^ 64)
        × (f ≡ E.binary (E.encode m)))
      × Numbered (n + 1) fs

  Numbered-push :
      (n : ℕ) (fs : List (E.Stream × E.Frame)) (s : E.Stream) (m : AgentToServer E.crates)
      → Numbered n fs
      → m.sequence_num ≡ (n + length fs + 1) % 2 ^ 64
      → Numbered n (push fs (s, E.binary (E.encode m)))
  Numbered-push n [] s m h e = ((m, e ∙ omega arith, refl), tt)
  Numbered-push n ((r, f) ∷ fs) s m (first, h) e =
      (first, Numbered-push (n + 1) fs s m h (e ∙ omega arith))

  module _ (start : List (E.Stream × E.Frame)) where
    -- Since the log was `start`, frames numbered from 1 have been sent.
    abbrev pub Sent : E.World → Type 0
    Sent w = (fs : List (E.Stream × E.Frame)) × (sent w ≡ start ++ fs) × Numbered 0 fs

    -- And the client counts them.
    abbrev pub Counts : WsClient E → E.World → Type 0
    Counts c w =
        (fs : List (E.Stream × E.Frame)) × (sent w ≡ start ++ fs)
        × Numbered 0 fs
        × (c.seqno ≡ length fs % 2 ^ 64)
        × (c.settings ≡ settings)

    pub Counts-Sent : (c : WsClient E) (w : E.World) → Counts c w → Sent w
    Counts-Sent c w (fs, s, n, q, o) = (fs, s, n)

    pub quiet_call :
        {A : Type 0} (f : E.World → A × E.World)
        → ((w : E.World) → sent (f w).1 ≡ sent w)
        → Always Counts (call f)
    quiet_call f k = Always-call f (λ c w (fs, s, n, q, o). (fs, k w ∙ s, n, q, o))

    pub on_agent-Counts :
        {A : Type 0} (m : Exec E.World (Agent E) A)
        → ((v : List (E.Stream × E.Frame)) → Always (Calm E sent L.unseen settings v) m)
        → Always Counts (on_agent E m)
    unfolding on_agent within
    on_agent-Counts m k = record {
      at = λ c w (fs, s, n, q, o).
          let (owner, same) = (k (sent w)).at c.agent w (o, refl) in (fs, same ∙ s, n, q, owner);
    }

    -- The client and the world once one more frame is handed to the stream.
    one_more :
        (features : ℕ × ℕ) (s : E.Stream) (m : AgentToServer E.crates) (c : WsClient E)
        (w : E.World)
        → Counts c w
        → let n = (c.seqno + 1) % 2 ^ 64 in
          Counts
            (record c { seqno = n })
            (E.ws_send s (E.binary (E.encode (stamp E features n m))) w).1
    one_more features s m c w (fs, logged, h, q, o) =
        let n = (c.seqno + 1) % 2 ^ 64 in
        let x = stamp E features n m in
        let f = E.binary (E.encode x) in
        let next : n ≡ (0 + length fs + 1) % 2 ^ 64 = omega arith in
        (
          push fs (s, f),
          L.log.sent-send s f w ∙ rw logged (append_assoc start fs _),
          Numbered-push 0 fs s x h next,
          next ∙ rw (length-append fs ((s, f) ∷ [])) (omega arith),
          o,
        )

    to_sink_lost :
        (buf : E.Frame) (c : WsClient E) (w : E.World)
        → c.stream ≡ none
        → to_sink E buf c w ≡ (panics no_stream, c, w)
    unfolding to_sink ◌>>=◌
    to_sink_lost buf c w lost = rw lost refl

    flush_all-Counts :
        (features : ℕ × ℕ) (ms : List (AgentToServer E.crates))
        → Tracks Counts Sent (flush_all E features ms)
    unfolding flush_all expect_sent ◌>>=◌
    flush_all-Counts features [] = record { at = λ c w h. h }
    flush_all-Counts features (m ∷ ms) = record {
      at = λ c w h.
          let n = (c.seqno + 1) % 2 ^ 64 in
          let c₁ : WsClient E = record c { seqno = n } in
          let f = E.binary (E.encode (stamp E features n m)) in
          elim (Option-cases c.stream) [
            | inl lost ↦ rw (to_sink_lost f c₁ w lost) (Counts-Sent c w h)
            | inr (s, there) ↦
                let more = one_more features s m c w h in
                elim (to_sink_sends E L.log s f c₁ w there) [
                  | inl good ↦
                      rw good ((flush_all-Counts features ms).at c₁ (E.ws_send s f w).1 more)
                  | inr (x, bad) ↦ rw bad (Counts-Sent c₁ (E.ws_send s f w).1 more)
                ]
          ];
    }

    unwrapped : (r : Result ApiClientError (Unit {0})) → Always Counts (unwrap_flush E r)
    unfolding unwrap_flush
    unwrapped (ok u) = Always-pure _
    unwrapped (err e) = Always-panic _

    abbrev kept :
        {A : Type 0} (m : Exec E.World (WsClient E) A) → Always Counts m → Tracks Counts Sent m
    kept = Always-Tracks Counts Sent Counts-Sent

    pub send-Counts : Tracks Counts Sent (send E)
    unfolding send flush
    send-Counts =
        Tracks-bind Counts Sent _ _
          (Tracks-bind Counts Sent _ _ (kept _ (Always-gets _)) λ c.
            Tracks-bind Counts Sent _ _ (kept _ (Always-modify _ (λ c' w h. h)))
              λ u. flush_all-Counts (features_of E c.agent_state) c.outbox)
          (λ r. kept _ (unwrapped r))
