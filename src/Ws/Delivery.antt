-- ===== src/Ws/Delivery.antt =====
-- `send` of src/wsclient/mod.rs: which frames go out on the stream, in which order and with which
-- sequence numbers, and what is left when one cannot be sent.
use mathlib.Core.List.{append-nil, append_assoc}
use mosfet_rs.Prelude.{
  ℕ, suc, ◌+◌, ◌%◌, ◌^◌, ◌<◌, ◌≡◌, refl, sym, ◌∙◌, ap, ◌<>◌, ◌⊎◌, inl, inr, some, List, [], ◌∷◌,
  ◌++◌, Result, ok, err, arith, push, take, length, Result-cases,
}
use mosfet_rs.Exec.{Outcome, returns, panics, ◌>>=◌, send_failure}
use mosfet_rs.Env.{Env}
use mosfet_rs.Messages.{AgentToServer, ApiClientError, api_client_error}
use mosfet_rs.Machine.{reply}
use mosfet_rs.Ws.{
  WsClient, send, flush, flush_all, to_sink, expect_sent, unwrap_flush, stamp, features_of,
}

-- A view of the world that lists the frames handed to the streams so far.
pub record FrameLog (E : Env) : Type 0 where
  pub sent : E.World → List (E.Stream × E.Frame)
  pub sent-send :
      (s : E.Stream) (f : E.Frame) (w : E.World) → sent (E.ws_send s f w).1 ≡ push (sent w) (s, f)

module _ (E : Env) (L : FrameLog E) (s : E.Stream) where
  open L use {sent}

  -- The frames for `ms`, numbered from `n + 1` and cut to 64 bits.
  abbrev pub frames : ℕ × ℕ → ℕ → List (AgentToServer E.crates) → List (E.Stream × E.Frame)
  frames features n [] = []
  frames features n (m ∷ ms) =
      (s, E.binary (E.encode (stamp E features ((n + 1) % 2 ^ 64) m))) ∷ frames features (n + 1) ms

  frames_congr :
      (features : ℕ × ℕ) (a b : ℕ) (ms : List (AgentToServer E.crates))
      → a % 2 ^ 64 ≡ b % 2 ^ 64
      → frames features a ms ≡ frames features b ms
  frames_congr features a b [] e = refl
  frames_congr features a b (m ∷ ms) e =
      let e' : (a + 1) % 2 ^ 64 ≡ (b + 1) % 2 ^ 64 = omega arith in
      cc (e', frames_congr features (a + 1) (b + 1) ms e')

  pub frames-append :
      (features : ℕ × ℕ) (n : ℕ) (ms rest : List (AgentToServer E.crates))
      → frames features n (ms ++ rest)
        ≡ frames features n ms ++ frames features ((n + length ms) % 2 ^ 64) rest
  frames-append features n [] rest = frames_congr features n ((n + 0) % 2 ^ 64) rest (omega arith)
  frames-append features n (m ∷ ms) rest =
      let e : (n + 1 + length ms) % 2 ^ 64 ≡ (n + length (m ∷ ms)) % 2 ^ 64 = omega arith in
      cc (frames-append features (n + 1) ms rest, e)

  abbrev pub numbered : WsClient E → ℕ → WsClient E
  numbered c n = record c { seqno = n % 2 ^ 64 }

  -- How a run over `ms` ends: all frames are sent and only `seqno` has moved; or the one after `k`
  -- sent ones failed, the client panics, and no more are sent.
  abbrev pub Flushed :
      {A : Type 0}
      → ℕ × ℕ
      → (A → Type 0)
      → WsClient E
      → E.World
      → List (AgentToServer E.crates)
      → Outcome A × WsClient E × E.World
      → Type 0
  Flushed features Good c w ms (returns a, c', w') =
      Good a
      × (c' ≡ numbered c (c.seqno + length ms))
      × (sent w' ≡ sent w ++ frames features c.seqno ms)
  Flushed features Good c w ms (panics f, c', w') =
      (f ≡ send_failure)
      × ((k : ℕ) × (k < length ms)
          × (sent w' ≡ sent w ++ take (suc k) (frames features c.seqno ms)))

  abbrev IsDone : Result ApiClientError (Unit {0}) → Type 0
  IsDone r = r ≡ ok tt

  Flushed-cons :
      (features : ℕ × ℕ) (c : WsClient E) (w w₁ : E.World) (m : AgentToServer E.crates)
      (ms : List (AgentToServer E.crates)) (out : Outcome _ × WsClient E × E.World)
      → sent w₁ ≡ sent w ++ take 1 (frames features c.seqno (m ∷ []))
      → Flushed features IsDone (numbered c (c.seqno + 1)) w₁ ms out
      → Flushed features IsDone c w (m ∷ ms) out
  Flushed-cons features c w w₁ m ms (returns a, c', w') logged (done, moved, all) = (
    done,
    moved ∙ ap (λ n. record c { seqno = n }) (omega arith),
    all
        ∙ rw (logged, frames_congr features ((c.seqno + 1) % 2 ^ 64) (c.seqno + 1) ms (omega arith))
            (append_assoc (sent w) _ _),
  )
  Flushed-cons features c w w₁ m ms (panics f, c', w') logged (fault, (k, lt, some_sent)) = (
    fault,
    (
      suc k,
      omega arith,
      some_sent
          ∙ rw
              (
                logged,
                frames_congr features ((c.seqno + 1) % 2 ^ 64) (c.seqno + 1) ms (omega arith),
              )
              (append_assoc (sent w) _ _),
    ),
  )

  -- One frame, with a stream there.
  pub to_sink_sends :
      (buf : E.Frame) (c : WsClient E) (w : E.World)
      → c.stream ≡ some s
      → (to_sink E buf c w ≡ (returns (ok tt), c, (E.ws_send s buf w).1))
        ⊎ ((x : ApiClientError) × (to_sink E buf c w ≡ (returns (err x), c, (E.ws_send s buf w).1)))
  unfolding to_sink ◌>>=◌
  to_sink_sends buf c w there = elim (Result-cases (E.ws_send s buf w).0) [
    | inl (u, good) ↦ inl (ground arith)
    | inr (e, bad) ↦ inr (api_client_error 57 ("Websocket send error " <> e), ground arith)
  ]

  flush_all_lem :
      (features : ℕ × ℕ) (ms : List (AgentToServer E.crates)) (c : WsClient E) (w : E.World)
      → c.stream ≡ some s
      → c.seqno < 2 ^ 64
      → Flushed features IsDone c w ms (flush_all E features ms c w)
  unfolding flush_all expect_sent ◌>>=◌
  flush_all_lem features [] c w there small =
      let same : c.seqno ≡ (c.seqno + 0) % 2 ^ 64 = omega arith in
      (refl, ap (λ n. record c { seqno = n }) same, sym (append-nil _))
  flush_all_lem features (m ∷ ms) c w there small =
      let c₁ = numbered c (c.seqno + 1) in
      let buf = E.binary (E.encode (stamp E features c₁.seqno m)) in
      elim (to_sink_sends buf c₁ w there) [
        | inl good ↦ rw good (
            Flushed-cons features c w _ m ms _ (L.sent-send s buf w)
              (flush_all_lem features ms c₁ _ there (omega arith)))
        | inr (x, bad) ↦ rw bad (refl, (0, omega arith, L.sent-send s buf w))
      ]

  -- With a stream, `send` hands it one frame for each message of the outbox, in order and numbered
  -- onwards from `seqno`, answers, and has emptied the outbox; or the client panics when a frame
  -- cannot be sent, and no frame after that one is sent.
  pub socket_send_delivers :
      (c : WsClient E) (w : E.World)
      → c.stream ≡ some s
      → c.seqno < 2 ^ 64
      → Flushed
          (features_of E c.agent_state)
          (λ r. r ≡ ok (reply "messages sent"))
          (record c { agent = record c.agent { outbox = [] } })
          w
          c.outbox
          (send E c w)
  unfolding send flush unwrap_flush ◌>>=◌
  socket_send_delivers c w there small = ground (
    arith,
    flush_all_lem (features_of E c.agent_state) c.outbox
        (record c { agent = record c.agent { outbox = [] } }) w there small,
  )
