-- ===== src/Http/Delivery.antt =====
-- `send` of src/httpclient/mod.rs: which requests go out, in which order and with which sequence
-- numbers, what arrives in the inbox, and what is left when a request fails.
use mathlib.Core.List.{append-nil, append_assoc}
use mosfet_rs.Prelude.{
  ℕ, suc, ◌+◌, ◌%◌, ◌^◌, ◌<◌, ◌≡◌, refl, sym, ◌∙◌, ap, String, false, List, [], ◌∷◌, ◌++◌, Result,
  ok, err, arith, push, take, length, length-append,
}
use mosfet_rs.Exec.{Outcome, returns, panics, after, ◌>>=◌}
use mosfet_rs.Exec.Keeps.{Ends, Meets_mono}
use mosfet_rs.Env.{Env, Request}
use mosfet_rs.Util.Clock.{Clock}
use mosfet_rs.Messages.{AgentToServer, ApiClientError}
use mosfet_rs.Machine.{StateResponse, reply, error, nothing}
use mosfet_rs.Http.Wire.{
  HttpClient, stamp, plain_request, send_and_receive, build_request, read_response, read_body,
  decode_body, decode_bytes,
}
use mosfet_rs.Http.Ready.{OnResponse}
use mosfet_rs.Http.Answers.{Answered-Holds, send_all_answers}
use mosfet_rs.Http.Steps.{send, send_all, store_or_stop}

-- A view of the world that lists the requests sent so far, and a clock that does not stand before
-- the epoch.
pub record RequestLog (E : Env) : Type 0 where
  pub clock : Clock E
  pub sent : E.World → List (Request E.crates)
  pub sent-post : (r : Request E.crates) (w : E.World) → sent (E.http_post r w).1 ≡ push (sent w) r
  pub sent-now : (w : E.World) → sent (E.now w).1 ≡ sent w
  pub sent-bytes : (r : E.Response) (w : E.World) → sent (E.http_bytes r w).1 ≡ sent w

module _ (E : Env) (L : RequestLog E) where
  open L use {sent}

  -- The requests for `ms`, numbered from `n + 1` and cut to 64 bits.
  abbrev pub batch : HttpClient E → ℕ → List (AgentToServer E.crates) → List (Request E.crates)
  batch c n [] = []
  batch c n (m ∷ ms) =
      plain_request E c 10 (E.encode (stamp E c.agent_state ((n + 1) % 2 ^ 64) m))
      ∷ batch c (n + 1) ms

  batch_congr :
      (c d : HttpClient E) (a b : ℕ) (ms : List (AgentToServer E.crates))
      → c.address ≡ d.address
      → c.agent ≡ d.agent
      → a % 2 ^ 64 ≡ b % 2 ^ 64
      → batch c a ms ≡ batch d b ms
  batch_congr c d a b [] at owner e = refl
  batch_congr c d a b (m ∷ ms) at owner e =
      let e' : (a + 1) % 2 ^ 64 ≡ (b + 1) % 2 ^ 64 = omega arith in
      cc (e', at, owner, batch_congr c d (a + 1) (b + 1) ms at owner e')

  -- The first `k` messages of `ms` have been sent, and nothing else.
  abbrev pub Sent :
      HttpClient E → E.World → List (AgentToServer E.crates) → ℕ → HttpClient E → E.World → Type 0
  Sent c w ms k c' w' =
      (sent w' ≡ sent w ++ take k (batch c c.seqno ms)) × (c'.seqno ≡ (c.seqno + k) % 2 ^ 64)

  -- What a run of `send` over `ms` has done, by how it ended: all is sent and answered; or the
  -- message after `k` answered ones failed or its answer was unreadable, and no more was sent.
  abbrev pub Delivered :
      HttpClient E
      → E.World
      → List (AgentToServer E.crates)
      → Outcome (Result ApiClientError StateResponse) × HttpClient E × E.World
      → Type 0
  Delivered c w ms (returns (ok (reply x)), c', w') =
      Sent c w ms (length ms) c' w' × (length c'.inbox ≡ length c.inbox + length ms)
  Delivered c w ms (returns (ok (error x)), c', w') =
      (k : ℕ) × (k < length ms) × Sent c w ms (suc k) c' w' × (length c'.inbox ≡ length c.inbox + k)
  Delivered c w ms (returns (ok nothing), c', w') = ⊥
  Delivered c w ms (returns (err e), c', w') = ⊥
  Delivered c w ms (panics f, c', w') =
      (k : ℕ) × (k < length ms) × Sent c w ms (suc k) c' w' × (length c'.inbox ≡ length c.inbox + k)

  abbrev pub bumped : HttpClient E → E.World → HttpClient E
  bumped c w = record c { seqno = (c.seqno + 1) % 2 ^ 64; last_sent_timestamp = L.clock.read w }

  pub read_response_log :
      (r : Result String E.Response) (c : HttpClient E) (w : E.World)
      → ((read_response E r c w).1 ≡ c) × (sent (read_response E r c w).2 ≡ sent w)
  unfolding read_response read_body decode_body decode_bytes ◌>>=◌
  read_response_log (ok response) c w = ground (arith, L.sent-bytes response w)
  read_response_log (err e) c w = (refl, refl)

  pub send_and_receive_log :
      (m : AgentToServer E.crates) (c : HttpClient E) (w : E.World)
      → ((send_and_receive E m 10 false c w).1 ≡ bumped c w)
        × (sent (send_and_receive E m 10 false c w).2 ≡ sent w ++ take 1 (batch c c.seqno (m ∷ [])))
  unfolding send_and_receive build_request ◌>>=◌
  send_and_receive_log m c w =
      let (same, logged) = read_response_log (E.http_post _ (E.now w).1).0 (bumped c w) _ in
      rw (L.clock.reads w) (same, logged ∙ rw (L.sent-post, L.sent-now))

  module _ (c : HttpClient E) (w : E.World) (m : AgentToServer E.crates)
      (ms : List (AgentToServer E.crates)) (c₂ : HttpClient E) (w₁ : E.World)
      (numbered : c₂.seqno ≡ (c.seqno + 1) % 2 ^ 64)
      (rest : batch c₂ c₂.seqno ms ≡ batch c (c.seqno + 1) ms)
      (logged : sent w₁ ≡ sent w ++ take 1 (batch c c.seqno (m ∷ []))) where
    Sent-cons :
        (k : ℕ) (c' : HttpClient E) (w' : E.World)
        → Sent c₂ w₁ ms k c' w'
        → Sent c w (m ∷ ms) (suc k) c' w'
    Sent-cons k c' w' (sent_rest, number) = (
      sent_rest ∙ (rw (logged, rest) (append_assoc (sent w) _ _)),
      number ∙ (rw numbered (omega arith)),
    )

    Delivered-cons :
        length c₂.inbox ≡ length c.inbox + 1
        → (out : Outcome (Result ApiClientError StateResponse) × HttpClient E × E.World)
        → Delivered c₂ w₁ ms out
        → Delivered c w (m ∷ ms) out
    Delivered-cons grown (returns (ok (reply x)), c', w') (s, i) =
        (Sent-cons _ c' w' s, omega arith)
    Delivered-cons grown (returns (ok (error x)), c', w') (k, lt, s, i) =
        (suc k, omega arith, Sent-cons _ c' w' s, omega arith)
    Delivered-cons grown (returns (ok nothing), c', w') h = h
    Delivered-cons grown (returns (err e), c', w') h = h
    Delivered-cons grown (panics f, c', w') (k, lt, s, i) =
        (suc k, omega arith, Sent-cons _ c' w' s, omega arith)

  Delivered-after :
      (c : HttpClient E) (w : E.World) (m : AgentToServer E.crates)
      (ms : List (AgentToServer E.crates)) (o : Outcome (Result ApiClientError E.ServerToAgent))
      (c₁ : HttpClient E) (w₁ : E.World)
      → c₁ ≡ bumped c w
      → sent w₁ ≡ sent w ++ take 1 (batch c c.seqno (m ∷ []))
      → ((c₂ : HttpClient E) → c₂.seqno < 2 ^ 64 → Delivered c₂ w₁ ms (send_all E ms c₂ w₁))
      → Delivered c w (m ∷ ms) (after o (λ r. store_or_stop E r (send_all E ms)) c₁ w₁)
  unfolding store_or_stop ◌>>=◌
  Delivered-after c w m ms (returns (ok message)) c₁ w₁ e logged ih =
      let c₂ : HttpClient E = record c₁ { inbox = push c₁.inbox message } in
      let numbered : c₁.seqno ≡ (c.seqno + 1) % 2 ^ 64 = ap (λ (x : HttpClient E). x.seqno) e in
      Delivered-cons c w m ms c₂ w₁ numbered
        (batch_congr c₂ c c₁.seqno (c.seqno + 1) ms (ap (λ (x : HttpClient E). x.address) e)
          (ap (λ (x : HttpClient E). x.agent) e) (rw numbered (omega arith)))
        logged
        (length-append c₁.inbox (message ∷ []) ∙ ap (λ (x : HttpClient E). length x.inbox + 1) e) _
        (ih c₂ (rw numbered (omega arith)))
  Delivered-after c w m ms (returns (err x)) c₁ w₁ e logged ih = (
    0,
    omega arith,
    (logged, ap (λ (x : HttpClient E). x.seqno) e),
    ap (λ (x : HttpClient E). length x.inbox) e ∙ omega arith,
  )
  Delivered-after c w m ms (panics f) c₁ w₁ e logged ih = (
    0,
    omega arith,
    (logged, ap (λ (x : HttpClient E). x.seqno) e),
    ap (λ (x : HttpClient E). length x.inbox) e ∙ omega arith,
  )

  pub send_all_delivers :
      (ms : List (AgentToServer E.crates)) (c : HttpClient E) (w : E.World)
      → c.seqno < 2 ^ 64
      → Delivered c w ms (send_all E ms c w)
  unfolding send_all ◌>>=◌
  send_all_delivers [] c w small = ((sym (append-nil _), omega arith), omega arith)
  send_all_delivers (m ∷ ms) c w small =
      let (same, logged) = send_and_receive_log m c w in
      Delivered-after c w m ms _ _ _ same logged (λ c₂ h. send_all_delivers ms c₂ _ h)

  -- The client once `std::mem::take` has emptied its outbox.
  abbrev pub taken : HttpClient E → HttpClient E
  taken c = record c { agent = record c.agent { outbox = [] } }

  -- With a clock that does not stand before the epoch, HTTP send posts the messages of the outbox
  -- in order, one request each, numbered onwards from `seqno`, and the inbox grows by one for
  -- each answer; the first failing request ends it and the rest of the outbox is not sent and is
  -- gone.
  pub send_delivers :
      (c : HttpClient E) (w : E.World)
      → c.seqno < 2 ^ 64
      → Delivered (taken c) w c.outbox (send E c w)
        × Ends (λ r c'. (c'.state ≡ c.state) × (c'.agent ≡ (taken c).agent)) OnResponse (send E c w)
  unfolding send ◌>>=◌
  send_delivers c w small = (
    send_all_delivers c.outbox (taken c) w small,
    (Meets_mono _ (λ c' h. h) (Answered-Holds E (λ a. a ≡ (taken c).agent) c.state) (λ f h. h)
          (send_all_answers E (λ a. a ≡ (taken c).agent) c.state c.outbox)).at
        (taken c) w (refl, refl),
  )
