-- ===== src/Http/Exchange.antt =====
-- One message of the HTTP client of src/httpclient/mod.rs and the answer to it, against a server
-- whose every response can be read.
use mosfet_rs.Prelude.{
  ℕ, ◌+◌, ◌%◌, ◌^◌, ◌≡◌, refl, String, true, false, none, some, List, [], ◌∷◌, ok, arith, push,
  length, length-append,
}
use mosfet_rs.Exec.{returns, ◌>>=◌}
use mosfet_rs.Env.{Env, Request}
use mosfet_rs.Messages.{AgentToServer}
use mosfet_rs.Machine.{State, polling, sending, waiting, evaluate}
use mosfet_rs.Http.Wire.{
  HttpClient, stamp, plain_request, send_and_receive, build_request, read_response, read_body,
  decode_body, decode_bytes,
}
use mosfet_rs.Http.Steps.{send, send_all, store_or_stop, wait, channel, settle, trigger}
use mosfet_rs.Http.Delivery.{RequestLog, bumped, send_and_receive_log}

pub record Answering (E : Env) : Type 0 where
  pub answers :
      (q : Request E.crates) (w : E.World)
      → (r : E.Response) × ((E.http_post q w).0 ≡ ok r)
        × (E.is_success r ≡ true)
        × (E.header r "Content-Encoding" ≡ none)
  pub readable :
      (r : E.Response) (w : E.World)
      → (body : List ℕ) × ((E.http_bytes r w).0 ≡ ok body)
        × ((m : E.ServerToAgent) × (E.decode body ≡ some m))

-- Some response of the server carries this message.
abbrev pub Carried : (E : Env) → E.ServerToAgent → Type 0
Carried E m =
    (q : Request E.crates) × (w : E.World) × (r : E.Response) × (v : E.World) × (body : List ℕ)
    × ((E.http_post q w).0 ≡ ok r)
    × ((E.http_bytes r v).0 ≡ ok body)
    × (E.decode body ≡ some m)

module _ (E : Env) (L : RequestLog E) (W : Answering E) where
  open L use {sent}

  -- The request for a message: stamped with the number after the client's.
  abbrev pub next_request : HttpClient E → AgentToServer E.crates → Request E.crates
  next_request c m =
      plain_request E c 10 (E.encode (stamp E c.agent_state ((c.seqno + 1) % 2 ^ 64) m))

  pub exchange :
      (st : AgentToServer E.crates) (c : HttpClient E) (w : E.World)
      → (m : E.ServerToAgent) × Carried E m
        × (send_and_receive E st 10 false c w
            ≡ (returns (ok m), bumped E L c w, (send_and_receive E st 10 false c w).2))
  unfolding send_and_receive build_request read_response read_body decode_body decode_bytes ◌>>=◌
  exchange st c w =
      let q = next_request c st in
      let w₁ = (E.now w).1 in
      let (r, posted, fine, plain) = W.answers q w₁ in
      let (body, got, (m, decoded)) = W.readable r (E.http_post q w₁).1 in
      (
        m,
        (q, w₁, r, _, body, posted, got, decoded),
        rw (L.clock.reads w, posted, fine, plain, got, decoded) refl,
      )

  -- From the client `c`, the message `m` is sent and answered, and the machine is in state `x`.
  abbrev pub Exchanged :
      HttpClient E → E.World → AgentToServer E.crates → State → HttpClient E → E.World → Type 0
  Exchanged c w m x c' w' =
      (c'.state ≡ x)
      × (c'.address ≡ c.address)
      × (c'.agent ≡ record c.agent { outbox = [] })
      × (length c'.inbox ≡ length c.inbox + 1)
      × (c'.seqno ≡ (c.seqno + 1) % 2 ^ 64)
      × (sent w' ≡ push (sent w) (next_request c m))

  pub sends_one :
      (m : AgentToServer E.crates) (c : HttpClient E) (w : E.World) {x : String}
      → c.state ≡ sending x
      → c.outbox ≡ m ∷ []
      → ((trigger E c w).0 ≡ returns tt)
        × Exchanged c w m (waiting "sent") (trigger E c w).1 (trigger E c w).2
  unfolding trigger settle evaluate channel send send_all store_or_stop ◌>>=◌
  sends_one m c w at one =
      let d : HttpClient E = record c { agent = record c.agent { outbox = [] } } in
      let (r, origin, exchanged) = exchange m d w in
      let logged = (send_and_receive_log E L m d w).1 in
      ground (arith, exchanged, logged, length-append c.inbox (r ∷ []))

  pub rest_over :
      (c : HttpClient E) (w : E.World) {x : String}
      → c.state ≡ waiting x
      → trigger E c w ≡ (returns tt, record c { state = polling "" }, w)
  unfolding trigger settle evaluate channel wait ◌>>=◌
  rest_over c w at = ground arith
