-- ===== src/Http/Gzip.antt =====
-- Compression in `send_and_receive` of src/httpclient/mod.rs. The output vectors have room but no
-- elements, so the slices handed to the compressor and the decompressor are empty.
use mosfet_rs.Prelude.{
  ℕ, ◌+◌, ◌≡◌, ◌∙◌, ◌⊎◌, inl, inr, true, false, some, List, [], ok, arith, push, Option-cases,
}
use mosfet_rs.Exec.{Outcome, returns, panics, ◌>>=◌}
use mosfet_rs.Env.{Env, Request}
use mosfet_rs.Messages.{AgentToServer}
use mosfet_rs.Defaults.{as_u64}
use mosfet_rs.Http.Wire.{
  HttpClient, stamp, plain_request, gzip_request, send_and_receive, build_request, read_response,
  read_body, decode_body, decode_bytes,
}
use mosfet_rs.Http.Delivery.{RequestLog, read_response_log}

abbrev pub IsPanic {ℓ} : {A : Type ℓ} → Outcome A → Type 0
IsPanic (returns a) = ⊥
IsPanic (panics f) = Unit

module _ (E : Env) where
  -- The request that goes out first, uncompressed.
  abbrev pub first_request : HttpClient E → AgentToServer E.crates → ℕ → Request E.crates
  first_request c m timeout =
      plain_request E c timeout (E.encode (stamp E c.agent_state (as_u64 (c.seqno + 1)) m))

  -- When an uncompressed request gets a successful response in gzip encoding, whose body can be
  -- read, send_and_receive panics.
  pub gzip_response_panics :
      (m : AgentToServer E.crates) (timeout : ℕ) (c : HttpClient E) (w : E.World)
      {response : E.Response} {body : List ℕ}
      → (E.http_post (first_request c m timeout) (E.now w).1).0 ≡ ok response
      → E.is_success response ≡ true
      → E.header response "Content-Encoding" ≡ some "gzip"
      → (E.http_bytes response (E.http_post (first_request c m timeout) (E.now w).1).1).0 ≡ ok body
      → IsPanic (send_and_receive E m timeout false c w).0
  unfolding send_and_receive build_request read_response read_body decode_body decode_bytes ◌>>=◌
  gzip_response_panics m timeout c w posted success encoded read = ground arith

  -- The body that is to be compressed.
  abbrev plain_body : HttpClient E → AgentToServer E.crates → List ℕ
  plain_body c m = E.encode (stamp E c.agent_state (as_u64 (c.seqno + 1)) m)

  -- With a clock that does not stand before the epoch, a compressed request never carries its
  -- message: the call panics before a request is made, or the one request posted has an empty body.
  pub gzip_request_empty :
      (L : RequestLog E) (m : AgentToServer E.crates) (timeout : ℕ) (c : HttpClient E) (w : E.World)
      → let (o, c', w') = send_and_receive E m timeout true c w in
        (IsPanic o × (L.sent w' ≡ L.sent w))
        ⊎ (L.sent w' ≡ push (L.sent w) (gzip_request E c timeout []))
  unfolding send_and_receive build_request ◌>>=◌
  gzip_request_empty L m timeout c w = elim (Option-cases (E.gzip_compress (plain_body c m) 0)) [
    | inl refused ↦ rw (L.clock.reads w, refused) (inl (tt, L.sent-now w))
    | inr (written, done) ↦
        rw (L.clock.reads w, done)
          (inr ((read_response_log E L _ _ _).1 ∙ rw (L.sent-post, L.sent-now)))
  ]
