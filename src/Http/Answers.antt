-- ===== src/Http/Answers.antt =====
-- The other handlers of the HTTP client, for any property of the agent part: what `send`, `connect`
-- and `wait` answer, and the panics that they may end in.
use mosfet_rs.Prelude.{
  ℕ, String, Bool, true, false, Option, none, some, List, [], ◌∷◌, Result, ok, err, arith,
}
use mosfet_rs.Exec.{Exec, bad_slice, bad_decode, ◌>>=◌}
use mosfet_rs.Exec.Keeps.{
  Keeps, Meets, keeps_rules, Keeps-bind, Keeps-modify, Keeps-pure, Keeps-gets, Keeps-panic,
  Keeps-unwrap, Keeps-then, Meets-pure,
}
use mosfet_rs.Env.{Env}
use mosfet_rs.Util.Clock.{get_time_nanos-Keeps}
use mosfet_rs.Messages.{AgentToServer, ApiClientError}
use mosfet_rs.Machine.{State, StateResponse, reply, error, nothing}
use mosfet_rs.Agent.{Agent}
use mosfet_rs.Http.Wire.{
  HttpClient, send_and_receive, build_request, read_response, read_body, decode_body, decode_bytes,
}
use mosfet_rs.Http.Steps.{connect, retry_later, send, send_all, store_or_stop, wait}
use mosfet_rs.Agent.Ready.{Never}
use mosfet_rs.Http.Ready.{Holds, OnResponse, OnRetries}

module _ (E : Env) where
  -- Reading a response changes nothing in the client.
  module _ (I : HttpClient E → Type 0) where
    decode_bytes-Keeps : (o : Option (List ℕ)) → Keeps I OnResponse (decode_bytes E o)
    unfolding decode_bytes
    decode_bytes-Keeps none = Keeps-panic bad_slice tt
    decode_bytes-Keeps (some bytes) = Keeps-unwrap bad_decode _ tt

    decode_body-Keeps :
        (o : Option String) (bytes : List ℕ) → Keeps I OnResponse (decode_body E o bytes)
    unfolding decode_body
    decode_body-Keeps none bytes = decode_bytes-Keeps (some bytes)
    decode_body-Keeps (some encoding) bytes = search (keeps_rules, decode_bytes-Keeps)

    read_body-Keeps :
        (o : Option String) (body : Result String (List ℕ))
        → Keeps I OnResponse (read_body E o body)
    unfolding read_body
    read_body-Keeps o (ok bytes) = search (keeps_rules, decode_body-Keeps)
    read_body-Keeps o (err e) = Keeps-pure _

    pub read_response-Keeps :
        (r : Result String E.Response) → Keeps I OnResponse (read_response E r)
    unfolding read_response
    read_response-Keeps (ok response) = search (keeps_rules, read_body-Keeps)
    read_response-Keeps (err e) = Keeps-pure _

    build_request-Keeps :
        (compress : Bool) (c : HttpClient E) (timeout : ℕ) (body : List ℕ)
        → Keeps I OnResponse (build_request E compress c timeout body)
    unfolding build_request
    build_request-Keeps true c timeout body = search keeps_rules
    build_request-Keeps false c timeout body = Keeps-pure _

  module _ (J : Agent E → Type 0) (x : State) where
    pub send_and_receive-Keeps :
        (m : AgentToServer E.crates) (timeout : ℕ) (compress : Bool)
        → Keeps (Holds E J x) OnResponse (send_and_receive E m timeout compress)
    unfolding send_and_receive
    send_and_receive-Keeps m timeout compress = Keeps-bind _ _ (Keeps-modify _ (λ c h. h)) λ u.
        Keeps-bind _ _ (get_time_nanos-Keeps E tt) λ nanos.
          Keeps-bind _ _ (Keeps-modify _ (λ c h. h))
            λ u'. search (keeps_rules, build_request-Keeps, read_response-Keeps)

    -- An answer of `send`: all sent, or an error of the transport.
    abbrev pub Answered : Result ApiClientError StateResponse → HttpClient E → Type 0
    Answered (ok (reply y)) c = Holds E J x c
    Answered (ok (error e)) c = Holds E J x c
    Answered (ok nothing) c = ⊥
    Answered (err e) c = ⊥

    pub Answered-Holds :
        (r : Result ApiClientError StateResponse) (c : HttpClient E) → Answered r c → Holds E J x c
    Answered-Holds (ok (reply y)) c h = h
    Answered-Holds (ok (error e)) c h = h
    Answered-Holds (ok nothing) c h = absurd h
    Answered-Holds (err e) c h = absurd h

    store_or_stop_answers :
        (r : Result ApiClientError E.ServerToAgent)
        (rest : Exec E.World (HttpClient E) (Result ApiClientError StateResponse))
        → Meets (Holds E J x) rest Answered OnResponse
        → Meets (Holds E J x) (store_or_stop E r rest) Answered OnResponse
    unfolding store_or_stop
    store_or_stop_answers (ok message) rest k = Keeps-then _ _ (Keeps-modify _ (λ c h. h)) (λ u. k)
    store_or_stop_answers (err e) rest k = Meets-pure _ (λ c h. h)

    pub send_all_answers :
        (ms : List (AgentToServer E.crates))
        → Meets (Holds E J x) (send_all E ms) Answered OnResponse
    unfolding send_all
    send_all_answers [] = Meets-pure _ (λ c h. h)
    send_all_answers (m ∷ ms) =
        Keeps-then _ _ (send_and_receive-Keeps m 10 false)
          λ r. store_or_stop_answers r _ (send_all_answers ms)

    -- `send` empties the outbox, and otherwise leaves the agent part alone.
    pub send_answers :
        ((a : Agent E) → J a → J (record a { outbox = [] }))
        → Meets (Holds E J x) (send E) Answered OnResponse
    unfolding send
    send_answers empty = Keeps-then _ _ (Keeps-gets _) λ c.
        Keeps-then _ _ (Keeps-modify _ (λ c h. (h.0, empty c.agent h.1))) λ u. send_all_answers _

    pub connect-Keeps : Keeps (Holds E J x) OnRetries (connect E)
    unfolding connect retry_later ◌>>=◌
    connect-Keeps = record { at = λ c w h. ground arith }

    -- `wait` answers by `Reply`.
    abbrev pub Rested : Result ApiClientError StateResponse → HttpClient E → Type 0
    Rested (ok (reply y)) c = Holds E J x c
    Rested (ok (error e)) c = ⊥
    Rested (ok nothing) c = ⊥
    Rested (err e) c = ⊥

    pub wait_rests : Meets (Holds E J x) (wait E) Rested Never
    unfolding wait
    wait_rests = Meets-pure _ (λ c h. h)
