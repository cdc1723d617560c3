-- ===== src/Ws.antt =====
-- src/wsclient/mod.rs: the OpAMP client that keeps a websocket to its server.
pub mod Ready
pub mod Handlers
pub mod Safety
pub mod Lost
pub mod Delivery
pub mod Inbound
pub mod Counts
pub mod Numbering
pub mod Startup
pub mod Sending
pub mod Answering
pub mod Listening
pub mod Conversation
pub mod Reporting
use mosfet_rs.Prelude.{
  ℕ, ◌+◌, ◌%◌, ◌^◌, String, ◌<>◌, Bool, true, false, Option, none, some, List, [], ◌∷◌, Result, ok,
  err, ltb, is_empty, unwrap_or, parse_u32, if◌then◌else◌,
}
use mosfet_rs.Exec.{
  Exec, Outcome, returns, panics, pure, panic, gets, call, unwrap, modify, within, ◌>>=◌, ◌>>◌,
  bad_url, bad_retries, bad_slice, no_stream, send_failure,
}
use mosfet_rs.Env.{Env}
use mosfet_rs.Messages.{
  AgentHealth, AgentToServer, ApiClientError, ConnectionSettings, api_client_error, to_string,
}
use mosfet_rs.Machine.{
  State, disconnected, StateResponse, reply, error, nothing, nullstr, Channel, evaluate,
}
use mosfet_rs.Defaults.{as_u64}
use mosfet_rs.Agent.{
  Agent, enqueue, get_status as agent_status, set_health as set_agent_health,
  get_health as agent_health, report_health, handle_message, run_on_loop, pending_response,
}

pub record WsClient (E : Env) : Type 0 where
  pub agent : Agent E
  pub open agent use *
  pub address : E.Url
  pub backoff : ℕ  -- u32
  pub seqno : ℕ  -- u64
  pub stream : Option E.Stream
  pub state : State

-- `&bytes[1..]`
abbrev pub skip_first : List ℕ → Option (List ℕ)
skip_first [] = none
skip_first (x ∷ xs) = some xs

module _ (E : Env) where
  open E use {crates, World, Frame, Stream}

  abbrev Method : Type 0 → Type 0
  Method A = Exec World (WsClient E) A

  unfoldable pub on_agent : {A : Type 0} → Exec World (Agent E) A → Method A
  on_agent = within (λ (c : WsClient E). c.agent) (λ c a. record c { agent = a })

  abbrev pub set_health : Bool → Method (Unit {0})
  set_health healthy = on_agent (set_agent_health E healthy)

  abbrev pub get_health : Method (Option AgentHealth)
  get_health = on_agent (agent_health E)

  abbrev pub get_status : Method (Result ApiClientError (AgentToServer crates))
  get_status = on_agent (agent_status E)

  unfoldable pub new : ConnectionSettings crates → Outcome (WsClient E)
  new settings = elim (E.parse_url (settings.server_endpoint <> settings.listen_path)) [
    | none ↦ panics bad_url
    | some address ↦ returns (record {
      agent = record { settings = settings; agent_state = none; outbox = [] };
      address = address;
      backoff = 0;
      seqno = 0;
      stream = none;
      state = disconnected "";
    })
  ]

  abbrev sink_result : Result String (Unit {0}) → Result ApiClientError (Unit {0})
  sink_result (ok u) = ok tt
  sink_result (err e) = err (api_client_error 57 ("Websocket send error " <> e))

  unfoldable pub to_sink : Frame → Method (Result ApiClientError (Unit {0}))
  to_sink buf = do
    c ← gets (λ c. c)
    s ← unwrap no_stream c.stream
    r ← call (E.ws_send s buf)
    pure (sink_result r)

  -- `capabilities` and `flags` of the persistent state, 0 if there is none.
  abbrev pub features_of : Option (AgentToServer crates) → ℕ × ℕ
  features_of none = (0, 0)
  features_of (some st) = (st.capabilities, st.flags)

  abbrev pub stamp : ℕ × ℕ → ℕ → AgentToServer crates → AgentToServer crates
  stamp (capabilities, flags) n m = record m {
    capabilities = capabilities;
    flags = flags;
    sequence_num = n;
  }

  -- `.expect("Send failure")`
  unfoldable pub expect_sent : Result ApiClientError (Unit {0}) → Method (Unit {0})
  expect_sent (ok u) = pure tt
  expect_sent (err e) = panic send_failure

  unfoldable pub flush_all :
      ℕ × ℕ → List (AgentToServer crates) → Method (Result ApiClientError (Unit {0}))
  flush_all features [] = pure (ok tt)
  flush_all features (msg ∷ pending) = do
    modify (λ c. record c { seqno = as_u64 (c.seqno + 1) })
    c ← gets (λ c. c)
    sent ← to_sink (E.binary (E.encode (stamp features c.seqno msg)))
    expect_sent sent
    flush_all features pending

  unfoldable pub flush : Method (Result ApiClientError (Unit {0}))
  flush = do
    c ← gets (λ c. c)
    modify (λ c. record c { agent = record c.agent { outbox = [] } })
    flush_all (features_of c.agent_state) c.outbox

  abbrev pub received : Option (Result String Frame) → Result ApiClientError (Option Frame)
  received none = ok none
  received (some (ok message)) = ok (some message)
  received (some (err e)) = err (record { code = 96; details = "WebSocket receive error " <> e })

  unfoldable pub receive : Method (Result ApiClientError (Option Frame))
  receive = do
    c ← gets (λ c. c)
    s ← unwrap no_stream c.stream
    next ← call (E.ws_next s)
    pure (received next)

  unfoldable pub retry_later : String → Method (Result ApiClientError StateResponse)
  retry_later e = do
    modify (λ c. record c { backoff = (c.backoff + 1) % 2 ^ 32 })
    setting ← call (E.env_var "OPAMP_CONNECT_RETRIES")
    retries ← unwrap bad_retries (parse_u32 (unwrap_or setting "10"))
    c ← gets (λ c. c)
    if ltb retries c.backoff
        then pure (err (record { code = 187; details = "Failed to connect to websocket: " <> e }))
        else do call (E.sleep (as_u64 (2 ^ c.backoff))); pure (ok nothing)

  -- The match on the result of `connect_async`; a failure returns before `stream` is assigned.
  unfoldable pub keep_stream : Result String Stream → Method (Result ApiClientError StateResponse)
  keep_stream (ok s) = do modify (λ c. record c { stream = some s }); pure (ok (reply "connected"))
  keep_stream (err e) = retry_later e

  unfoldable pub connect : Method (Result ApiClientError StateResponse)
  connect = do
    set_health false
    c ← gets (λ c. c)
    answer ← call (E.ws_connect c.address)
    keep_stream answer

  unfoldable pub queue_handshake :
      Result ApiClientError (AgentToServer crates) → Method (Result ApiClientError StateResponse)
  queue_handshake (ok status) = do
    on_agent (modify (enqueue E status))
    pure (ok (reply "handshake enqueued"))
  queue_handshake (err e) = pure (ok (error ("State reporting failed: " <> to_string e)))

  unfoldable pub handshake : Method (Result ApiClientError StateResponse)
  handshake = do set_health false; status ← get_status; queue_handshake status

  -- `if let Ok(msg)`: what does not decode is passed over.
  unfoldable pub process_message : Option E.ServerToAgent → Method (Option StateResponse)
  process_message none = pure none
  process_message (some msg) = on_agent (handle_message E (set_agent_health E true) msg)

  -- `ServerToAgent::decode` of the bytes after the first.
  unfoldable pub process_bytes : Option (List ℕ) → Method (Option StateResponse)
  process_bytes none = panic bad_slice
  process_bytes (some bytes) = process_message (E.decode bytes)

  unfoldable pub process_binary : Option (List ℕ) → Method (Option StateResponse)
  process_binary none = pure none
  process_binary (some bytes) = process_bytes (skip_first bytes)

  -- `if let Ok(Some(Message::Binary(bytes)))`; all else is passed over.
  unfoldable pub process_frame :
      Result ApiClientError (Option Frame) → Method (Option StateResponse)
  process_frame (ok (some frame)) = process_binary (E.as_binary frame)
  process_frame (ok none) = pure none
  process_frame (err e) = pure none

  unfoldable pub finish_poll : Option StateResponse → Method (Result ApiClientError StateResponse)
  finish_poll (some early) = pure (ok early)
  finish_poll none = do on_agent (run_on_loop E); on_agent (pending_response E)

  unfoldable pub poll_stream : Method (Result ApiClientError StateResponse)
  poll_stream = do frame ← receive; exit ← process_frame frame; finish_poll exit

  unfoldable pub poll : Method (Result ApiClientError StateResponse)
  poll = do
    health ← get_health
    on_agent (report_health E health)
    c ← gets (λ c. c)
    if is_empty c.outbox then poll_stream else pure (ok (reply "flushing queue"))

  -- `self.flush().await.unwrap()`
  unfoldable pub unwrap_flush :
      Result ApiClientError (Unit {0}) → Method (Result ApiClientError StateResponse)
  unwrap_flush (ok u) = pure (ok (reply "messages sent"))
  unwrap_flush (err e) = panic send_failure

  unfoldable pub send : Method (Result ApiClientError StateResponse)
  send = do flushed ← flush; unwrap_flush flushed

  unfoldable pub wait : Method (Result ApiClientError StateResponse)
  wait = pure (ok (reply nullstr))

  unfoldable pub channel : Channel World (WsClient E)
  channel = record {
    get_instance_id = λ c. c.settings.instance_id;
    connect = connect;
    handshake = handshake;
    poll = poll;
    send = send;
    wait = wait;
  }

  unfoldable pub settle : Result ApiClientError State → Method (Unit {0})
  settle (ok s) = modify (λ c. record c { state = s })
  settle (err e) = modify (λ c. record c { state = disconnected "invalid state transition!" })

  unfoldable pub trigger : Method (Unit {0})
  trigger = do c ← gets (λ c. c); next ← evaluate channel c.state; settle next
