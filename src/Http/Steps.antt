-- ===== src/Http/Steps.antt =====
-- The transition handlers of src/httpclient/mod.rs: `impl Channel for HttpClient`.
use mosfet_rs.Prelude.{
  ℕ, ◌+◌, ◌%◌, ◌^◌, String, ◌<>◌, false, Option, none, some, List, [], ◌∷◌, Result, ok, err, ◌==◌,
  leb, ltb, push, pop, is_empty, unwrap_or, parse_u32, if◌then◌else◌,
}
use mosfet_rs.Exec.{Exec, pure, gets, call, unwrap, modify, ◌>>=◌, ◌>>◌, bad_retries}
use mosfet_rs.Util.{get_time_nanos}
use mosfet_rs.Env.{Env}
use mosfet_rs.Messages.{AgentToServer, ApiClientError, to_string}
use mosfet_rs.Machine.{
  State, disconnected, StateResponse, reply, error, nothing, nullstr, Channel, evaluate,
}
use mosfet_rs.Defaults.{as_u64}
use mosfet_rs.Agent.{
  enqueue, get_status, get_health, report_health, handle_message, run_on_loop, pending_response,
}
use mosfet_rs.Http.Wire.{HttpClient, on_agent, send_and_receive}

-- 30 seconds in nanoseconds.
abbrev pub server_poll_delay : ℕ
server_poll_delay = 30_000_000_000

module _ (E : Env) where
  open E use {crates, World, ServerToAgent}

  abbrev pub Method : Type 0 → Type 0
  Method A = Exec World (HttpClient E) A

  -- The branch of a failed request in `connect`.
  unfoldable pub retry_later : String → Method (Result ApiClientError StateResponse)
  retry_later e = do
    modify (λ c. record c { backoff = (c.backoff + 1) % 2 ^ 32 })
    setting ← call (E.env_var "OPAMP_CONNECT_RETRIES")
    retries ← unwrap bad_retries (parse_u32 (unwrap_or setting "10"))
    c ← gets (λ c. c)
    if ltb retries c.backoff
        then pure (err (record { code = 289; details = "Failed to connect to endpoint: " <> e }))
        else do
          call (E.sleep (as_u64 (2 ^ c.backoff)))
          pure (ok (error "endpoint not responding: retrying .."))

  unfoldable pub connect : Method (Result ApiClientError StateResponse)
  connect = do
    c ← gets (λ c. c)
    answer ← call (E.http_head c.address)
    elim answer [
      | ok response ↦
          if E.status_code response == 404
          then pure (ok (error (E.status_display response)))
          else pure (ok (reply "remote server present"))
      | err e ↦ retry_later e
    ]

  unfoldable pub queue_handshake :
      Result ApiClientError (AgentToServer crates) → Method (Result ApiClientError StateResponse)
  queue_handshake (ok status) = do
    on_agent E (modify (enqueue E status))
    pure (ok (reply "Handshake enqueued"))
  queue_handshake (err e) = pure (ok (error ("State reporting failed: " <> to_string e)))

  unfoldable pub handshake : Method (Result ApiClientError StateResponse)
  handshake = do status ← on_agent E (get_status E); queue_handshake status

  -- The end of `poll`, unless the message made it return.
  unfoldable pub finish_poll : Option StateResponse → Method (Result ApiClientError StateResponse)
  finish_poll (some early) = pure (ok early)
  finish_poll none = do on_agent E (run_on_loop E); on_agent E (pending_response E)

  -- `if let Some(msg) = self.inbox.pop()`
  unfoldable pub process_inbox :
      Option (ServerToAgent × List ServerToAgent) → Method (Option StateResponse)
  process_inbox none = pure none
  process_inbox (some (msg, rest)) = do
    modify (λ c. record c { inbox = rest })
    on_agent E (handle_message E (pure tt) msg)

  -- What `poll` does when the outbox is empty.
  unfoldable pub poll_idle : Method (Result ApiClientError StateResponse)
  poll_idle = do
    nanos ← get_time_nanos E
    c ← gets (λ c. c)
    if leb (c.last_sent_timestamp + server_poll_delay) nanos
        then (do
          on_agent E (
              modify
                (enqueue E (record E.message_default { instance_uid = c.settings.instance_id })))
          pure (ok (reply "server poll")))
        else if is_empty c.inbox
        then pure (ok nothing)
        else do exit ← process_inbox (pop c.inbox); finish_poll exit

  unfoldable pub poll : Method (Result ApiClientError StateResponse)
  poll = do
    health ← on_agent E (get_health E)
    on_agent E (report_health E health)
    c ← gets (λ c. c)
    if is_empty c.outbox then poll_idle else pure (ok (reply "flushing queue"))

  -- `Ok(message) => self.inbox.push(message)` and on, or `Err(e) => return`.
  unfoldable pub store_or_stop :
      Result ApiClientError ServerToAgent
      → Method (Result ApiClientError StateResponse)
      → Method (Result ApiClientError StateResponse)
  store_or_stop (ok message) rest = do modify (λ c. record c { inbox = push c.inbox message }); rest
  store_or_stop (err e) rest = pure (ok (error (to_string e)))

  unfoldable pub send_all :
      List (AgentToServer crates) → Method (Result ApiClientError StateResponse)
  send_all [] = pure (ok (reply "sent"))
  send_all (msg ∷ pending) = do
    received ← send_and_receive E msg 10 false
    store_or_stop received (send_all pending)

  -- `std::mem::take` empties the outbox before the first request.
  unfoldable pub send : Method (Result ApiClientError StateResponse)
  send = do
    c ← gets (λ c. c)
    modify (λ c. record c { agent = record c.agent { outbox = [] } })
    send_all c.outbox

  unfoldable pub wait : Method (Result ApiClientError StateResponse)
  wait = pure (ok (reply nullstr))

  unfoldable pub channel : Channel World (HttpClient E)
  channel = record {
    get_instance_id = λ c. c.settings.instance_id;
    connect = connect;
    handshake = handshake;
    poll = poll;
    send = send;
    wait = wait;
  }

  unfoldable pub settle : Result ApiClientError State → Method (Unit {0})
  settle (ok s) = modify (λ c. record c { state = s })
  settle (err e) = modify (λ c. record c { state = disconnected "invalid" })

  unfoldable pub trigger : Method (Unit {0})
  trigger = do c ← gets (λ c. c); next ← evaluate channel c.state; settle next
