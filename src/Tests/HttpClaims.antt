-- ===== src/Tests/HttpClaims.antt =====
-- The theorems on the HTTP client and on the state machine, at concrete inputs.
use mosfet_rs.Prelude.{inl, ◌≡◌, ◌⊎◌, refl, true, false, none, some, List, [], ◌∷◌, arith, push}
use mosfet_rs.Exec.{returns, repeat}
use mosfet_rs.Exec.Keeps.{Ends}
use mosfet_rs.Env.{Env}
use mosfet_rs.Messages.{AgentHealth, AgentToServer}
use mosfet_rs.Machine.{disconnected, polling}
use mosfet_rs.Http.Wire.{HttpClient, send_and_receive, gzip_request}
use mosfet_rs.Http.Steps.{send, trigger}
use mosfet_rs.Http.Safety.{IsExternal, InvUp, run_stays_up}
use mosfet_rs.Http.Ready.{OnResponse}
use mosfet_rs.Http.Delivery.{RequestLog, Delivered, taken, send_delivers}
use mosfet_rs.Http.Backoff.{Outage, Waited, attempts, connect_backs_off, connect_never_waits}
use mosfet_rs.Http.Gzip.{IsPanic, gzip_response_panics, gzip_request_empty}
use mosfet_rs.Tests.World.{demo, settings, gzip_answer, empty_room, blank, Room}
use mosfet_rs.Tests.HttpRuns.{up, clock, down, fresh, ten, hundred}

-- A client that polls, healthy and with nothing to send, at time 1000.
abbrev pub well : AgentHealth
well = record { healthy = true; start_time_unix_nano = 5; last_error = "" }

abbrev pub ill : AgentHealth
ill = record well { healthy = false }

abbrev pub status_of : AgentHealth → AgentToServer (up.crates)
status_of h = record blank { instance_uid = "01G"; capabilities = 7; flags = 2; health = some h }

abbrev pub polling_client : AgentHealth → List (AgentToServer (up.crates)) → HttpClient up
polling_client h outbox = record fresh {
  agent = record fresh.agent { agent_state = some (status_of h); outbox = outbox };
  state = polling "";
}

run_stays_up_example :
    Ends
      (λ u. InvUp up settings)
      IsExternal
      (repeat 9 (trigger up) (polling_client ill []) empty_room)
run_stays_up_example =
    run_stays_up up settings 9 (polling_client ill []) empty_room (((refl, (tt, refl)), tt))

abbrev pub log : RequestLog up
log = record {
  clock = clock;
  sent = λ w. w.posted;
  sent-post = λ r w. refl;
  sent-now = λ w. refl;
  sent-bytes = λ r w. refl;
}

abbrev two_waiting : HttpClient up
two_waiting = polling_client well (blank ∷ blank ∷ [])

send_delivers_example :
    Delivered up log
      (taken up log two_waiting)
      empty_room
      (blank ∷ blank ∷ [])
      (send up two_waiting empty_room)
    × Ends
        (λ r c'. (c'.state ≡ polling "") × (c'.agent ≡ (taken up log two_waiting).agent))
        OnResponse
        (send up two_waiting empty_room)
send_delivers_example = send_delivers up log two_waiting empty_room (omega arith)

abbrev pub late : Room
late = record empty_room { time = 30_000_000_000 }

abbrev pub outage : Outage down 10
outage = record {
  reason = λ w. "refused";
  refused = λ u w. refl;
  limit = λ w. ten;
  slept = λ w. w.asleep;
  slept-head = λ u w. refl;
  slept-env = λ s w. refl;
  slept-sleep = λ n w. refl;
}

abbrev pub caller : HttpClient down
caller = record {
  agent = record { settings = settings; agent_state = none; outbox = [] };
  address = "http://127.0.0.1:4320/v1/opamp";
  backoff = 0;
  seqno = 0;
  last_sent_timestamp = 0;
  inbox = [];
  state = disconnected "";
}

connect_backs_off_example :
    Waited down 10 outage 0 10 empty_room (attempts down 10 outage 10 caller empty_room)
connect_backs_off_example =
    connect_backs_off down 10 outage 10 0 caller empty_room (omega arith) refl (omega arith)

-- The same with a limit of 100 retries.
abbrev patient : Env
patient = record down { env_var = λ name w. (some "100", w) }

abbrev long_outage : Outage patient 100
long_outage = record {
  reason = λ w. "refused";
  refused = λ u w. refl;
  limit = λ w. hundred;
  slept = λ w. w.asleep;
  slept-head = λ u w. refl;
  slept-env = λ s w. refl;
  slept-sleep = λ n w. refl;
}

abbrev tired : HttpClient patient
tired = record {
  agent = record { settings = settings; agent_state = none; outbox = [] };
  address = "http://127.0.0.1:4320/v1/opamp";
  backoff = 63;
  seqno = 0;
  last_sent_timestamp = 0;
  inbox = [];
  state = disconnected "";
}

connect_never_waits_example :
    let (o, c', w') = attempts patient 100 long_outage 3 tired empty_room in
    (o ≡ returns tt) × (c'.backoff ≡ 66) × (w'.asleep ≡ 0)
connect_never_waits_example =
    connect_never_waits patient 100 long_outage 3 tired empty_room (inl (omega arith)) (omega arith)

abbrev zipping : Env
zipping = demo (some gzip_answer)

abbrev zipped : HttpClient zipping
zipped = record {
  agent = record { settings = settings; agent_state = none; outbox = [] };
  address = "http://127.0.0.1:4320/v1/opamp";
  backoff = 0;
  seqno = 0;
  last_sent_timestamp = 0;
  inbox = [];
  state = polling "";
}

gzip_response_panics_example : IsPanic (send_and_receive zipping blank 10 false zipped empty_room).0
gzip_response_panics_example =
    gzip_response_panics zipping blank 10 zipped empty_room {response = gzip_answer}
      {body = 31 ∷ 139 ∷ []} refl refl refl refl

gzip_request_empty_example :
    let (o, c', w') = send_and_receive up blank 10 true two_waiting empty_room in
    (IsPanic o × (w'.posted ≡ [])) ⊎ (w'.posted ≡ push [] (gzip_request up two_waiting 10 []))
gzip_request_empty_example = gzip_request_empty up log blank 10 two_waiting empty_room
