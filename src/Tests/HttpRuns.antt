-- ===== src/Tests/HttpRuns.antt =====
-- Runs of the HTTP client in the concrete world, and its theorems there.
use mosfet_rs.Prelude.{ℕ, ◌≡◌, refl, none, some, [], parse_u32, show_u32, length}
use mosfet_rs.Exec.{Outcome, returns, repeat, ◌>>=◌, within}
use mosfet_rs.Env.{Env}
use mosfet_rs.Util.Clock.{Clock}
use mosfet_rs.Agent.Hosted.{Hosted}
use mosfet_rs.Machine.{disconnected, polling, evaluate}
use mosfet_rs.Agent.{get_status, get_health, report_health, set_health}
use mosfet_rs.Http.Wire.{
  HttpClient, on_agent, new, send_and_receive, build_request, read_response, read_body, decode_body,
  decode_bytes,
}
use mosfet_rs.Http.Steps.{
  connect, handshake, queue_handshake, poll, poll_idle, send, send_all, store_or_stop, wait,
  channel, settle, trigger,
}
use mosfet_rs.Tests.World.{demo, settings, plain_answer, empty_room, Room}

abbrev pub up : Env
up = demo (some plain_answer)

abbrev pub clock : Clock up
clock = record { read = λ w. w.time; reads = λ w. refl }

abbrev pub hosted : Hosted up
hosted = record {
  kernel = λ w. ("6.1", refl);
  host = λ w. ("host", refl);
  ulids = λ t w. ("01H", refl);
  clock = clock;
}

abbrev pub down : Env
down = demo none

-- The client that `new` returns for the settings.
abbrev pub fresh : HttpClient up
fresh = record {
  agent = record { settings = settings; agent_state = none; outbox = [] };
  address = "http://127.0.0.1:4320/v1/opamp";
  backoff = 0;
  seqno = 0;
  last_sent_timestamp = 0;
  inbox = [];
  state = disconnected "";
}

pub new-fresh : new up settings ≡ returns fresh
unfolding new
new-fresh = refl

-- Eight rounds: connect, shake hands, send the handshake, report health, send again.
run_of : ℕ → Outcome (Unit {0}) × HttpClient up × Room
unfolding repeat trigger settle channel evaluate connect handshake queue_handshake poll send
    send_all store_or_stop wait send_and_receive build_request read_response read_body decode_body
    decode_bytes on_agent within get_status get_health report_health set_health ◌>>=◌ poll_idle
run_of n = repeat n (trigger up) fresh empty_room

after_eight : (run_of 8).1.state ≡ polling ""
unfolding run_of
after_eight = refl

eight_posts : length (run_of 8).2.posted ≡ 2
unfolding run_of
eight_posts = refl

show_error : show_u32 404 ≡ "404"
unfolding show_u32
show_error = refl

parse_limits :
    (parse_u32 "10" ≡ some 10)
    × (parse_u32 "+7" ≡ some 7)
    × (parse_u32 "-7" ≡ none)
    × (parse_u32 "4294967296" ≡ none)
    × (parse_u32 "" ≡ none)
    × (parse_u32 "+" ≡ none)
unfolding parse_u32
parse_limits = (refl, refl, refl, refl, refl, refl)

pub ten : parse_u32 "10" ≡ some 10
unfolding parse_u32
ten = refl

pub hundred : parse_u32 "100" ≡ some 100
unfolding parse_u32
hundred = refl
