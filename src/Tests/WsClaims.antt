-- ===== src/Tests/WsClaims.antt =====
-- The theorems on the websocket client, at concrete inputs.
use mosfet_rs.Prelude.{ℕ, List, ◌≤◌, ◌≡◌, refl, ok, [], ◌∷◌, true, some, none, [], arith}
use mosfet_rs.Exec.{returns, repeat}
use mosfet_rs.Exec.Keeps.{Ends}
use mosfet_rs.Machine.{disconnected, polling, reply}
use mosfet_rs.Ws.{WsClient, new, trigger, send, poll, finish_poll}
use mosfet_rs.Ws.Ready.{IsExternal}
use mosfet_rs.Ws.Safety.{InvUp, Moves, socket_walks, socket_stays_up}
use mosfet_rs.Ws.Delivery.{FrameLog, Flushed, socket_send_delivers}
use mosfet_rs.Ws.Lost.{Refused, IsLostStream, refused_dial_panics}
use mosfet_rs.Tests.World.{Inbound, parsed, quiet, settings, empty_room, blank, asking, Room}
use mosfet_rs.Exec.Tracks.{Tracked}
use mosfet_rs.Ws.Counts.{SocketLog, Sent, Counts}
use mosfet_rs.Ws.Numbering.{socket_numbered}
use mosfet_rs.Ws.Startup.{Listening}
use mosfet_rs.Ws.Inbound.{message, inbound, read, socket_poll_reads}
use mosfet_rs.Ws.Reporting.{CameUp, socket_comes_up}
use mosfet_rs.Ws.Conversation.{conversation_held}
use mosfet_rs.Ws.Listening.{Wire, Replies, Conversed}
use mosfet_rs.Messages.{AgentToServer}
use mosfet_rs.Agent.{Agent, with_health}
use mosfet_rs.Agent.Dispatch.{Entry, Done, events, no_return}
use mosfet_rs.Tests.CoreClaims.{call_log}
use mosfet_rs.Tests.HttpRuns.{up, clock, hosted, down, ten}

abbrev socket : WsClient up
socket = record {
  agent = record { settings = settings; agent_state = none; outbox = [] };
  address = "http://127.0.0.1:4320/v1/opamp";
  backoff = 0;
  seqno = 0;
  stream = none;
  state = disconnected "";
}

abbrev dialler : WsClient down
dialler = record {
  agent = record { settings = settings; agent_state = none; outbox = [] };
  address = "http://127.0.0.1:4320/v1/opamp";
  backoff = 0;
  seqno = 0;
  stream = none;
  state = disconnected "";
}

socket_made : new up settings ≡ returns socket
unfolding new
socket_made = refl

dialler_made : new down settings ≡ returns dialler
unfolding new
dialler_made = refl

abbrev pub joined : WsClient up
joined = record socket {
  agent = record socket.agent {
    agent_state = some (record blank {
      instance_uid = "01G";
      health = some (record { healthy = true; start_time_unix_nano = 5; last_error = "" });
    });
  };
  stream = some 5;
  state = polling "";
}

socket_stays_up_example :
    Ends (λ u. InvUp up settings) IsExternal (repeat 9 (trigger up) joined empty_room)
socket_stays_up_example = socket_stays_up up settings 9 joined empty_room (((refl, (tt, refl)), tt))

abbrev refused : Refused down
refused = record {
  reason = λ w. "refused";
  dial = λ u w. refl;
  retries = 10;
  some_retry = omega arith;
  limit = λ w. ten;
}

refused_dial_panics_example :
    Ends (λ u c'. ⊥) IsLostStream (repeat 4 (trigger down) dialler empty_room)
refused_dial_panics_example = refused_dial_panics down refused settings empty_room dialler_made

abbrev pub frame_log : FrameLog up
frame_log = record { sent = λ w. w.frames; sent-send = λ s f w. refl }

abbrev two_waiting : WsClient up
two_waiting = record joined { agent = record joined.agent { outbox = blank ∷ blank ∷ [] } }

socket_send_delivers_example :
    Flushed up frame_log 5
      (0, 0)
      (λ r. r ≡ ok (reply "messages sent"))
      joined
      empty_room
      (blank ∷ blank ∷ [])
      (send up two_waiting empty_room)
socket_send_delivers_example =
    socket_send_delivers up frame_log 5 two_waiting empty_room refl (omega arith)

socket_walks_example : (socket.state ≡ disconnected "") × Moves up settings 6 socket empty_room
socket_walks_example = socket_walks up settings 6 empty_room socket_made

abbrev pub joined_state : AgentToServer up.crates
joined_state = record blank {
  instance_uid = "01G";
  health = some (record { healthy = true; start_time_unix_nano = 5; last_error = "" });
}

-- A frame waits: a header byte and a message with a command.
abbrev ringing : Room
ringing = record empty_room { incoming = (0 ∷ 7 ∷ []) ∷ [] }

socket_poll_reads_example :
    (a : Agent up) × (v : Room) × Done up call_log settings asking joined.agent
      (read up 5 ringing)
      (with_health up true joined_state)
      no_return
      (events up call_log settings asking (with_health up true joined_state))
      (returns no_return, a, v)
    × (poll up joined ringing ≡ finish_poll up none (record joined { agent = a }) v)
socket_poll_reads_example =
    socket_poll_reads up clock call_log settings joined ringing 5 {st = joined_state} refl refl refl
      refl refl refl

abbrev pub socket_log : SocketLog up
socket_log = record {
  log = frame_log;
  unseen = record {
    get_configuration = λ w. refl;
    get_features = λ w. refl;
    on_loop = λ w. refl;
    on_error = λ m w. refl;
    on_health_check = λ m w. refl;
    on_command = λ m w. refl;
    on_agent_remote_config = λ m w. refl;
    on_connection_settings_offers = λ m w. refl;
    on_packages_available = λ m w. refl;
    now = λ w. refl;
    env_var = λ s w. refl;
    sleep = λ n w. refl;
    fill_bytes = λ n w. refl;
    generate_from_datetime = λ t w. refl;
    kernel_version = λ w. refl;
    host_name = λ w. refl;
  };
  sent-connect = λ u w. refl;
  sent-next = λ s w. refl;
}

abbrev pub listening : Listening up
listening = record { hosted = hosted; dial = λ u w. (5, refl); takes = λ s f w. refl }

socket_comes_up_example :
    CameUp up socket_log listening settings empty_room (repeat 8 (trigger up) socket empty_room)
socket_comes_up_example = socket_comes_up up socket_log listening settings empty_room socket_made

socket_numbered_example :
    Tracked
      (Counts up socket_log settings [])
      (Sent up socket_log settings [])
      (repeat 8 (trigger up) socket empty_room)
socket_numbered_example = socket_numbered up socket_log settings 8 empty_room socket_made

abbrev rung : AgentToServer up.crates
rung = with_health up true joined_state

-- The messages in the frames to come, up to a frame without a byte.
abbrev expected : List (List ℕ) → List Inbound
expected [] = []
expected ([] ∷ frames) = []
expected ((b ∷ bs) ∷ frames) = parsed bs ∷ expected frames

expected_next :
    (frames : List (List ℕ)) (m : Inbound) (ms : List Inbound) (w : Room)
    → w.incoming ≡ frames
    → expected frames ≡ m ∷ ms
    → (inbound up (up.ws_next 5 w).0 ≡ message m) × (expected (up.ws_next 5 w).1.incoming ≡ ms)
expected_next [] m ms w there e = cc e
expected_next ([] ∷ frames) m ms w there e = cc e
expected_next ((b ∷ bs) ∷ frames) m ms w there e = rw there (cc e, cc e)

abbrev wire : Wire up call_log 5
wire = record {
  incoming = λ w. expected w.incoming;
  next = λ m ms w e. expected_next w.incoming m ms w refl e;
  unseen = record {
    get_configuration = λ w. refl;
    get_features = λ w. refl;
    on_loop = λ w. refl;
    on_error = λ m w. refl;
    on_health_check = λ m w. refl;
    on_command = λ m w. refl;
    on_agent_remote_config = λ m w. refl;
    on_connection_settings_offers = λ m w. refl;
    on_packages_available = λ m w. refl;
    now = λ w. refl;
    env_var = λ s w. refl;
    sleep = λ n w. refl;
    fill_bytes = λ n w. refl;
    generate_from_datetime = λ t w. refl;
    kernel_version = λ w. refl;
    host_name = λ w. refl;
  };
  incoming-send = λ r f w. refl;
  takes = λ f w. refl;
  calls-now = λ w. refl;
  calls-next = λ w. refl;
  calls-loop = λ w. refl;
  calls-send = λ r f w. refl;
}

-- A command, a message that says nothing, and the command again, of which the first two are read.
abbrev busy : Room
busy = record empty_room { incoming = (0 ∷ 7 ∷ []) ∷ (0 ∷ 8 ∷ []) ∷ (0 ∷ 7 ∷ []) ∷ [] }

conversation_held_example :
    (n : ℕ) × (n ≤ 6)
    × ((ls : List (Entry up)) × (qs : List (AgentToServer up.crates)) × Replies up socket_log
          call_log clock 5 wire settings rung busy.noted
          (asking ∷ quiet ∷ [])
          ls
          qs
        × Conversed up socket_log call_log clock 5 wire settings rung
            (asking ∷ [])
            ls
            qs
            joined
            busy
            (repeat n (trigger up) joined busy))
conversation_held_example =
    conversation_held up socket_log call_log clock 5 wire settings rung
      {h = record { healthy = true; start_time_unix_nano = 5; last_error = "" }} refl refl
      (asking ∷ quiet ∷ []) (asking ∷ []) joined busy
      (("", refl), refl, refl, refl, refl, omega arith) refl
