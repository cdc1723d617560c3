-- ===== src/Tests/RunClaims.antt =====
-- The theorems on runs of the HTTP client and on its inbox, in the concrete world.
use mosfet_rs.Prelude.{
  ℕ, List, push, some, ◌<◌, ◌≡◌, refl, sym, ap, ◌∙◌, [], ◌∷◌, ◌++◌, length, arith,
}
use mosfet_rs.Exec.{returns, repeat}
use mosfet_rs.Messages.{AgentHealth, AgentToServer}
use mosfet_rs.Machine.{disconnected, polling}
use mosfet_rs.Agent.Dispatch.{asks_us, Entry, Happens, events}
use mosfet_rs.Http.Wire.{HttpClient, new}
use mosfet_rs.Http.Steps.{trigger}
use mosfet_rs.Http.Safety.{Moves, run_walks}
use mosfet_rs.Http.Counts.{HttpLog, Counts}
use mosfet_rs.Http.Numbering.{run_numbered}
use mosfet_rs.Http.Exchange.{Answering, next_request}
use mosfet_rs.Http.Heartbeat.{heartbeat_cycle}
use mosfet_rs.Http.Startup.{Welcome, hello}
use mosfet_rs.Http.Delivery.{batch}
use mosfet_rs.Agent.Report.{well_again, report}
use mosfet_rs.Http.Reporting.{second, health_reported, comes_up}
use mosfet_rs.Http.Outage.{IsDown, outage_waits_bounded}
use mosfet_rs.Http.Polling.{heartbeat, twice}
use mosfet_rs.Http.Sending.{Answered}
use mosfet_rs.Http.Answering.{mail-Answered}
use mosfet_rs.Http.Piling.{Demanding, Burdened}
use mosfet_rs.Http.Starving.{repeat-Burdened}
use mosfet_rs.Agent.{wants_full_state}
use mosfet_rs.Agent.Loop.{queued_by, rounds_for}
use mosfet_rs.Tests.World.{
  blank, settings, empty_room, quiet, asking, plain_answer, Answer, parsed, Room,
}
use mosfet_rs.Tests.HttpRuns.{up, clock, hosted, down, fresh, new-fresh}
use mosfet_rs.Tests.HttpClaims.{log, late, well, status_of, ill, polling_client, outage, caller}
use mosfet_rs.Tests.CoreClaims.{call_log}

run_walks_example : (fresh.state ≡ disconnected "") × Moves up settings 6 fresh empty_room
run_walks_example = run_walks up settings 6 empty_room new-fresh

abbrev pub http_log : HttpLog up
http_log = record {
  log = log;
  unseen = record {
    get_configuration = λ w. refl;
    get_features = λ w. refl;
    on_loop = λ w. refl;
    on_error = λ m w. refl;
    on_health_check = λ m w. refl;
    on_command = λ m w. refl;
    on_agent_remote_config = λ m w. refl;
    on_connection_settings_offers = λ m w. refl;
    on_packages_available = λ m w. refl;
    now = λ w. refl;
    env_var = λ s w. refl;
    sleep = λ n w. refl;
    fill_bytes = λ n w. refl;
    generate_from_datetime = λ t w. refl;
    kernel_version = λ w. refl;
    host_name = λ w. refl;
  };
  sent-head = λ u w. refl;
}

run_numbered_example :
    let (o, c', w') = repeat 8 (trigger up) fresh empty_room in
    Counts up http_log settings fresh.address [] c' w'
run_numbered_example = run_numbered up http_log settings 8 empty_room new-fresh

abbrev pub answering : Answering up
answering = record {
  answers = λ q w. (_, refl, refl, refl);
  readable = λ r w. (_, refl, (_, refl));
}

abbrev pub welcome : Welcome up
welcome = record { hosted = hosted; present = λ u w. (_, refl, refl); answering = answering }

comes_up_example :
    let (o, c', w') = repeat 8 (trigger up) fresh empty_room in
    (o ≡ returns tt)
    × (c'.state ≡ polling "")
    × (c'.outbox ≡ [])
    × (length c'.inbox ≡ 2)
    × (c'.seqno ≡ 2)
    × ((st : AgentToServer up.crates) × ((h : AgentHealth) × ((t : ℕ) × (st.instance_uid
              ≡ settings.instance_id)
            × (c'.agent_state ≡ some (well_again up st h))
            × (w'.posted
                ≡ hello up http_log welcome settings fresh.address [] st
                  ∷ second up settings fresh.address st h t
                  ∷ []))))
comes_up_example = comes_up up http_log welcome settings empty_room new-fresh

-- One message waits in front of the report.
health_reported_example :
    let c = polling_client ill (blank ∷ []) in
    let ms = push c.outbox (report up settings ill (clock.read empty_room)) in
    let (o, c', w') = repeat 3 (trigger up) c empty_room in
    (o ≡ returns tt)
    × (c'.state ≡ polling "")
    × (c'.agent
        ≡ record c.agent { agent_state = some (well_again up (status_of ill) ill); outbox = [] })
    × (length c'.inbox ≡ 2)
    × (c'.seqno ≡ 2)
    × (w'.posted ≡ batch up log c 0 ms)
health_reported_example =
    health_reported up log answering (polling_client ill (blank ∷ [])) empty_room {x = ""}
      {st = status_of ill} {h = ill} (refl, refl) refl refl (omega arith)

caller_made : new down settings ≡ returns caller
unfolding new
caller_made = refl

outage_waits_bounded_example :
    let (o, c', w') = repeat 40 (trigger down) caller empty_room in
    (o ≡ returns tt) × IsDown c'.state × (w'.asleep < 2048)
outage_waits_bounded_example =
    outage_waits_bounded down 10 outage settings 40 empty_room (omega arith) (omega arith)
      caller_made

-- Two messages wait; the newer one is a command.
abbrev with_mail : HttpClient up
with_mail = record (polling_client well []) { inbox = quiet ∷ asking ∷ [] }

-- The command is answered, and the state is reported: two requests.
mail-Answered_example :
    (v : Room) × (ls : List (Entry up)) × (qs : List (AgentToServer up.crates)) × (v.noted
      ≡ (twice up empty_room).noted ++ ls)
    × Happens up call_log settings asking
        (events up call_log settings asking (status_of well))
        ls
        qs
    × (let ms = qs ++ queued_by up (up.callbacks.on_loop v).0 in
        Answered up log
          (status_of well)
          ms
          (quiet ∷ [])
          with_mail
          empty_room
          (repeat (rounds_for up ms) (trigger up) with_mail empty_room))
mail-Answered_example =
    mail-Answered up http_log answering call_log settings asking (quiet ∷ []) with_mail empty_room
      {st = status_of well} {h = well} (refl, refl) refl refl refl refl refl (omega arith)
      (omega arith)

heartbeat_cycle_example :
    let c = polling_client well [] in
    let (o, c', w') = repeat 3 (trigger up) c late in
    (o ≡ returns tt)
    × (c'.state ≡ polling "")
    × (c'.agent ≡ c.agent)
    × (length c'.inbox ≡ 1)
    × (c'.seqno ≡ 1)
    × (w'.posted ≡ next_request up log answering c (heartbeat up c) ∷ [])
heartbeat_cycle_example =
    heartbeat_cycle up log answering (polling_client well []) late {x = ""} {st = status_of well}
      {h = well} (refl, refl) refl refl refl (omega arith)

-- The server's every response carries the command that asks for the full state.
demanding : Demanding up call_log settings
demanding m (q, w, r, v, body, posted, got, decoded) =
    let same : plain_answer ≡ r = cc posted in
    let sent : r.bytes ≡ body = cc got in
    let read : parsed body ≡ m = cc decoded in
    let there : asking ≡ m = ap parsed (ap (λ (a : Answer). a.bytes) same ∙ sent) ∙ read in
    (ap (wants_full_state up) (sym there), ap (asks_us up call_log settings) (sym there))

-- The older of the two messages never gets its turn.
repeat-Burdened_example :
    let (o, c', w') = repeat 100 (repeat 3 (trigger up)) with_mail empty_room in
    (o ≡ returns tt) × Burdened up call_log settings (status_of well) (quiet ∷ []) c'
repeat-Burdened_example =
    repeat-Burdened up http_log answering call_log settings demanding (status_of well) {h = well}
      refl refl (quiet ∷ []) 100 with_mail empty_room
      (("", refl), refl, refl, refl, omega arith, ([], asking, refl, (refl, refl)))
