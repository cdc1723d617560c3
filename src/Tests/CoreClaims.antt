-- ===== src/Tests/CoreClaims.antt =====
-- The theorems on the state machine and on the part that both transports share, at concrete inputs.
use mosfet_rs.Prelude.{◌≡◌, refl, ap, Option, ok, false, none, some, [], ◌∷◌}
use mosfet_rs.Exec.{pure, returns, ◌>>=◌}
use mosfet_rs.Exec.Keeps.{Meets}
use mosfet_rs.Messages.{AgentToServer}
use mosfet_rs.Agent.{handle_message, Agent, get_status, set_state}
use mosfet_rs.Agent.Dispatch.{CallLog, Done, events, no_return}
use mosfet_rs.Agent.Dispatch.Handling.{handle_message_does}
use mosfet_rs.Agent.Once.{get_status_again}
use mosfet_rs.Agent.Ready.{handle_message-IsReady, IsReady, GoesOn, Never}
use mosfet_rs.Tests.World.{empty_room, Room, quiet, asking, settings}
use mosfet_rs.Tests.HttpRuns.{up}
use mosfet_rs.Defaults.{text_attribute, remote_config_status, package_statuses}

handle_message-IsReady_example :
    Meets (IsReady up settings) (handle_message up (pure tt) quiet) (GoesOn up settings) Never
handle_message-IsReady_example =
    handle_message-IsReady up settings (pure tt) (record { at = λ a w h. h }) quiet

abbrev agent : Agent up
agent = record { settings = settings; agent_state = none; outbox = [] }

-- The first status of the concrete world.
abbrev report : AgentToServer (up.crates)
report = record {
  instance_uid = "01G";
  sequence_num = 0;
  capabilities = 7;
  flags = 2;
  agent_description = some (record {
    identifying_attributes =
        text_attribute up "service.name" "collector"
        ∷ text_attribute up "service.version" "0.0.1"
        ∷ text_attribute up "service.instance.id" "01H"
        ∷ [];
    non_identifying_attributes =
        text_attribute up "os.type" "linux"
        ∷ text_attribute up "os.version" "6.1"
        ∷ text_attribute up "host.name" "host"
        ∷ [];
  });
  health = some (record { healthy = false; start_time_unix_nano = 1001; last_error = "" });
  effective_config = some (record { config_map = some "collector.yaml" });
  remote_config_status = some (remote_config_status up);
  package_statuses = some (package_statuses up);
  agent_disconnect = none;
}

abbrev informed : Agent up
informed = record agent { agent_state = some report }

abbrev later : Room
later = record empty_room { time = 1002 }

abbrev late_room : Room
late_room = record empty_room { time = 5000 }

first_status : get_status up agent empty_room ≡ (returns (ok report), informed, later)
unfolding get_status ◌>>=◌
first_status = refl

-- Asked again later, it answers the same.
get_status_again_example :
    get_status up informed late_room ≡ (returns (ok report), informed, late_room)
get_status_again_example =
    get_status_again up agent informed empty_room later late_room first_status

abbrev pub call_log : CallLog up
call_log = record {
  calls = λ w. w.noted;
  on_command = λ m w. refl;
  on_error = λ m w. refl;
  on_health_check = λ m w. refl;
  on_agent_remote_config = λ m w. refl;
  on_connection_settings_offers = λ m w. refl;
  on_packages_available = λ m w. refl;
}

-- A command that asks for the full state: the reply and the state are queued, in this order.
handle_message_does_example :
    Done up call_log settings asking informed later report no_return
      (events up call_log settings asking report)
      (handle_message up (pure tt) asking informed later)
handle_message_does_example =
    handle_message_does up call_log settings asking (pure tt) (λ x. x) unpolished report informed
      later refl refl
  where
    unpolished :
        (x : AgentToServer up.crates) (a : Agent up) (v : Room)
        → a.agent_state ≡ some x
        → pure tt a v ≡ (returns tt, set_state up x a, v)
    unpolished x a v there =
        ap (λ (s : Option (AgentToServer up.crates)). (returns tt, record a { agent_state = s }, v))
          there
