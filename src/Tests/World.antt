-- ===== src/Tests/World.antt =====
-- A small concrete world: a clock that advances at each reading, a log of requests and of seconds
-- slept, a server that answers all alike or does not answer, frames to come, and callbacks that note
-- each call and answer a command only, if it comes first.
use mosfet_rs.Prelude.{
  ℕ, ◌+◌, String, Bool, true, false, Option, none, some, List, [], ◌∷◌, Result, ok, err, ◌==◌,
  str_eq, push, show_u32, if◌then◌else◌,
}
use mosfet_rs.Crates.{Crates}
use mosfet_rs.Messages.{AgentToServer, ApiClientError, ConnectionSettings}
use mosfet_rs.Env.{Env, Request, ApiCallbacks}
use mosfet_rs.Agent.Dispatch.{
  Callback, command, error, health_check, remote_config, offers, packages,
}

pub record Inbound : Type 0 where
  pub command : Bool
  pub bits : ℕ
  pub uid : String

pub record Answer : Type 0 where
  pub code : ℕ
  pub encoding : Option String
  pub bytes : List ℕ

abbrev pub demo_crates : Crates
demo_crates = record {
  AgentConfigMap = String;
  AgentDisconnect = Unit;
  PackageMap = Unit;
  AnyValueKind = String;
  no_packages = tt;
  string_value = λ s. s;
  status_unset = 0;
  ServerToAgent = Inbound;
  has_command = λ m. m.command;
  has_error_response = λ m. false;
  flags = λ m. m.bits;
  instance_uid = λ m. m.uid;
  has_remote_config = λ m. false;
  connection_settings = λ m. none;
  has_packages_available = λ m. false;
  report_full_state = 1;
  Url = String;
  parse_url = λ s. some s;
  LevelFilter = ℕ;
  level_info = 3;
  Response = Answer;
  is_success = λ r. r.code == 200;
  status_code = λ r. r.code;
  status_text = λ r. show_u32 r.code;
  status_display = λ r. show_u32 r.code;
  header = λ r name. if str_eq name "Content-Encoding" then r.encoding else none;
  gzip_compress = λ bytes room. none;
  gzip_decompress = λ bytes room. none;
  Stream = ℕ;
  Frame = List ℕ;
  binary = λ bytes. bytes;
  as_binary = λ frame. some frame;
}

pub record Room : Type 0 where
  pub time : ℕ
  pub posted : List (Request demo_crates)
  pub asleep : ℕ
  pub frames : List (ℕ × List ℕ)
  pub incoming : List (List ℕ)
  pub noted : List (Callback × Inbound × Option (AgentToServer demo_crates))

abbrev pub empty_room : Room
empty_room = record { time = 1000; posted = []; asleep = 0; frames = []; incoming = []; noted = [] }

abbrev Reply : Type 0
Reply = Result ApiClientError (Option (AgentToServer demo_crates)) × Room

abbrev silent : Room → Reply
silent w = (ok none, w)

abbrev pub blank : AgentToServer demo_crates
blank = record {
  instance_uid = "";
  sequence_num = 0;
  capabilities = 0;
  flags = 0;
  agent_description = none;
  health = none;
  effective_config = none;
  remote_config_status = none;
  package_statuses = none;
  agent_disconnect = none;
}

abbrev note : Callback → Inbound → Option (AgentToServer demo_crates) → Room → Room
note c m r w = record w { noted = push w.noted (c, m, r) }

-- The first callback that is called, if it is a command, is answered with a blank message: the
-- callbacks remember what they have been asked.
abbrev pub answer_to :
    Callback
    → List (Callback × Inbound × Option (AgentToServer demo_crates))
    → Option (AgentToServer demo_crates)
answer_to command [] = some blank
answer_to _ _ = none

abbrev respond : Callback → Inbound → Room → Reply
respond c m w = (ok (answer_to c w.noted), note c m (answer_to c w.noted) w)

abbrev pub demo_callbacks : ApiCallbacks demo_crates Room
demo_callbacks = record {
  get_configuration = λ w. (ok (some "collector.yaml"), w);
  get_features = λ w. ((7, 2), w);
  on_loop = silent;
  on_error = λ m w. (tt, note error m none w);
  on_health_check = respond health_check;
  on_command = respond command;
  on_agent_remote_config = respond remote_config;
  on_connection_settings_offers = respond offers;
  on_packages_available = respond packages;
}

abbrev pub quiet : Inbound
quiet = record { command = false; bits = 0; uid = "" }

-- A command that also asks the agent of `settings` for its full state.
abbrev pub asking : Inbound
asking = record { command = true; bits = 1; uid = "01G" }

abbrev pub parsed : List ℕ → Inbound
parsed [] = quiet
parsed (x ∷ xs) = if x == 7 then asking else quiet

-- With `none` the server does not answer.
abbrev pub demo : Option Answer → Env
demo server = record {
  crates = demo_crates;
  World = Room;
  callbacks = demo_callbacks;
  message_default = blank;
  encode = λ m. m.sequence_num ∷ m.capabilities ∷ [];
  decode = λ bytes. some (parsed bytes);
  SystemTime = ℕ;
  now = λ w. (w.time, record w { time = w.time + 1 });
  nanos_since_epoch = λ t. some t;
  env_var = λ name w. (none, w);
  sleep = λ n w. (tt, record w { asleep = w.asleep + n });
  fill_bytes = λ n w. ([], w);
  Ulid = String;
  generate_from_datetime = λ t w. (some "01H", w);
  ulid_text = λ u. u;
  os_type = "linux";
  kernel_version = λ w. (some "6.1", w);
  host_name = λ w. (some "host", w);
  http_post = λ r w. (response server, record w { posted = push w.posted r });
  http_head = λ u w. (response server, w);
  http_bytes = λ r w. (ok r.bytes, w);
  ws_connect = λ u w. (stream server, w);
  ws_send = λ s frame w. (ok tt, record w { frames = push w.frames (s, frame) });
  ws_next = λ s w. (arrived w.incoming, record w { incoming = left w.incoming });
}
  where
    response : Option Answer → Result String Answer
    response none = err "refused"
    response (some a) = ok a

    arrived : List (List ℕ) → Option (Result String (List ℕ))
    arrived [] = none
    arrived (frame ∷ frames) = some (ok frame)

    left : List (List ℕ) → List (List ℕ)
    left [] = []
    left (frame ∷ frames) = frames

    stream : Option Answer → Result String ℕ
    stream none = err "refused"
    stream (some a) = ok 5

abbrev pub settings : ConnectionSettings demo_crates
settings = record {
  server_endpoint = "http://127.0.0.1:4320";
  api_key = "key";
  listen_path = "/v1/opamp";
  name = "collector";
  version = "0.0.1";
  instance_id = "01G";
  debugmode = 3;
}

abbrev pub plain_answer : Answer
plain_answer = record { code = 200; encoding = none; bytes = 7 ∷ 2 ∷ [] }

abbrev pub gzip_answer : Answer
gzip_answer = record { code = 200; encoding = some "gzip"; bytes = 31 ∷ 139 ∷ [] }
