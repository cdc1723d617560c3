-- ===== src/Env.antt =====
-- The outside world: the calls that the clients make of the standard library, of reqwest and
-- tungstenite, of prost and of the user's `ApiCallbacks`. A call may read and change the world.
use mosfet_rs.Prelude.{ℕ, String, Option, List, Result}
use mosfet_rs.Crates.{Crates}
use mosfet_rs.Messages.{ApiClientError, AgentToServer}

-- The request that the builder chain of `send_and_receive` puts together.
pub record Request (K : Crates) : Type 0 where
  pub url : K.Url
  pub headers : List (String × String)
  pub body : List ℕ
  pub timeout : ℕ

-- `trait ApiCallbacks`; the callbacks' own state is part of the world.
pub record ApiCallbacks (K : Crates) (W : Type 0) : Type 0 where
  pub get_configuration : W → Result ApiClientError (Option K.AgentConfigMap) × W
  pub get_features : W → (ℕ × ℕ) × W
  pub on_loop : W → Result ApiClientError (Option (AgentToServer K)) × W
  pub on_error : K.ServerToAgent → W → Unit {0} × W
  pub on_health_check : K.ServerToAgent → W → Result ApiClientError (Option (AgentToServer K)) × W
  pub on_command : K.ServerToAgent → W → Result ApiClientError (Option (AgentToServer K)) × W
  pub on_agent_remote_config :
      K.ServerToAgent → W → Result ApiClientError (Option (AgentToServer K)) × W
  pub on_connection_settings_offers :
      K.ServerToAgent → W → Result ApiClientError (Option (AgentToServer K)) × W
  pub on_packages_available :
      K.ServerToAgent → W → Result ApiClientError (Option (AgentToServer K)) × W

pub record Env : Type 1 where
  pub crates : Crates
  pub open crates use *
  pub World : Type 0
  pub callbacks : ApiCallbacks crates World
  -- prost
  pub message_default : AgentToServer crates
  pub encode : AgentToServer crates → List ℕ
  pub decode : List ℕ → Option ServerToAgent
  -- std: the time and its nanoseconds since the epoch, environment variables, a sleep of some
  -- seconds
  pub SystemTime : Type 0
  pub now : World → SystemTime × World
  pub nanos_since_epoch : SystemTime → Option ℕ
  pub env_var : String → World → Option String × World
  pub sleep : ℕ → World → Unit {0} × World
  -- rand, and ulid with it as the source of randomness
  pub fill_bytes : ℕ → World → List ℕ × World
  pub Ulid : Type 0
  pub generate_from_datetime : SystemTime → World → Option Ulid × World
  pub ulid_text : Ulid → String
  -- sysinfo
  pub os_type : String
  pub kernel_version : World → Option String × World
  pub host_name : World → Option String × World
  -- reqwest; an error is its text
  pub http_post : Request crates → World → Result String Response × World
  pub http_head : Url → World → Result String Response × World
  pub http_bytes : Response → World → Result String (List ℕ) × World
  -- tungstenite
  pub ws_connect : Url → World → Result String Stream × World
  pub ws_send : Stream → Frame → World → Result String (Unit {0}) × World
  pub ws_next : Stream → World → Option (Result String Frame) × World
