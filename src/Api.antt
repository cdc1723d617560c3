-- ===== src/Api.antt =====
-- The `Api` of src/api.rs: the default settings, the choice of a transport, and `poll`.
pub mod Safety
pub mod Startup
use text.Mathlib.Text.{starts_with}
use mosfet_rs.Prelude.{String, Bool, Option, unwrap_or, if◌then◌else◌}
use mosfet_rs.Exec.{Exec, pure, call, ◌>>=◌, Outcome, returns, panics, no_feature}
use mosfet_rs.Env.{Env}
use mosfet_rs.Util.{generate_ulid}
use mosfet_rs.Messages.{ConnectionSettings}
use mosfet_rs.Http.Wire as Wire
use mosfet_rs.Http.Steps as Steps
use mosfet_rs.Ws as Socket

-- The cargo features that the build is made with.
pub record Features : Type 0 where
  pub http : Bool
  pub websocket : Bool

-- `Box<dyn Channel>`: the two implementations of the trait.
pub data Api (E : Env) : Type 0 where
  over_http : Wire.HttpClient E → Api E
  over_socket : Socket.WsClient E → Api E

module _ (E : Env) where
  open E use {crates, World}

  unfoldable pub default_settings : Exec World (Unit {0}) (ConnectionSettings crates)
  default_settings = do
    version ← call (E.env_var "CARGO_PKG_VERSION")
    id ← generate_ulid E
    pure (record {
      server_endpoint = "ws://127.0.0.1:4320";
      api_key = "";
      listen_path = "/v1/opamp";
      name = "io.opentelemetry.collector";
      version = unwrap_or version "0.0.1";
      instance_id = E.ulid_text id;
      debugmode = E.level_info;
    })

  abbrev pub boxed : {C : Type 0} → (C → Api E) → Outcome C → Outcome (Api E)
  boxed wrap (returns c) = returns (wrap c)
  boxed wrap (panics f) = panics f

  unfoldable pub http_client : Features → ConnectionSettings crates → Outcome (Api E)
  http_client features settings =
      if features.http then boxed over_http (Wire.new E settings) else panics no_feature

  unfoldable pub websocket_client : Features → ConnectionSettings crates → Outcome (Api E)
  websocket_client features settings =
      if features.websocket then boxed over_socket (Socket.new E settings) else panics no_feature

  unfoldable pub new : Features → ConnectionSettings crates → Outcome (Api E)
  new features settings =
      if starts_with settings.server_endpoint "http"
      then http_client features settings
      else websocket_client features settings

  abbrev pub through :
      {C : Type 0}
      → (C → Api E)
      → Outcome (Unit {0}) × C × World
      → Outcome (Unit {0}) × Api E × World
  through wrap (o, c, w) = (o, wrap c, w)

  unfoldable pub poll : Exec World (Api E) (Unit {0})
  poll (over_http c) w = through over_http (Steps.trigger E c w)
  poll (over_socket c) w = through over_socket (Socket.trigger E c w)
