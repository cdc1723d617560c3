-- ===== src/Crates.antt =====
-- The code that is not in the repository, as parameters: the types of the generated protocol module
-- (the `opamp-spec` submodule) and of the crates, and what is read off their values.
use mosfet_rs.Prelude.{ℕ, String, Bool, Option, List}

-- `connection_settings` of an inbound message: which of the three offers are present.
pub record Offers : Type 0 where
  pub own_metrics : Bool
  pub own_traces : Bool
  pub own_logs : Bool

pub record Crates : Type 1 where
  -- opamp.proto
  pub AgentConfigMap : Type 0
  pub AgentDisconnect : Type 0
  pub PackageMap : Type 0
  pub AnyValueKind : Type 0
  pub no_packages : PackageMap
  pub string_value : String → AnyValueKind
  pub status_unset : ℕ
  -- `ServerToAgent`: the parts that the clients read; an `Option` that is only tested is a `Bool`.
  pub ServerToAgent : Type 0
  pub has_command : ServerToAgent → Bool
  pub has_error_response : ServerToAgent → Bool
  pub flags : ServerToAgent → ℕ
  pub instance_uid : ServerToAgent → String
  pub has_remote_config : ServerToAgent → Bool
  pub connection_settings : ServerToAgent → Option Offers
  pub has_packages_available : ServerToAgent → Bool
  pub report_full_state : ℕ
  -- url
  pub Url : Type 0
  pub parse_url : String → Option Url
  -- log
  pub LevelFilter : Type 0
  pub level_info : LevelFilter
  -- reqwest
  pub Response : Type 0
  pub is_success : Response → Bool
  pub status_code : Response → ℕ
  -- `as_str` and `to_string` of the status
  pub status_text : Response → String
  pub status_display : Response → String
  pub header : Response → String → Option String
  -- libdeflater: the input and the length of the output slice; the bytes written, or an error
  pub gzip_compress : List ℕ → ℕ → Option (List ℕ)
  pub gzip_decompress : List ℕ → ℕ → Option (List ℕ)
  -- tungstenite
  pub Stream : Type 0
  pub Frame : Type 0
  pub binary : List ℕ → Frame
  pub as_binary : Frame → Option (List ℕ)
