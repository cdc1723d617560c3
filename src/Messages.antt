-- ===== src/Messages.antt =====
-- The agent's own messages (the structs of the generated module that src/opamp.rs and the clients
-- build field by field), the settings and the error type of src/api.rs.
use mosfet_rs.Prelude.{ℕ, String, ◌<>◌, Bool, Option, List, show_u32}
use mosfet_rs.Crates.{Crates}

-- `code` and `details` of an error that crosses the API.
pub record ApiClientError : Type 0 where
  pub code : ℕ
  pub details : String

-- `ApiClientError::new`
unfoldable pub api_client_error : ℕ → String → ApiClientError
api_client_error code msg = record {
  code = code;
  details = ("Service Error <" <> show_u32 code) <> (("> : ") <> msg);
}

abbrev pub code : ApiClientError → ℕ
code e = e.code

-- `Error::description`
abbrev pub description : ApiClientError → String
description e = e.details

-- `Display` for `ApiClientError`, which `to_string` goes by.
abbrev pub to_string : ApiClientError → String
to_string e = e.details

module _ (K : Crates) where
  open K use {AgentConfigMap, AgentDisconnect, PackageMap, AnyValueKind, LevelFilter}

  pub record ConnectionSettings : Type 0 where
    pub server_endpoint : String
    pub api_key : String
    pub listen_path : String
    pub name : String
    pub version : String
    pub instance_id : String
    pub debugmode : LevelFilter

  pub record AnyValue : Type 0 where
    pub value : Option AnyValueKind

  pub record KeyValue : Type 0 where
    pub key : String
    pub value : Option AnyValue

  pub record AgentDescription : Type 0 where
    pub identifying_attributes : List KeyValue
    pub non_identifying_attributes : List KeyValue

  pub record EffectiveConfig : Type 0 where
    pub config_map : Option AgentConfigMap

  pub record PackageStatuses : Type 0 where
    pub packages : PackageMap
    pub server_provided_all_packages_hash : List ℕ
    pub error_message : String

-- A Unix time in nanoseconds, cut to 64 bits by `as u64`.
pub record AgentHealth : Type 0 where
  pub healthy : Bool
  pub start_time_unix_nano : ℕ
  pub last_error : String

pub record RemoteConfigStatus : Type 0 where
  pub last_remote_config_hash : List ℕ
  pub status : ℕ
  pub error_message : String

pub record AgentToServer (K : Crates) : Type 0 where
  pub instance_uid : String
  pub sequence_num : ℕ
  pub capabilities : ℕ
  pub flags : ℕ
  pub agent_description : Option (AgentDescription K)
  pub health : Option AgentHealth
  pub effective_config : Option (EffectiveConfig K)
  pub remote_config_status : Option RemoteConfigStatus
  pub package_statuses : Option (PackageStatuses K)
  pub agent_disconnect : Option (K.AgentDisconnect)
