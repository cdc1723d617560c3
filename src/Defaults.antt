-- ===== src/Defaults.antt =====
-- `mod defaults` of src/opamp.rs: the initial parts of the agent's status. `S` is the client that
-- the caller has borrowed, which these functions leave alone.
use mosfet_rs.Prelude.{ℕ, ◌%◌, ◌^◌, String, false, some, none, [], ◌∷◌}
use mosfet_rs.Exec.{Exec, pure, call, unwrap, ◌>>=◌, no_host_info}
use mosfet_rs.Env.{Env}
use mosfet_rs.Util.{get_time_nanos, generate_ulid}
use mosfet_rs.Messages.{
  AgentDescription, AgentHealth, EffectiveConfig, KeyValue, PackageStatuses, RemoteConfigStatus,
}

-- `as u64`
abbrev pub as_u64 : ℕ → ℕ
as_u64 n = n % 2 ^ 64

module _ (E : Env) where
  open E use {crates, World, string_value, status_unset, no_packages}

  abbrev pub effective_config : EffectiveConfig crates
  effective_config = record { config_map = none }

  abbrev pub remote_config_status : RemoteConfigStatus
  remote_config_status = record {
    last_remote_config_hash = [];
    status = status_unset;
    error_message = "";
  }

  abbrev pub package_statuses : PackageStatuses crates
  package_statuses = record {
    packages = no_packages;
    server_provided_all_packages_hash = [];
    error_message = "";
  }

  abbrev pub text_attribute : String → String → KeyValue crates
  text_attribute key value = record {
    key = key;
    value = some (record { value = some (string_value value) });
  }

  module _ {S : Type 0} where
    unfoldable pub agent_health : Exec World S AgentHealth
    agent_health = do
      nanos ← get_time_nanos E
      pure (record { healthy = false; start_time_unix_nano = as_u64 nanos; last_error = "" })

    unfoldable pub agent_description : String → String → Exec World S (AgentDescription crates)
    agent_description name version = do
      id ← generate_ulid E
      kernel ← call E.kernel_version
      kernel_text ← unwrap no_host_info kernel
      host ← call E.host_name
      host_text ← unwrap no_host_info host
      pure (record {
        identifying_attributes =
            text_attribute "service.name" name
            ∷ text_attribute "service.version" version
            ∷ text_attribute "service.instance.id" (E.ulid_text id)
            ∷ [];
        non_identifying_attributes =
            text_attribute "os.type" E.os_type
            ∷ text_attribute "os.version" kernel_text
            ∷ text_attribute "host.name" host_text
            ∷ [];
      })
