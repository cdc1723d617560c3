-- ===== src/Agent.antt =====
-- The part that src/httpclient/mod.rs and src/wsclient/mod.rs write alike: the settings, the
-- persistent `agent_state`, the outbox, and the methods that only touch these.

pub mod Mail
pub mod Status
pub mod Ready
pub mod Phases
pub mod Once
pub mod Unseen
pub mod Hosted
pub mod Dispatch
pub mod Loop
pub mod Report
use Prim.Native.Nat.{bit_and}
use mosfet_rs.Prelude.{
  ◌<>◌, Bool, true, not, Option, none, some, List, Result, ok, err, ◌==◌, str_eq, push, is_empty,
  if◌then◌else◌,
}
use mosfet_rs.Exec.{
  Exec, pure, gets, call, unwrap, unwrap_ok, when, modify, ◌>>=◌, ◌>>◌, no_agent_state, no_health,
  no_status,
}
use mosfet_rs.Crates.{Offers}
use mosfet_rs.Env.{Env}
use mosfet_rs.Util.{get_time_nanos}
use mosfet_rs.Messages.{AgentHealth, AgentToServer, ApiClientError, ConnectionSettings, to_string}
use mosfet_rs.Machine.{StateResponse, reply, error, nothing}
use mosfet_rs.Defaults.{
  as_u64, agent_description, agent_health, remote_config_status, package_statuses,
}

pub record Agent (E : Env) : Type 0 where
  pub settings : ConnectionSettings E.crates
  pub agent_state : Option (AgentToServer E.crates)
  pub outbox : List (AgentToServer E.crates)

module _ (E : Env) where
  open E use {crates, World, callbacks, ServerToAgent}

  abbrev pub Method : Type 0 → Type 0
  Method A = Exec World (Agent E) A

  abbrev pub set_state : AgentToServer crates → Agent E → Agent E
  set_state st a = record a { agent_state = some st }

  abbrev pub enqueue : AgentToServer crates → Agent E → Agent E
  enqueue m a = record a { outbox = push a.outbox m }

  -- A failing `get_configuration` is logged and counts as no configuration.
  abbrev pub config_or_none :
      Result ApiClientError (Option E.AgentConfigMap) → Option E.AgentConfigMap
  config_or_none (ok config) = config
  config_or_none (err e) = none

  -- The block under `if self.agent_state.borrow().is_none()`.
  unfoldable pub populate : Option (AgentToServer crates) → Method (Unit {0})
  populate (some st) = pure tt
  populate none = do
    config ← call callbacks.get_configuration
    features ← call callbacks.get_features
    settings ← gets (λ (a : Agent E). a.settings)
    description ← agent_description E settings.name settings.version
    health ← agent_health E
    modify (
        set_state (record {
          instance_uid = settings.instance_id;
          sequence_num = 0;
          capabilities = features.0;
          flags = features.1;
          agent_description = some description;
          health = some health;
          effective_config = some (record { config_map = config_or_none config });
          remote_config_status = some (remote_config_status E);
          package_statuses = some (package_statuses E);
          agent_disconnect = none;
        }))

  unfoldable pub get_status : Method (Result ApiClientError (AgentToServer crates))
  unfolding populate agent_description agent_health
  get_status = do
    old ← gets (λ (a : Agent E). a.agent_state)
    populate old
    new ← gets (λ (a : Agent E). a.agent_state)
    st ← unwrap no_agent_state new
    pure (ok st)

  abbrev pub with_health : Bool → AgentToServer crates → AgentToServer crates
  with_health b st = record st { health = mark st.health }
    where
      mark : Option AgentHealth → Option AgentHealth
      mark none = none
      mark (some h) = some (record h { healthy = b })

  unfoldable pub set_health : Bool → Method (Unit {0})
  set_health healthy = do
    status ← get_status
    st ← unwrap_ok no_status status
    modify (set_state (with_health healthy st))

  unfoldable pub get_health : Method (Option AgentHealth)
  get_health = do
    state ← gets (λ (a : Agent E). a.agent_state)
    st ← unwrap no_agent_state state
    h ← unwrap no_health st.health
    nanos ← get_time_nanos E
    pure (some (record h { start_time_unix_nano = as_u64 nanos }))

  -- The closure that `poll` gives to `is_some_and`.
  unfoldable pub report_health : Option AgentHealth → Method (Unit {0})
  report_health none = pure tt
  report_health (some x) = if x.healthy then pure tt else do
    set_health true
    settings ← gets (λ (a : Agent E). a.settings)
    modify (
        enqueue (record E.message_default {
          instance_uid = settings.instance_id;
          health = some (record x { healthy = true });
        }))

  -- `Ok(Some(reply)) => push, Ok(None) => {}, Err(e) => warn`
  unfoldable pub enqueue_reply :
      Result ApiClientError (Option (AgentToServer crates)) → Method (Unit {0})
  enqueue_reply (ok (some m)) = modify (enqueue m)
  enqueue_reply (ok none) = pure tt
  enqueue_reply (err e) = pure tt

  unfoldable pub consult :
      (World → Result ApiClientError (Option (AgentToServer crates)) × World) → Method (Unit {0})
  consult callback = do answer ← call callback; enqueue_reply answer

  unfoldable pub run_on_loop : Method (Unit {0})
  run_on_loop = consult callbacks.on_loop

  -- The last test of `poll`.
  unfoldable pub pending_response : Method (Result ApiClientError StateResponse)
  pending_response = do
    outbox ← gets (λ (a : Agent E). a.outbox)
    pure (ok (if is_empty outbox then nothing else reply "messages pending"))

  abbrev pub wants_full_state : ServerToAgent → Bool
  wants_full_state msg = not (bit_and (E.flags msg) E.report_full_state == 0)

  -- The early return of the full-state branch, if it is taken.
  unfoldable pub enqueue_status :
      Result ApiClientError (AgentToServer crates) → Method (Option StateResponse)
  enqueue_status (ok st) = do modify (enqueue st); pure none
  enqueue_status (err e) = pure (some (error ("State reporting failed: " <> to_string e)))

  -- The three tests inside `if let Some(..) = &msg.connection_settings`.
  unfoldable pub offer_settings : ServerToAgent → Option Offers → Method (Unit {0})
  offer_settings msg none = pure tt
  offer_settings msg (some o) = do
    when o.own_metrics (consult (callbacks.on_connection_settings_offers msg))
    when o.own_traces (consult (callbacks.on_connection_settings_offers msg))
    when o.own_logs (consult (callbacks.on_connection_settings_offers msg))

  unfoldable pub remaining_parts :
      ServerToAgent → Option StateResponse → Method (Option StateResponse)
  remaining_parts msg (some r) = pure (some r)
  remaining_parts msg none = do
    when (E.has_remote_config msg) (consult (callbacks.on_agent_remote_config msg))
    offer_settings msg (E.connection_settings msg)
    when (E.has_packages_available msg) (consult (callbacks.on_packages_available msg))
    pure none

  -- `refresh` is a transport's own step before it reports its full state.
  module _ (refresh : Exec World (Agent E) (Unit {0})) where
    unfoldable pub report_own_state : Method (Option StateResponse)
    report_own_state = do refresh; status ← get_status; enqueue_status status

    unfoldable pub full_state : ServerToAgent → Method (Option StateResponse)
    full_state msg = do
      settings ← gets (λ (a : Agent E). a.settings)
      if not (wants_full_state msg)
          then pure none
          else if str_eq (E.instance_uid msg) settings.instance_id
          then report_own_state
          else do consult (callbacks.on_health_check msg); pure none

    -- What `poll` does with one inbound message; `some` is an early return of `poll`.
    unfoldable pub handle_message : ServerToAgent → Method (Option StateResponse)
    handle_message msg = do
      when (E.has_command msg) (consult (callbacks.on_command msg))
      when (E.has_error_response msg) (call (callbacks.on_error msg))
      exit ← full_state msg
      remaining_parts msg exit
