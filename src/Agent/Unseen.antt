-- ===== src/Agent/Unseen.antt =====
-- Views of the world that only the transport changes: none of the methods that both clients share
-- changes such a view, nor the settings.
use mosfet_rs.Prelude.{◌≡◌, ◌∙◌, ℕ, String, Bool, Option, none, some, Result, ok, err}
use mosfet_rs.Exec.{Exec, call, modify}
use mosfet_rs.Exec.Always.{
  Always, always_rules, Always-bind, Always-call, Always-modify, Always-pure,
}
use mosfet_rs.Crates.{Offers}
use mosfet_rs.Env.{Env}
use mosfet_rs.Messages.{AgentHealth, AgentToServer, ApiClientError, ConnectionSettings}
use mosfet_rs.Machine.{StateResponse}
use mosfet_rs.Defaults.{agent_health, agent_description}
use mosfet_rs.Agent.{
  Agent, set_state, enqueue, populate, get_status, set_health, get_health, report_health,
  enqueue_reply, consult, run_on_loop, pending_response, enqueue_status, report_own_state,
  full_state, offer_settings, remaining_parts, handle_message,
}

-- The callbacks, the clock, the environment and the host leave the view as it is.
pub record Unseen (E : Env) {A : Type 0} (view : E.World → A) : Type 0 where
  pub get_configuration : (w : E.World) → view (E.callbacks.get_configuration w).1 ≡ view w
  pub get_features : (w : E.World) → view (E.callbacks.get_features w).1 ≡ view w
  pub on_loop : (w : E.World) → view (E.callbacks.on_loop w).1 ≡ view w
  pub on_error : (m : E.ServerToAgent) (w : E.World) → view (E.callbacks.on_error m w).1 ≡ view w
  pub on_health_check :
      (m : E.ServerToAgent) (w : E.World) → view (E.callbacks.on_health_check m w).1 ≡ view w
  pub on_command :
      (m : E.ServerToAgent) (w : E.World) → view (E.callbacks.on_command m w).1 ≡ view w
  pub on_agent_remote_config :
      (m : E.ServerToAgent) (w : E.World) → view (E.callbacks.on_agent_remote_config m w).1 ≡ view w
  pub on_connection_settings_offers :
      (m : E.ServerToAgent) (w : E.World)
      → view (E.callbacks.on_connection_settings_offers m w).1 ≡ view w
  pub on_packages_available :
      (m : E.ServerToAgent) (w : E.World) → view (E.callbacks.on_packages_available m w).1 ≡ view w
  pub now : (w : E.World) → view (E.now w).1 ≡ view w
  pub env_var : (s : String) (w : E.World) → view (E.env_var s w).1 ≡ view w
  pub sleep : (n : ℕ) (w : E.World) → view (E.sleep n w).1 ≡ view w
  pub fill_bytes : (n : ℕ) (w : E.World) → view (E.fill_bytes n w).1 ≡ view w
  pub generate_from_datetime :
      (t : E.SystemTime) (w : E.World) → view (E.generate_from_datetime t w).1 ≡ view w
  pub kernel_version : (w : E.World) → view (E.kernel_version w).1 ≡ view w
  pub host_name : (w : E.World) → view (E.host_name w).1 ≡ view w

module _ (E : Env) {V : Type 0} (view : E.World → V) (U : Unseen E view)
    (settings : ConnectionSettings E.crates) (v : V) where
  -- The settings and the view are these.
  abbrev pub Calm : Agent E → E.World → Type 0
  Calm a w = (a.settings ≡ settings) × (view w ≡ v)

  call-Calm :
      {A : Type 0} (f : E.World → A × E.World)
      → ((w : E.World) → view (f w).1 ≡ view w)
      → Always Calm (call f)
  call-Calm f k = Always-call f (λ a w h. (h.0, k w ∙ h.1))

  set_state-Calm : (st : AgentToServer E.crates) → Always Calm (modify (set_state E st))
  set_state-Calm st = Always-modify _ (λ a w h. h)

  pub enqueue-Calm : (m : AgentToServer E.crates) → Always Calm (modify (enqueue E m))
  enqueue-Calm m = Always-modify _ (λ a w h. h)

  populate-Calm : (o : Option (AgentToServer E.crates)) → Always Calm (populate E o)
  unfolding populate agent_description agent_health
  populate-Calm none =
      search
        (
          always_rules, call-Calm, set_state-Calm, U.get_configuration, U.get_features,
          U.fill_bytes, U.generate_from_datetime, U.kernel_version, U.host_name, U.now,
        )
        depth 40 fits 4000
  populate-Calm (some st) = Always-pure tt

  pub get_status-Calm : Always Calm (get_status E)
  unfolding get_status
  get_status-Calm = search (always_rules, populate-Calm)

  pub set_health-Calm : (b : Bool) → Always Calm (set_health E b)
  unfolding set_health
  set_health-Calm b = search (always_rules, get_status-Calm, set_state-Calm)

  pub get_health-Calm : Always Calm (get_health E)
  unfolding get_health
  get_health-Calm = search (always_rules, call-Calm, U.now) depth 12

  pub report_health-Calm : (x : Option AgentHealth) → Always Calm (report_health E x)
  unfolding report_health
  report_health-Calm none = Always-pure tt
  report_health-Calm (some x) = search (always_rules, set_health-Calm, enqueue-Calm)

  enqueue_reply-Calm :
      (r : Result ApiClientError (Option (AgentToServer E.crates)))
      → Always Calm (enqueue_reply E r)
  unfolding enqueue_reply
  enqueue_reply-Calm (ok (some m)) = enqueue-Calm m
  enqueue_reply-Calm (ok none) = Always-pure tt
  enqueue_reply-Calm (err e) = Always-pure tt

  consult-Calm :
      (f : E.World → Result ApiClientError (Option (AgentToServer E.crates)) × E.World)
      → ((w : E.World) → view (f w).1 ≡ view w)
      → Always Calm (consult E f)
  unfolding consult
  consult-Calm f k = Always-bind _ _ (call-Calm f k) enqueue_reply-Calm

  pub run_on_loop-Calm : Always Calm (run_on_loop E)
  unfolding run_on_loop
  run_on_loop-Calm = consult-Calm _ U.on_loop

  pub pending_response-Calm : Always Calm (pending_response E)
  unfolding pending_response
  pending_response-Calm = search always_rules

  offer_settings-Calm :
      (msg : E.ServerToAgent) (o : Option Offers) → Always Calm (offer_settings E msg o)
  unfolding offer_settings
  offer_settings-Calm msg none = Always-pure tt
  offer_settings-Calm msg (some o) =
      search (always_rules, consult-Calm, U.on_connection_settings_offers)

  remaining_parts-Calm :
      (msg : E.ServerToAgent) (r : Option StateResponse) → Always Calm (remaining_parts E msg r)
  unfolding remaining_parts
  remaining_parts-Calm msg (some r) = Always-pure _
  remaining_parts-Calm msg none =
      search
        (
          always_rules, consult-Calm, offer_settings-Calm, U.on_agent_remote_config,
          U.on_packages_available,
        )
        depth 40 fits 4000

  enqueue_status-Calm :
      (r : Result ApiClientError (AgentToServer E.crates)) → Always Calm (enqueue_status E r)
  unfolding enqueue_status
  enqueue_status-Calm (ok st) = search (always_rules, enqueue-Calm)
  enqueue_status-Calm (err e) = Always-pure _

  pub handle_message-Calm :
      (refresh : Exec E.World (Agent E) (Unit {0})) (msg : E.ServerToAgent)
      → Always Calm refresh
      → Always Calm (handle_message E refresh msg)
  unfolding handle_message full_state report_own_state
  handle_message-Calm refresh msg k =
      search
        (
          always_rules, consult-Calm, call-Calm, U.on_command, U.on_error, U.on_health_check,
          get_status-Calm, enqueue_status-Calm, remaining_parts-Calm,
        )
        depth 40 fits 4000
