-- ===== src/Agent/Ready.antt =====
-- The persistent `agent_state`: once it is filled, it stays filled, with a health record and with
-- the instance id of the settings, and none of the shared methods panics.
use mosfet_rs.Prelude.{◌≡◌, refl, String, Bool, Option, none, some, Result, ok, err, arith}
use mosfet_rs.Exec.{Exec, Fault, no_status, unwrap_ok, modify, ◌>>=◌}
use mosfet_rs.Exec.Keeps.{
  Ends-mono, Keeps, Meets, keeps_rules, Keeps-gets, Keeps-then, Meets-bind, Meets-if, Meets-pure,
}
use mosfet_rs.Env.{Env}
use mosfet_rs.Messages.{AgentHealth, AgentToServer, ApiClientError, ConnectionSettings}
pub use mosfet_rs.Agent.Status.{HasHealth, OnClock, OnHost}
use mosfet_rs.Agent.Status.{Told, get_status_tells}
use mosfet_rs.Agent.{
  Agent, set_state, with_health, get_status, set_health, get_health, report_health, enqueue_status,
  report_own_state, full_state, remaining_parts, handle_message,
}
use mosfet_rs.Agent.Mail.{consult-Keeps, offer_settings-Keeps}
use mosfet_rs.Machine.{StateResponse}

-- No panic is allowed.
abbrev pub Never : Fault → Type 0
Never f = ⊥

module _ (E : Env) (id : String) where
  abbrev pub ReadyState : Option (AgentToServer E.crates) → Type 0
  ReadyState none = ⊥
  ReadyState (some st) = HasHealth st.health × (st.instance_uid ≡ id)

  abbrev pub SoundState : Option (AgentToServer E.crates) → Type 0
  SoundState none = Unit
  SoundState (some st) = HasHealth st.health × (st.instance_uid ≡ id)

module _ (E : Env) (settings : ConnectionSettings E.crates) where
  -- The state is filled and sound.
  abbrev pub IsReady : Agent E → Type 0
  IsReady a = (a.settings ≡ settings) × ReadyState E settings.instance_id a.agent_state

  -- The state is sound if it is there.
  abbrev pub IsSound : Agent E → Type 0
  IsSound a = (a.settings ≡ settings) × SoundState E settings.instance_id a.agent_state

  pub IsReady-IsSound : (a : Agent E) → IsReady a → IsSound a
  IsReady-IsSound a h = ground arith

  abbrev pub Reports : Result ApiClientError (AgentToServer E.crates) → Agent E → Type 0
  Reports (ok st) a = IsReady a × (a.agent_state ≡ some st)
  Reports (err e) a = ⊥

  -- From a sound state `get_status` reports the state, and leaves it ready.
  pub get_status_fills : Meets (IsSound) (get_status E) Reports OnHost
  get_status_fills = record {
    at = λ a w h.
        let (r, a', w') = get_status E a w in
        Ends-mono {P = Told E a} {Q = Reports} {R = OnHost} {T = OnHost} r a' w' (told a h)
          (λ f k. k) ((get_status_tells E a).at a w refl);
  }
    where
      told :
          (a : Agent E)
          → IsSound a
          → (r : Result ApiClientError (AgentToServer E.crates)) (a' : Agent E) → Told E a r a'
          → Reports r a'
      told a h (ok st) a' (e, k) = ground arith
      told a h (err e) a' k = absurd k

  pub get_status-IsReady : Meets IsReady (get_status E) Reports Never
  unfolding get_status ◌>>=◌
  get_status-IsReady = record { at = λ a w h. ground arith }

  marked :
      (b : Bool) (r : Result ApiClientError (AgentToServer E.crates))
      → Meets {W = E.World}
          (Reports r)
          (do st ← unwrap_ok no_status r; modify (set_state E (with_health E b st)))
          (λ u. IsReady)
          OnHost
  unfolding ◌>>=◌
  marked b (ok st) = record { at = λ a w h. ground arith }
  marked b (err e) = record { at = λ a w h. absurd h }

  pub set_health_fills : (b : Bool) → Meets IsSound (set_health E b) (λ u. IsReady) OnHost
  unfolding set_health
  set_health_fills b = Meets-bind Reports _ _ get_status_fills (marked b)

  pub set_health-Keeps : (b : Bool) → Keeps IsReady Never (set_health E b)
  unfolding set_health get_status ◌>>=◌
  set_health-Keeps b = record { at = λ a w h. ground arith }

  pub get_health-Keeps : Keeps IsReady OnClock (get_health E)
  unfolding get_health ◌>>=◌
  get_health-Keeps = record { at = λ a w h. ground arith }

  pub report_health-Keeps : (x : Option AgentHealth) → Keeps IsReady Never (report_health E x)
  unfolding report_health set_health get_status ◌>>=◌
  report_health-Keeps x = record { at = λ a w h. ground arith }

  -- No early return of `poll`, and a ready state.
  abbrev pub GoesOn : Option StateResponse → Agent E → Type 0
  GoesOn none a = IsReady a
  GoesOn (some r) a = ⊥

  enqueue_status_ready :
      (r : Result ApiClientError (AgentToServer E.crates))
      → Meets (Reports r) (enqueue_status E r) GoesOn Never
  unfolding enqueue_status ◌>>=◌
  enqueue_status_ready (ok st) = record { at = λ a w h. h.0 }
  enqueue_status_ready (err e) = record { at = λ a w h. absurd h }

  module _ (refresh : Exec E.World (Agent E) (Unit {0}))
      (steady : Keeps IsReady Never refresh) where
    report_own_state-IsReady : Meets IsReady (report_own_state E refresh) GoesOn Never
    unfolding report_own_state
    report_own_state-IsReady =
        Keeps-then refresh _ steady
          λ u. Meets-bind Reports (get_status E) _ get_status-IsReady enqueue_status_ready

    full_state-IsReady :
        (msg : E.ServerToAgent) → Meets IsReady (full_state E refresh msg) GoesOn Never
    unfolding full_state
    full_state-IsReady msg = Keeps-then _ _ (Keeps-gets _) λ settings'.
        Meets-if _ _ _ (Meets-pure none (λ a h. h)) (
          Meets-if _ _ _ report_own_state-IsReady (
            Keeps-then _ _ (consult-Keeps E IsReady Never (λ m a h. h) _)
              λ u. Meets-pure none (λ a h. h)))

    remaining_parts_ready :
        (msg : E.ServerToAgent) (r : Option StateResponse)
        → Meets (GoesOn r) (remaining_parts E msg r) GoesOn Never
    unfolding remaining_parts
    remaining_parts_ready msg (some r) = record { at = λ a w h. absurd h }
    remaining_parts_ready msg none =
        Keeps-then _ _ (search (keeps_rules, consult-Keeps E IsReady Never (λ m a h. h))) λ u.
          Keeps-then _ _ (offer_settings-Keeps E IsReady Never (λ m a h. h) msg _) λ u'.
            Keeps-then _ _ (search (keeps_rules, consult-Keeps E IsReady Never (λ m a h. h)))
              λ u''. Meets-pure none (λ a h. h)

    -- With the agent state filled in, the health record and the instance id in it, handling an
    -- inbound message neither panics nor makes poll return early and leaves the agent state so,
    -- whatever the message is and the callbacks answer, provided the transport's own refresh
    -- keeps it so.
    pub handle_message-IsReady :
        (msg : E.ServerToAgent) → Meets IsReady (handle_message E refresh msg) GoesOn Never
    unfolding handle_message
    handle_message-IsReady msg =
        Keeps-then _ _ (search (keeps_rules, consult-Keeps E IsReady Never (λ m a h. h))) λ u.
          Keeps-then _ _ (search keeps_rules)
            λ u'. Meets-bind GoesOn _ _ (full_state-IsReady msg) (remaining_parts_ready msg)
