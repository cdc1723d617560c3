-- ===== src/Http/Ready.antt =====
-- The handlers of the HTTP client on a client whose `agent_state` is filled: they keep it filled,
-- they do not touch the state of the machine, and they panic only on what comes from outside.
use mosfet_rs.Prelude.{◌≡◌, Option, none, some, List, Result, ok, err, arith}
use mosfet_rs.Exec.{
  Exec, Fault, modify, within, bad_time, bad_retries, bad_gzip, bad_slice, bad_decode, ◌>>=◌,
}
use mosfet_rs.Exec.Keeps.{
  Keeps, Meets, Meets_mono, Keeps-mono, Keeps-modify, Keeps-pure, Keeps-gets, Meets-Keeps,
  Meets-bind, Meets-within, Keeps-Meets, Keeps-then, Meets-if, Meets-pure,
}
use mosfet_rs.Env.{Env}
use mosfet_rs.Util.Clock.{get_time_nanos-Keeps}
use mosfet_rs.Messages.{AgentToServer, ApiClientError, ConnectionSettings}
use mosfet_rs.Machine.{State, StateResponse, reply, error, nothing}
use mosfet_rs.Agent.{Agent, enqueue, get_status, pending_response}
use mosfet_rs.Agent.Ready.{
  IsReady, IsSound, OnClock, OnHost, Reports, get_status_fills, get_health-Keeps,
  report_health-Keeps, handle_message-IsReady, GoesOn,
}
use mosfet_rs.Agent.Mail.{run_on_loop-Keeps}
use mosfet_rs.Http.Wire.{HttpClient, on_agent}
use mosfet_rs.Http.Steps.{handshake, queue_handshake, poll, poll_idle, process_inbox, finish_poll}

-- The panics of an exchange: on a time before the epoch, and on a response that cannot be read.
abbrev pub OnResponse : Fault → Type 0
OnResponse bad_time = Unit
OnResponse bad_gzip = Unit
OnResponse bad_slice = Unit
OnResponse bad_decode = Unit
OnResponse _ = ⊥

-- The panic on a retry limit that is no `u32`.
abbrev pub OnRetries : Fault → Type 0
OnRetries bad_retries = Unit
OnRetries _ = ⊥

module _ (E : Env) where
  on_agent-Meets :
      (x : State) {A : Type 0} {P : Agent E → Type 0} {R : Fault → Type 0}
      (m : Exec E.World (Agent E) A) (Q : A → Agent E → Type 0)
      → Meets P m Q R
      → Meets (λ c. (c.state ≡ x) × P c.agent) (on_agent E m) (λ a c. (c.state ≡ x) × Q a c.agent) R
  unfolding on_agent
  on_agent-Meets x m Q k =
      Meets-within _ _ (λ (c : HttpClient E). c.agent) (λ c a. record c { agent = a }) m k
        (λ c h. h.1) (λ c r a h q. (h.0, q))

  module _ (J : Agent E → Type 0) (x : State) where
    -- The agent part satisfies `J`, and the machine is in state `x`.
    abbrev pub Holds : HttpClient E → Type 0
    Holds c = (c.state ≡ x) × J c.agent

    pub on_agent-Keeps :
        {A : Type 0} {R : Fault → Type 0} (m : Exec E.World (Agent E) A)
        → Keeps J R m
        → Keeps Holds R (on_agent E m)
    unfolding on_agent
    on_agent-Keeps m k = Meets-Keeps _ (
        Meets-within Holds (λ a. Holds) _ _ m (Keeps-Meets m k) (λ c h. h.1)
          (λ c a t h q. (h.0, q)))

  module _ (settings : ConnectionSettings E.crates) (x : State) where
    abbrev Ready : HttpClient E → Type 0
    Ready = Holds (IsReady E settings) x

    on_agent-Ready :
        {A : Type 0} {R : Fault → Type 0} (m : Exec E.World (Agent E) A)
        → Keeps (IsReady E settings) R m
        → Keeps Ready R (on_agent E m)
    on_agent-Ready m k = on_agent-Keeps _ x m k

    queue-Ready :
        {R : Fault → Type 0} (m : AgentToServer E.crates)
        → Keeps Ready R (on_agent E (modify (enqueue E m)))
    queue-Ready m = on_agent-Ready _ (Keeps-modify _ (λ a h. h))

    -- A response that leads on to polling or sending, from a ready client.
    abbrev pub Flows : Result ApiClientError StateResponse → HttpClient E → Type 0
    Flows (ok (reply y)) c = Ready c
    Flows (ok nothing) c = Ready c
    Flows (ok (error e)) c = ⊥
    Flows (err e) c = ⊥

    abbrev GoesOnClient : Option StateResponse → HttpClient E → Type 0
    GoesOnClient o c = (c.state ≡ x) × GoesOn E settings o c.agent

    process_inbox-Ready :
        (o : Option (E.ServerToAgent × List E.ServerToAgent))
        → Meets Ready (process_inbox E o) GoesOnClient OnClock
    unfolding process_inbox
    process_inbox-Ready none = Meets-pure none (λ c h. h)
    process_inbox-Ready (some (msg, rest)) = Keeps-then _ _ (Keeps-modify _ (λ s h. h)) λ u.
        on_agent-Meets x _ _ (
          Meets_mono _ (λ a h. h) (λ r a h. h) (λ f h. absurd h)
            (handle_message-IsReady E settings _ (Keeps-pure tt) msg))

    pending_response-Flows : Meets Ready (on_agent E (pending_response E)) Flows OnClock
    unfolding on_agent within pending_response ◌>>=◌
    pending_response-Flows = record { at = λ c w h. ground arith }

    finish_poll-Ready :
        (o : Option StateResponse) → Meets (GoesOnClient o) (finish_poll E o) Flows OnClock
    unfolding finish_poll
    finish_poll-Ready none =
        Keeps-then _ _ (on_agent-Ready _ (run_on_loop-Keeps E _ OnClock (λ m a h. h)))
          λ u. pending_response-Flows
    finish_poll-Ready (some r) = record { at = λ c w h. absurd h.1 }

    poll_idle-Ready : Meets Ready (poll_idle E) Flows OnClock
    unfolding poll_idle
    poll_idle-Ready = Keeps-then _ _ (get_time_nanos-Keeps E tt) λ nanos.
        Keeps-then _ _ (Keeps-gets _) λ c.
          Meets-if _ _ _ (Keeps-then _ _ (queue-Ready _) λ u. Meets-pure _ (λ c h. h)) (
            Meets-if _ _ _ (Meets-pure _ (λ c h. h))
              (Meets-bind GoesOnClient _ _ (process_inbox-Ready _) finish_poll-Ready))

    -- On a ready client `poll` panics only on a time before the epoch, leaves the client ready, and
    -- answers by `Reply` or `None`.
    pub poll-Ready : Meets Ready (poll E) Flows OnClock
    unfolding poll
    poll-Ready = Keeps-then _ _ (on_agent-Ready _ (get_health-Keeps E settings)) λ health.
        Keeps-then _ _
          (on_agent-Ready _
            (Keeps-mono _ (λ f h. absurd h) (report_health-Keeps E settings health)))
          λ u.
            Keeps-then _ _ (Keeps-gets _)
              λ c. Meets-if _ _ _ poll_idle-Ready (Meets-pure _ (λ c h. h))

    -- An answer by `Reply`, from a ready client.
    abbrev pub Greeted : Result ApiClientError StateResponse → HttpClient E → Type 0
    Greeted (ok (reply y)) c = Ready c
    Greeted (ok nothing) c = ⊥
    Greeted (ok (error e)) c = ⊥
    Greeted (err e) c = ⊥

    queue_handshake-Ready :
        (r : Result ApiClientError (AgentToServer E.crates))
        → Meets
            (λ c. (c.state ≡ x) × Reports E settings r c.agent)
            (queue_handshake E r)
            Greeted
            OnHost
    unfolding queue_handshake on_agent within ◌>>=◌
    queue_handshake-Ready (ok st) = record { at = λ c w h. (h.0, h.1.0) }
    queue_handshake-Ready (err e) = record { at = λ c w h. absurd h.1 }

    -- `handshake` fills the state and answers by `Reply`.
    pub handshake-Ready : Meets (Holds (IsSound E settings) x) (handshake E) Greeted OnHost
    unfolding handshake
    handshake-Ready =
        Meets-bind (λ r c. (c.state ≡ x) × Reports E settings r c.agent) _ _
          (on_agent-Meets x (get_status E) _ (get_status_fills E settings)) queue_handshake-Ready
