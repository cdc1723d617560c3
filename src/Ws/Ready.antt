-- ===== src/Ws/Ready.antt =====
-- The handlers of the websocket client: they keep the persistent `agent_state` filled and do not
-- touch the state of the machine, and each panics only in the ways given here.
use mosfet_rs.Prelude.{ℕ, ◌≡◌, List, [], ◌∷◌, Result, ok, err, arith}
use mosfet_rs.Exec.{
  Exec, Fault, ◌>>=◌, no_stream, bad_slice, bad_retries, no_host_info, no_ulid, bad_time,
  send_failure,
}
use mosfet_rs.Exec.Keeps.{
  Keeps, Meets, keeps_rules, Keeps-bind, Keeps-gets, Keeps-modify, Keeps-pure, Keeps-panic,
  Keeps-then, Meets-pure, Meets-within, Meets_mono,
}
use mosfet_rs.Env.{Env}
use mosfet_rs.Messages.{AgentToServer, ApiClientError}
use mosfet_rs.Machine.{State, StateResponse, reply, error, nothing}
use mosfet_rs.Agent.{Agent}
use mosfet_rs.Agent.Ready.{Never, OnClock, OnHost}
use mosfet_rs.Ws.{
  WsClient, on_agent, to_sink, expect_sent, flush_all, flush, retry_later, keep_stream,
  unwrap_flush, send, wait,
}

-- What the outside world can make the websocket client panic on.
abbrev pub IsExternal : Fault → Type 0
IsExternal bad_retries = Unit
IsExternal bad_slice = Unit
IsExternal no_host_info = Unit
IsExternal no_ulid = Unit
IsExternal bad_time = Unit
IsExternal no_stream = Unit
IsExternal send_failure = Unit
IsExternal _ = ⊥

pub Never-IsExternal : (f : Fault) → Never f → IsExternal f
Never-IsExternal f h = absurd h

pub clock-IsExternal : (f : Fault) → OnClock f → IsExternal f
clock-IsExternal f h = ground arith

pub host-IsExternal : (f : Fault) → OnHost f → IsExternal f
host-IsExternal f h = ground arith

module _ (E : Env) where
  module _ (J : Agent E → Type 0) (x : State) where
    -- The agent part satisfies `J`, and the machine is in state `x`.
    abbrev pub Holds : WsClient E → Type 0
    Holds c = (c.state ≡ x) × J c.agent

  pub on_agent-Meets :
      (x : State) {A : Type 0} {P : Agent E → Type 0} {R : Fault → Type 0}
      (m : Exec E.World (Agent E) A) (Q : A → Agent E → Type 0)
      → ((f : Fault) → R f → IsExternal f)
      → Meets P m Q R
      → Meets
          (λ c. (c.state ≡ x) × P c.agent)
          (on_agent E m)
          (λ a c. (c.state ≡ x) × Q a c.agent)
          IsExternal
  unfolding on_agent
  on_agent-Meets x m Q more k =
      Meets-within _ _ (λ (c : WsClient E). c.agent) (λ c a. record c { agent = a }) m
        (Meets_mono m (λ a h. h) (λ r a h. h) more k) (λ c h. h.1) (λ c r a h q. (h.0, q))

  -- The parts that leave the agent part alone.
  module _ (J : Agent E → Type 0) (x : State) where
    to_sink-Keeps : (buf : E.Frame) → Keeps (Holds J x) IsExternal (to_sink E buf)
    unfolding to_sink
    to_sink-Keeps buf = search keeps_rules

    expect_sent-Keeps :
        (r : Result ApiClientError (Unit {0})) → Keeps (Holds J x) IsExternal (expect_sent E r)
    unfolding expect_sent
    expect_sent-Keeps (ok u) = Keeps-pure tt
    expect_sent-Keeps (err e) = Keeps-panic send_failure tt

    flush_all-Keeps :
        (features : ℕ × ℕ) (ms : List (AgentToServer E.crates))
        → Keeps (Holds J x) IsExternal (flush_all E features ms)
    unfolding flush_all
    flush_all-Keeps features [] = Keeps-pure _
    flush_all-Keeps features (m ∷ ms) = Keeps-bind _ _ (Keeps-modify _ (λ c h. h)) λ u.
        Keeps-bind _ _ (Keeps-gets _) λ c.
          Keeps-bind _ _ (to_sink-Keeps _)
            λ sent. Keeps-bind _ _ (expect_sent-Keeps sent) λ u'. flush_all-Keeps features ms

    -- An answer by `Reply`.
    abbrev pub Replied : Result ApiClientError StateResponse → WsClient E → Type 0
    Replied (ok (reply y)) c = Holds J x c
    Replied (ok (error e)) c = ⊥
    Replied (ok nothing) c = ⊥
    Replied (err e) c = ⊥

    unwrap_flush_replies :
        (r : Result ApiClientError (Unit {0}))
        → Meets (Holds J x) (unwrap_flush E r) Replied IsExternal
    unfolding unwrap_flush
    unwrap_flush_replies (ok u) = Meets-pure _ (λ c h. h)
    unwrap_flush_replies (err e) = record { at = λ c w h. tt }

    -- `send` answers by `Reply` or panics.
    pub send_replies :
        ((a : Agent E) → J a → J (record a { outbox = [] }))
        → Meets (Holds J x) (send E) Replied IsExternal
    unfolding send flush
    send_replies empty =
        Keeps-then _ _
          (Keeps-bind _ _ (Keeps-gets _) λ c.
            Keeps-bind _ _ (Keeps-modify _ (λ c h. (h.0, empty c.agent h.1)))
              λ u. flush_all-Keeps _ _)
          unwrap_flush_replies

    pub wait_replies : Meets (Holds J x) (wait E) Replied IsExternal
    unfolding wait
    wait_replies = Meets-pure _ (λ c h. h)

    pub keep_stream-Keeps : (r : Result _ E.Stream) → Keeps (Holds J x) IsExternal (keep_stream E r)
    unfolding keep_stream retry_later ◌>>=◌
    keep_stream-Keeps (ok s) = record { at = λ c w h. h }
    keep_stream-Keeps (err e) = record { at = λ c w h. ground arith }
