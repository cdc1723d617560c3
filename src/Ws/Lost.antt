-- ===== src/Ws/Lost.antt =====
-- What src/wsclient/mod.rs does when the first dial fails: `connect` answers `None`, which
-- `State::evaluate` reads as connected.
use mosfet_rs.Prelude.{
  ℕ, ◌≤◌, ◌≡◌, refl, sym, ap, String, false, none, some, is_empty, is_empty-push, Result, ok, err,
  arith, unwrap_or, parse_u32,
}
use mosfet_rs.Exec.{
  no_host_info, no_ulid, bad_time, no_stream, Exec, Fault, returns, repeat, gets, modify, unwrap_ok,
  no_status, within, ◌>>=◌,
}
use mosfet_rs.Exec.Keeps.{Ends, Ends-mono, Meets, Meets-bind, Meets_mono}
use mosfet_rs.Env.{Env}
use mosfet_rs.Messages.{AgentToServer, ApiClientError, ConnectionSettings}
use mosfet_rs.Machine.{
  State, disconnected, connecting, connected, sending, nullstr, evaluate, StateResponse, reply,
  after_handshake,
}
use mathlib.Core.Path.{subst}
use mosfet_rs.Machine.Arm.{arm}
use mosfet_rs.Exec.Keeps.{Meets-within}
use mosfet_rs.Agent.{Agent, set_state, with_health, get_status, set_health}
use mosfet_rs.Agent.Status.{OnHost, Told, get_status_tells}
use mosfet_rs.Ws.{
  WsClient, new, channel, trigger, settle, connect, keep_stream, retry_later, handshake,
  queue_handshake, send, flush, flush_all, to_sink, expect_sent, unwrap_flush, on_agent,
}

-- The panics on a missing stream, and those of the first status: on a host without a name or a
-- kernel version, without a ulid, and on a time before the epoch.
abbrev pub IsLostStream : Fault → Type 0
IsLostStream no_host_info = Unit
IsLostStream no_ulid = Unit
IsLostStream bad_time = Unit
IsLostStream no_stream = Unit
IsLostStream _ = ⊥

-- A server that refuses the connection, and a retry limit of at least one.
pub record Refused (E : Env) : Type 0 where
  pub reason : E.World → String
  pub dial : (u : E.Url) (w : E.World) → (E.ws_connect u w).0 ≡ err (reason w)
  pub retries : ℕ
  pub some_retry : 1 ≤ retries
  pub limit :
      (w : E.World)
      → parse_u32 (unwrap_or (E.env_var "OPAMP_CONNECT_RETRIES" w).0 "10") ≡ some retries

module _ (E : Env) (D : Refused E) where
  abbrev Fresh : WsClient E → Type 0
  Fresh c = (c.state ≡ disconnected "") × (c.stream ≡ none) × (c.backoff ≡ 0)

  abbrev Dialling : WsClient E → Type 0
  Dialling c = (c.state ≡ connecting nullstr) × (c.stream ≡ none) × (c.backoff ≡ 0)

  abbrev Mistaken : WsClient E → Type 0
  Mistaken c = (c.state ≡ connected nullstr) × (c.stream ≡ none)

  abbrev Doomed : WsClient E → Type 0
  Doomed c =
      (c.state ≡ sending "handshake enqueued") × (c.stream ≡ none) × (is_empty c.outbox ≡ false)

  abbrev Nowhere : WsClient E → Type 0
  Nowhere c = ⊥

  new-Fresh :
      (settings : ConnectionSettings E.crates) {c : WsClient E}
      → new E settings ≡ returns c
      → Fresh c
  unfolding new
  new-Fresh settings e = ground arith

  first : Meets Fresh (trigger E) (λ u. Dialling) IsLostStream
  unfolding trigger settle evaluate channel ◌>>=◌
  first = record { at = λ c w h. ground arith }

  abbrev IsOk : Result ApiClientError (AgentToServer E.crates) → Type 0
  IsOk (ok st) = Unit
  IsOk (err e) = ⊥

  get_status_answers : Meets (λ a. Unit) (get_status E) (λ r a. IsOk r) IsLostStream
  get_status_answers = record {
    at = λ a w h.
        let (r, a', w') = get_status E a w in
        Ends-mono {P = Told E a} {Q = λ q b. IsOk q} {R = OnHost} {T = IsLostStream} r a' w'
          (ok_if a) (λ f k. ground arith) ((get_status_tells E a).at a w refl);
  }
    where
      ok_if :
          (a : Agent E) (r : Result ApiClientError (AgentToServer E.crates)) (a' : Agent E)
          → Told E a r a'
          → IsOk r
      ok_if a (ok st) a' k = tt
      ok_if a (err e) a' k = absurd k

  marked :
      (r : Result ApiClientError (AgentToServer E.crates))
      → Meets {W = E.World}
          (λ a. IsOk r)
          (do st ← unwrap_ok no_status r; modify (set_state E (with_health E false st)))
          (λ u a. Unit)
          IsLostStream
  unfolding ◌>>=◌
  marked (ok st) = record { at = λ a w h. tt }
  marked (err e) = record { at = λ a w h. absurd h }

  set_health_any : Meets (λ a. Unit) (set_health E false) (λ r a. Unit) IsLostStream
  unfolding set_health
  set_health_any = Meets-bind (λ r a. IsOk r) _ _ get_status_answers marked

  second : Meets Dialling (trigger E) (λ u. Mistaken) IsLostStream
  unfolding trigger settle evaluate channel connect keep_stream retry_later on_agent within ◌>>=◌
  second = record {
    at = λ c w h.
        let w₁ = (set_health E false c.agent w).2 in
        ground (
          arith,
          D.some_retry,
          set_health_any.at c.agent w tt,
          D.dial c.address w₁,
          D.limit (E.ws_connect c.address w₁).1,
        );
  }

  -- The state of the machine stays and there is still no stream.
  abbrev Cut : WsClient E → Type 0
  Cut c = (c.state ≡ connected nullstr) × (c.stream ≡ none)

  abbrev Queued : Result ApiClientError StateResponse → WsClient E → Type 0
  Queued r c =
      (r ≡ ok (reply "handshake enqueued")) × (c.stream ≡ none) × (is_empty c.outbox ≡ false)

  on_agent-Cut :
      {A : Type 0} (m : Exec E.World (Agent E) A) (Q : A → Type 0)
      → Meets (λ a. Unit) m (λ r a. Q r) IsLostStream
      → Meets Cut (on_agent E m) (λ r c. Cut c × Q r) IsLostStream
  unfolding on_agent
  on_agent-Cut m Q k =
      Meets-within _ _ (λ (c : WsClient E). c.agent) (λ c a. record c { agent = a }) m k (λ c h. tt)
        (λ c r a h q. (h, q))

  queue_handshake_fills :
      (r : Result ApiClientError (AgentToServer E.crates))
      → Meets (λ c. Cut c × IsOk r) (queue_handshake E r) Queued IsLostStream
  unfolding queue_handshake on_agent within ◌>>=◌
  queue_handshake_fills (ok st) = record { at = λ c w h. (refl, h.0.1, is_empty-push c.outbox st) }
  queue_handshake_fills (err e) = record { at = λ c w h. absurd h.1 }

  handshake_fills : Meets Cut (handshake E) Queued IsLostStream
  unfolding handshake
  handshake_fills =
      Meets-bind (λ u c. Cut c × Unit) _ _ (on_agent-Cut _ _ set_health_any)
        λ u.
          Meets_mono _ (λ c h. h.0) (λ r c h. h) (λ f h. h)
            (Meets-bind (λ r c. Cut c × IsOk r) _ _ (on_agent-Cut _ _ get_status_answers)
              queue_handshake_fills)

  abbrev Lost : Result ApiClientError State → WsClient E → Type 0
  Lost r c =
      (r ≡ ok (sending "handshake enqueued")) × (c.stream ≡ none) × (is_empty c.outbox ≡ false)

  evaluate-Cut : Meets Cut (evaluate (channel E) (connected nullstr)) Lost IsLostStream
  unfolding evaluate channel
  evaluate-Cut =
      arm Queued Lost (handshake E) after_handshake handshake_fills (λ f h. h)
        λ r c h. (ap (λ q. ok (after_handshake q)) h.0, h.1, h.2)

  evaluate_at :
      (x : State)
      → Meets (λ c. Cut c × (x ≡ connected nullstr)) (evaluate (channel E) x) Lost IsLostStream
  evaluate_at x = record {
    at = λ c w h.
        subst (λ (y : State). Ends Lost IsLostStream (evaluate (channel E) y c w)) (sym h.1)
          (evaluate-Cut.at c w h.0);
  }

  settle-Lost :
      (r : Result ApiClientError State) → Meets (Lost r) (settle E r) (λ u. Doomed) IsLostStream
  unfolding settle
  settle-Lost r = record { at = λ c w h. ground arith }

  third : Meets Mistaken (trigger E) (λ u. Doomed) IsLostStream
  unfolding trigger
  third =
      Meets-bind (λ x c. Cut c × (x.state ≡ connected nullstr)) (gets (λ c. c)) _
        (record { at = λ c w h. (h, h.0) })
        λ x. Meets-bind Lost _ _ (evaluate_at x.state) settle-Lost

  fourth : Meets Doomed (trigger E) (λ u. Nowhere) IsLostStream
  unfolding trigger settle evaluate channel send flush flush_all to_sink expect_sent unwrap_flush
      ◌>>=◌
  fourth = record { at = λ c w h. ground arith }

  -- A new websocket client whose dials are refused, with at least one retry allowed, panics at the
  -- latest in its fourth trigger: on the missing stream, on missing host information, for want of a
  -- ulid, or on a time before the epoch.
  pub refused_dial_panics :
      (settings : ConnectionSettings E.crates) {c : WsClient E} (w : E.World)
      → new E settings ≡ returns c
      → Ends (λ u c'. ⊥) IsLostStream (repeat 4 (trigger E) c w)
  unfolding repeat
  refused_dial_panics settings {c} w made =
      (Meets-bind (λ u. Dialling) _ _ first
          λ u.
            Meets-bind (λ u. Mistaken) _ _ second
              λ u.
                Meets-bind (λ u. Doomed) _ _ third
                  λ u. Meets-bind (λ u. Nowhere) _ _ fourth λ u. record { at = λ c w h. h }).at
        c w (new-Fresh settings made)
