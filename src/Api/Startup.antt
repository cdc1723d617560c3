-- ===== src/Api/Startup.antt =====
-- The start of an `Api` of src/api.rs over either transport: `Api::new`, and `poll` up to a healthy
-- agent that the server knows.
use text.Mathlib.Text.{starts_with}
use mosfet_rs.Prelude.{ℕ, zero, suc, ◌≡◌, refl, true, false, arith}
use mosfet_rs.Exec.{Exec, Outcome, returns, panics, after, repeat, ◌>>=◌}
use mosfet_rs.Env.{Env}
use mosfet_rs.Messages.{ConnectionSettings}
use mosfet_rs.Http.Wire as Wire
use mosfet_rs.Http.Steps as Steps
use mosfet_rs.Http.Counts.{HttpLog}
use mosfet_rs.Http.Startup.{Welcome}
use mosfet_rs.Http.Reporting as Http
use mosfet_rs.Ws as Client
use mosfet_rs.Ws.Counts.{SocketLog}
use mosfet_rs.Ws.Startup.{Listening}
use mosfet_rs.Ws.Reporting as Socket
use mosfet_rs.Api.{
  Api, over_http, over_socket, Features, new, http_client, websocket_client, poll, through,
}

module _ (E : Env) where
  -- Polling an `Api` any number of times is triggering its transport as often.
  module _ {C : Type 0} (wrap : C → Api E) (step : Exec E.World C (Unit {0}))
      (one : (c : C) (w : E.World) → poll E (wrap c) w ≡ through E wrap (step c w)) where
    after-through :
        (n : ℕ) (o : Outcome (Unit {0})) (c : C) (w : E.World)
        → ((d : C) (v : E.World)
            → repeat n (poll E) (wrap d) v ≡ through E wrap (repeat n step d v))
        → after o (λ u. repeat n (poll E)) (wrap c) w
          ≡ through E wrap (after o (λ u. repeat n step) c w)
    after-through n (returns tt) c w ih = ih c w
    after-through n (panics f) c w ih = refl

    repeat-through :
        (n : ℕ) (c : C) (w : E.World)
        → repeat n (poll E) (wrap c) w ≡ through E wrap (repeat n step c w)
    unfolding repeat ◌>>=◌
    repeat-through zero c w = refl
    repeat-through (suc n) c w =
        rw (one c w) (after-through n (step c w).0 (step c w).1 (step c w).2 (repeat-through n))

  over_http_lem :
      (c : Wire.HttpClient E) (w : E.World)
      → poll E (over_http c) w ≡ through E over_http (Steps.trigger E c w)
  unfolding poll
  over_http_lem c w = refl

  over_socket_lem :
      (c : Client.WsClient E) (w : E.World)
      → poll E (over_socket c) w ≡ through E over_socket (Client.trigger E c w)
  unfolding poll
  over_socket_lem c w = refl

  module _ (settings : ConnectionSettings E.crates) where
    -- The transport is the one that the endpoint asks for, fresh from its own `new`.
    abbrev Fresh : Api E → Type 0
    Fresh (over_http c) =
        (starts_with settings.server_endpoint "http" ≡ true) × (Wire.new E settings ≡ returns c)
    Fresh (over_socket c) =
        (starts_with settings.server_endpoint "http" ≡ false) × (Client.new E settings ≡ returns c)

    new-Fresh : (features : Features) (a : Api E) → new E features settings ≡ returns a → Fresh a
    unfolding new http_client websocket_client
    new-Fresh features (over_http c) made = ground arith
    new-Fresh features (over_socket c) made = ground arith

    module _ (LH : HttpLog E) (W : Welcome E) (LS : SocketLog E) (R : Listening E) where
      -- From `a` and `w`, the transport of `a` has come up.
      abbrev pub Reported : Api E → E.World → Outcome (Unit {0}) × Api E × E.World → Type 0
      Reported (over_http c) w (o, over_http c', w') =
          (starts_with settings.server_endpoint "http" ≡ true)
          × Http.CameUp E LH W settings c w (o, c', w')
      Reported (over_socket c) w (o, over_socket c', w') =
          (starts_with settings.server_endpoint "http" ≡ false)
          × Socket.CameUp E LS R settings w (o, c', w')
      Reported _ w out = ⊥

      fresh_comes_up : (a : Api E) (w : E.World) → Fresh a → Reported a w (repeat 8 (poll E) a w)
      fresh_comes_up (over_http c) w (chosen, made) =
          rw (repeat-through over_http (Steps.trigger E) over_http_lem 8 c w)
            (chosen, Http.comes_up E LH W settings w made)
      fresh_comes_up (over_socket c) w (chosen, made) =
          rw (repeat-through over_socket (Client.trigger E) over_socket_lem 8 c w)
            (chosen, Socket.socket_comes_up E LS R settings w made)

      -- Against a server that answers, and dialling and sending that work, on a host that is known,
      -- an `Api` that `new` makes keeps the transport that the endpoint asks for, and after eight
      -- polls, none of which panics, polls on, its state marked healthy and its outbox empty: it
      -- has sent two messages, its agent state numbered 1 and its health report numbered 2.
      pub api_comes_up :
          (features : Features) {a : Api E} (w : E.World)
          → new E features settings ≡ returns a
          → Reported a w (repeat 8 (poll E) a w)
      api_comes_up features {a} w made = fresh_comes_up a w (new-Fresh features a made)
