-- ===== src/Api/Safety.antt =====
-- The `Api` of src/api.rs: whatever transport it has, polling it is safe; and what the default
-- settings need.
use text.Mathlib.Text.{starts_with}
use mosfet_rs.Prelude.{ℕ, ◌≡◌, refl, ◌⊎◌, inl, inr, true, false, arith}
use mosfet_rs.Exec.{Fault, Outcome, returns, panics, repeat, no_feature}
use mosfet_rs.Exec.Keeps.{Ends, Keeps, repeat-Keeps, Keeps-then, Keeps-call, Meets-pure}
use mosfet_rs.Agent.Status.{OnHost, generate_ulid-Keeps}
use mosfet_rs.Env.{Env}
use mosfet_rs.Messages.{ConnectionSettings}
use mosfet_rs.Http.Safety as Http
use mosfet_rs.Ws.Safety as Socket
use mosfet_rs.Ws.Ready as Ready
use mosfet_rs.Http.Wire as Wire
use mosfet_rs.Ws as Client
use mosfet_rs.Api.{
  Api, over_http, over_socket, Features, new, http_client, websocket_client, poll, default_settings,
  through,
}

-- The panics that the outside world can cause on either transport.
abbrev pub IsExternal : Fault → Type 0
IsExternal f = Http.IsExternal f ⊎ Ready.IsExternal f

module _ (E : Env) (settings : ConnectionSettings E.crates) where
  -- The transport is the one that the endpoint asks for, and keeps its own invariant.
  abbrev pub Inv : Api E → Type 0
  Inv (over_http c) = (starts_with settings.server_endpoint "http" ≡ true) × Http.Inv E settings c
  Inv (over_socket c) =
      (starts_with settings.server_endpoint "http" ≡ false) × Socket.Inv E settings c

  Ends-through :
      {C : Type 0} (wrap : C → Api E) (P : C → Type 0) (R : Fault → Type 0)
      (out : Outcome (Unit {0}) × C × E.World)
      → ((c : C) → P c → Inv (wrap c))
      → ((f : Fault) → R f → IsExternal f)
      → Ends (λ u. P) R out
      → Ends (λ u. Inv) IsExternal (through E wrap out)
  Ends-through wrap P R (returns u, c, w) keep more h = keep c h
  Ends-through wrap P R (panics f, c, w) keep more h = more f h

  poll-Inv : Keeps Inv IsExternal (poll E)
  unfolding poll
  poll-Inv = record { at = step }
    where
      step : (a : Api E) (w : E.World) → Inv a → Ends (λ u. Inv) IsExternal (poll E a w)
      step (over_http c) w (chosen, h) =
          Ends-through over_http (Http.Inv E settings) Http.IsExternal _ (λ c' h'. (chosen, h'))
            (λ f r. inl r) ((Http.trigger-Inv E settings).at c w h)
      step (over_socket c) w (chosen, h) =
          Ends-through over_socket (Socket.Inv E settings) Ready.IsExternal _
            (λ c' h'. (chosen, h')) (λ f r. inr r) ((Socket.trigger-Inv E settings).at c w h)

  new-Inv : (features : Features) {a : Api E} → new E features settings ≡ returns a → Inv a
  unfolding new http_client websocket_client Wire.new Client.new
  new-Inv features made = ground arith

  -- An `Api` that `new` makes, polled any number of times, keeps the transport that the endpoint
  -- asks for and that transport's invariant, and panics only as `IsExternal` lists.
  pub api_safe :
      (features : Features) (n : ℕ) {a : Api E} (w : E.World)
      → new E features settings ≡ returns a
      → Ends (λ u. Inv) IsExternal (repeat n (poll E) a w)
  api_safe features n {a} w made = (repeat-Keeps n (poll E) poll-Inv).at a w (new-Inv features made)

-- In a build without the websocket feature, Api::new panics on the default settings, if making
-- them does not panic before on missing host information, for want of a ulid, or on a time before
-- the epoch.
pub default_panics :
    (E : Env) (features : Features) (w : E.World)
    → features.websocket ≡ false
    → Ends (λ s u. new E features s ≡ panics no_feature) OnHost (default_settings E tt w)
unfolding new http_client websocket_client default_settings
default_panics E features w off =
    (Keeps-then {P = λ (u : Unit {0}). Unit {0}} _ _ (Keeps-call _) λ version.
        Keeps-then _ _ (generate_ulid-Keeps E) λ id. Meets-pure _ (λ u h. rw off refl)).at
      tt w tt
