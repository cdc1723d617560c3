-- ===== src/Agent/Dispatch.antt =====
-- The handling of one inbound message, which src/httpclient/mod.rs and src/wsclient/mod.rs write
-- alike, against a plain list of what has to happen for it.
pub mod Rules
pub mod Handling
use mathlib.Core.List.{append-nil, append_assoc}
use mosfet_rs.Prelude.{
  ◌≡◌, refl, sym, ◌∙◌, ap, Bool, true, false, not, Option, none, some, List, [], ◌∷◌, ◌++◌, Result,
  ok, err, arith, str_eq, push, if◌then◌else◌,
}
use mosfet_rs.Exec.{Exec, Outcome, returns, pure, call, when, ◌>>=◌}
use mosfet_rs.Crates.{Offers}
use mosfet_rs.Env.{Env}
use mosfet_rs.Messages.{AgentToServer, ApiClientError, ConnectionSettings}
use mosfet_rs.Machine.{StateResponse}
use mosfet_rs.Agent.{
  Agent, set_state, enqueue, populate, get_status, with_health, set_health, consult, enqueue_reply,
  wants_full_state, enqueue_status, report_own_state, full_state, offer_settings, remaining_parts,
  handle_message,
}

-- The handling lets `poll` go on.
abbrev pub no_return : Option StateResponse
no_return = none

-- The callbacks that an inbound message can reach.
pub data Callback : Type 0 where
  command error health_check remote_config offers packages : Callback

abbrev pub reply_of {ℓ} : {A : Type ℓ} → Result ApiClientError (Option A) → Option A
reply_of (ok reply) = reply
reply_of (err e) = none

-- A call of a callback, with its message and what it replied.
abbrev pub Entry : Env → Type 0
Entry E = Callback × E.ServerToAgent × Option (AgentToServer E.crates)

-- A history of the callbacks called so far. It says nothing of what they reply: that may depend on
-- all that the application has seen.
pub record CallLog (E : Env) : Type 0 where
  pub calls : E.World → List (Entry E)
  pub on_command :
      (m : E.ServerToAgent) (w : E.World)
      → let (r, w') = E.callbacks.on_command m w in
        calls w' ≡ push (calls w) (command, m, reply_of r)
  pub on_error :
      (m : E.ServerToAgent) (w : E.World)
      → calls (E.callbacks.on_error m w).1 ≡ push (calls w) (error, m, none)
  pub on_health_check :
      (m : E.ServerToAgent) (w : E.World)
      → let (r, w') = E.callbacks.on_health_check m w in
        calls w' ≡ push (calls w) (health_check, m, reply_of r)
  pub on_agent_remote_config :
      (m : E.ServerToAgent) (w : E.World)
      → let (r, w') = E.callbacks.on_agent_remote_config m w in
        calls w' ≡ push (calls w) (remote_config, m, reply_of r)
  pub on_connection_settings_offers :
      (m : E.ServerToAgent) (w : E.World)
      → let (r, w') = E.callbacks.on_connection_settings_offers m w in
        calls w' ≡ push (calls w) (offers, m, reply_of r)
  pub on_packages_available :
      (m : E.ServerToAgent) (w : E.World)
      → let (r, w') = E.callbacks.on_packages_available m w in
        calls w' ≡ push (calls w) (packages, m, reply_of r)

module _ (E : Env) (L : CallLog E) (settings : ConnectionSettings E.crates)
    (msg : E.ServerToAgent) where
  open L use {calls}

  -- What can happen for a message: a callback is asked for a reply, or told of an error, or the
  -- agent reports its state.
  pub data Event : Type 0 where
    asked : Callback → Event
    told : Event
    reported : AgentToServer E.crates → Event

  abbrev pub listed : Bool → Event → List Event
  listed true e = e ∷ []
  listed false e = []

  abbrev pub offered : Option Offers → List Event
  offered none = []
  offered (some o) =
      listed o.own_metrics (asked offers)
      ++ (listed o.own_traces (asked offers) ++ listed o.own_logs (asked offers))

  -- Whether the message asks this agent for its own state.
  abbrev pub asks_us : Bool
  asks_us = str_eq (E.instance_uid msg) settings.instance_id

  abbrev pub state_events : AgentToServer E.crates → List Event
  state_events st =
      if wants_full_state E msg
      then if asks_us then reported st ∷ [] else asked health_check ∷ []
      else []

  -- All that happens for the message, in order; `st` is the state that is reported.
  abbrev pub events : AgentToServer E.crates → List Event
  events st =
      listed (E.has_command msg) (asked command)
      ++ (listed (E.has_error_response msg) told
          ++ (state_events st
              ++ (listed (E.has_remote_config msg) (asked remote_config)
                  ++ (offered (E.connection_settings msg)
                      ++ listed (E.has_packages_available msg) (asked packages)))))

  abbrev pub reply_list : Option (AgentToServer E.crates) → List (AgentToServer E.crates)
  reply_list none = []
  reply_list (some m) = m ∷ []

  -- When these events happen, the calls `ls` are made, and their replies and the reported states are
  -- queued as `qs`, all in order.
  abbrev pub Happens : List Event → List (Entry E) → List (AgentToServer E.crates) → Type 0
  Happens [] ls qs = (ls ≡ []) × (qs ≡ [])
  Happens (asked c ∷ es) ls qs =
      (r : Option (AgentToServer E.crates)) × (ks : List (Entry E)) × (ps : List
        (AgentToServer E.crates))
      × (ls ≡ (c, msg, r) ∷ ks)
      × (qs ≡ reply_list r ++ ps)
      × Happens es ks ps
  Happens (told ∷ es) ls qs =
      (ks : List (Entry E)) × (ls ≡ (error, msg, none) ∷ ks) × Happens es ks qs
  Happens (reported m ∷ es) ls qs =
      (ps : List (AgentToServer E.crates)) × (qs ≡ m ∷ ps) × Happens es ls ps

  pub append-Happens :
      (es fs : List Event) (ls ks : List (Entry E)) (qs ps : List (AgentToServer E.crates))
      → Happens es ls qs
      → Happens fs ks ps
      → Happens (es ++ fs) (ls ++ ks) (qs ++ ps)
  append-Happens [] fs ls ks qs ps (no_calls, no_replies) h = rw (no_calls, no_replies) h
  append-Happens (asked c ∷ es) fs ls ks qs ps (r, ls', qs', called, queued, rest) h = (
    r,
    ls' ++ ks,
    qs' ++ ps,
    ap (λ x. x ++ ks) called,
    ap (λ x. x ++ ps) queued ∙ append_assoc (reply_list r) qs' ps,
    append-Happens es fs ls' ks qs' ps rest h,
  )
  append-Happens (told ∷ es) fs ls ks qs ps (ls', called, rest) h =
      (ls' ++ ks, ap (λ x. x ++ ks) called, append-Happens es fs ls' ks qs ps rest h)
  append-Happens (reported m ∷ es) fs ls ks qs ps (qs', queued, rest) h =
      (qs' ++ ps, ap (λ x. x ++ ps) queued, append-Happens es fs ls ks qs' ps rest h)

  -- From an agent with the state `st` to one with `st'`: `r` is returned, and exactly the events
  -- `es` have happened.
  abbrev pub Done :
      {A : Type 0}
      → Agent E
      → E.World
      → AgentToServer E.crates
      → A
      → List Event
      → Outcome A × Agent E × E.World
      → Type 0
  Done a w st' r es (o, a', w') =
      (o ≡ returns r)
      × (a'.settings ≡ settings)
      × (a'.agent_state ≡ some st')
      × ((ls : List (Entry E)) × (qs : List (AgentToServer E.crates)) × (a'.outbox ≡ a.outbox ++ qs)
          × (calls w' ≡ calls w ++ ls)
          × Happens es ls qs)
