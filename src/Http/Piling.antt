-- ===== src/Http/Piling.antt =====
-- The responses that `send` of src/httpclient/mod.rs piles on the inbox, where every one of them
-- asks for the full state.
use mathlib.Core.List.{append-nil, append_assoc}
use mathlib.Core.Path.{subst}
use mosfet_rs.Prelude.{
  ◌^◌, ◌<◌, ◌≡◌, refl, sym, ◌∙◌, ap, String, true, some, List, [], ◌∷◌, ◌++◌, arith, push,
}
use mosfet_rs.Exec.{repeat, ◌>>=◌}
use mosfet_rs.Env.{Env}
use mosfet_rs.Messages.{AgentToServer, ConnectionSettings}
use mosfet_rs.Machine.{polling, sending, evaluate}
use mosfet_rs.Agent.{wants_full_state}
use mosfet_rs.Agent.Dispatch.{
  CallLog, Event, Entry, Happens, reply_list, reported, state_events, asked, told, listed, offered,
  command, remote_config, packages, asks_us, events,
}
use mosfet_rs.Http.Wire.{HttpClient}
use mosfet_rs.Http.Steps.{send, send_all, store_or_stop, wait, channel, settle, trigger}
use mosfet_rs.Http.Counts.{HttpLog}
use mosfet_rs.Http.Delivery.{taken, bumped}
use mosfet_rs.Http.Exchange.{Answering, Carried, exchange}
use mosfet_rs.Http.Sending.{send_answered}

-- A list with an element.
abbrev pub Filled : {A : Type 0} → List A → Type 0
Filled {A} xs = (q : A) × (ms : List A) × (xs ≡ q ∷ ms)

append-Filled : {A : Type 0} (xs : List A) {ys : List A} → Filled ys → Filled (xs ++ ys)
append-Filled [] h = h
append-Filled (x ∷ xs) h = (x, _, refl)

append_more-Filled : {A : Type 0} {xs : List A} (ys : List A) → Filled xs → Filled (xs ++ ys)
append_more-Filled ys (q, ms, e) = (q, ms ++ ys, ap (λ xs. xs ++ ys) e)

module _ (E : Env) (C : CallLog E) (settings : ConnectionSettings E.crates) where
  -- The message asks this agent for its full state.
  abbrev pub Demands : E.ServerToAgent → Type 0
  Demands m = (wants_full_state E m ≡ true) × (asks_us E C settings m ≡ true)

  -- Every message that a response carries does.
  abbrev pub Demanding : Type 0
  Demanding = (m : E.ServerToAgent) → Carried E m → Demands m

  -- On top of `older`, the newest message asks for the state.
  abbrev pub Piled : List E.ServerToAgent → List E.ServerToAgent → Type 0
  Piled older inbox =
      (middle : List E.ServerToAgent) × (m : E.ServerToAgent) × (inbox ≡ push (older ++ middle) m)
      × Demands m

  -- A client of this agent that polls with an empty outbox, with `older` below a message
  -- that asks for the state.
  abbrev pub Burdened : AgentToServer E.crates → List E.ServerToAgent → HttpClient E → Type 0
  Burdened st older c =
      ((x : String) × (c.state ≡ polling x))
      × (c.agent_state ≡ some st)
      × (c.settings ≡ settings)
      × (c.outbox ≡ [])
      × (c.seqno < 2 ^ 64)
      × Piled older c.inbox

  -- What is queued for the later of two lists of events is at the end.
  Happens-behind :
      (m : E.ServerToAgent) (es fs : List (Event E C settings m)) (ls : List (Entry E))
      (qs : List (AgentToServer E.crates))
      → Happens E C settings m (es ++ fs) ls qs
      → (ks : List (Entry E)) × (first ps : List (AgentToServer E.crates)) × (qs ≡ first ++ ps)
        × Happens E C settings m fs ks ps
  Happens-behind m [] fs ls qs h = (ls, [], qs, refl, h)
  Happens-behind m (asked c ∷ es) fs ls qs (r, ls', qs', called, queued, h) =
      let (ks, first, ps, whole, rest) = Happens-behind m es fs ls' qs' h in
      let replied = reply_list E C settings m r in
      (
        ks,
        replied ++ first,
        ps,
        queued ∙ ap (λ x. replied ++ x) whole ∙ sym (append_assoc replied first ps),
        rest,
      )
  Happens-behind m (told ∷ es) fs ls qs (ls', called, h) = Happens-behind m es fs ls' qs h
  Happens-behind m (reported x ∷ es) fs ls qs (qs', queued, h) =
      let (ks, first, ps, whole, rest) = Happens-behind m es fs ls qs' h in
      (ks, x ∷ first, ps, queued ∙ ap (λ y. x ∷ y) whole, rest)

  -- The agent's state is part of what is queued for a message that asks for it.
  pub something_queued :
      (m : E.ServerToAgent) (st : AgentToServer E.crates) (ls : List (Entry E))
      (qs more : List (AgentToServer E.crates))
      → Demands m
      → Happens E C settings m (events E C settings m st) ls qs
      → Filled (qs ++ more)
  something_queued m st ls qs more (full, ours) h =
      let others =
        listed E C settings m (E.has_remote_config m) (asked remote_config)
        ++ (offered E C settings m (E.connection_settings m)
            ++ listed E C settings m (E.has_packages_available m) (asked packages)) in
      let (ks, first, ps, whole, h₁) =
        Happens-behind m (listed E C settings m (E.has_command m) (asked command)) _ ls qs h in
      let (ks₂, first₂, ps₂, whole₂, h₂) =
        Happens-behind m (listed E C settings m (E.has_error_response m) told) _ ks ps h₁ in
      let reports : state_events E C settings m st ≡ reported st ∷ [] = rw (full, ours) refl in
      let (rest, queued, later) =
        subst (λ es. Happens E C settings m (es ++ others) ks₂ ps₂) reports h₂ in
      append_more-Filled more (
        subst Filled (sym (whole ∙ ap (λ x. first ++ x) whole₂))
          (append-Filled first (append-Filled first₂ (st, rest, queued))))

module _ (E : Env) (L : HttpLog E) (W : Answering E) where
  -- From `sending` with a message to send, two triggers.
  pub piles :
      (c : HttpClient E) (w : E.World) {x : String} {q : AgentToServer E.crates}
      {ms : List (AgentToServer E.crates)}
      → c.state ≡ sending x
      → c.outbox ≡ q ∷ ms
      → (repeat 2 (trigger E) c w).1.inbox ≡ (send_all E (q ∷ ms) (taken E L.log c) w).1.inbox
  unfolding repeat trigger settle evaluate channel wait send ◌>>=◌
  piles c w at queued = let done = send_answered E L.log W c w in ground (arith, at, done, queued)

  module _ (C : CallLog E) (settings : ConnectionSettings E.crates)
      (demands : Demanding E C settings) where
    pub send_all-Piled :
        (ms : List (AgentToServer E.crates)) (q : AgentToServer E.crates) (c : HttpClient E)
        (w : E.World)
        → Piled E C settings c.inbox (send_all E (q ∷ ms) c w).1.inbox
    unfolding send_all store_or_stop ◌>>=◌
    send_all-Piled [] q c w =
        let (m, carried, exchanged) = exchange E L.log W q c w in
        rw exchanged ([], m, ap (λ x. push x m) (sym (append-nil c.inbox)), demands m carried)
    send_all-Piled (p ∷ ms) q c w =
        let (m, carried, exchanged) = exchange E L.log W q c w in
        let c₁ = record (bumped E L.log c w) { inbox = push c.inbox m } in
        rw exchanged (
          let (middle, x, there, asks) = send_all-Piled ms p c₁ _ in
          (m ∷ middle, x, there ∙ ap (λ y. push y x) (append_assoc c.inbox (m ∷ []) middle), asks))
