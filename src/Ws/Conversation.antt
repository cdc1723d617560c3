-- ===== src/Ws/Conversation.antt =====
-- A whole conversation of the websocket client of src/wsclient/mod.rs: all the messages that come
-- off its stream, one after the other, and all that it sends for them.
use mathlib.Core.List.{append-nil, append_assoc}
use mathlib.Core.Path.{subst}
use mosfet_rs.Agent.Loop.{queued_by}
use mosfet_rs.Prelude.{
  ℕ, ◌+◌, ◌*◌, ◌≤◌, ◌≡◌, refl, sym, ◌∙◌, ap, true, some, List, [], ◌∷◌, ◌++◌, arith, length,
  length-append,
}
use mosfet_rs.Exec.{repeat}
use mosfet_rs.Exec.Steps.{repeat-append}
use mosfet_rs.Env.{Env}
use mosfet_rs.Util.Clock.{Clock}
use mosfet_rs.Messages.{AgentHealth, AgentToServer, ConnectionSettings}
use mosfet_rs.Agent.Dispatch.{CallLog, Entry}
use mosfet_rs.Ws.{WsClient, features_of, trigger}
use mosfet_rs.Ws.Counts.{SocketLog}
use mosfet_rs.Ws.Delivery.{frames, frames-append}
use mosfet_rs.Ws.Listening.{Wire, Listens, Replies, Conversed, one_message}

module _ (E : Env) (L : SocketLog E) (C : CallLog E) (T : Clock E) (s : E.Stream) (Z : Wire E C s)
    (settings : ConnectionSettings E.crates) (st : AgentToServer E.crates) {h : AgentHealth}
    (has : st.health ≡ some h) (well : h.healthy ≡ true) where
  open L use {sent}

  -- Off a stream that takes every frame, with a clock that does not stand before the epoch, a
  -- healthy client that polls with an empty outbox reads any number of the messages that come,
  -- within three triggers each, and then polls again with an empty outbox; none panics. It has
  -- asked the callbacks what each message says, in order, and has sent one frame for each reply
  -- and for each state that was asked for, in order too, numbered onwards from `seqno`, and after
  -- those for one message what `on_loop` gave once that message's calls had been made. The state
  -- of the agent is as before, and the messages behind these have not been read.
  pub conversation_held :
      (ms rest : List E.ServerToAgent) (c : WsClient E) (w : E.World)
      → Listens E L C T s Z settings st c
      → Z.incoming w ≡ ms ++ rest
      → (n : ℕ) × (n ≤ 3 * length ms)
        × ((ls : List (Entry E)) × (qs : List (AgentToServer E.crates)) × Replies E L C T s Z
              settings st
              (C.calls w)
              ms
              ls
              qs
            × Conversed E L C T s Z settings st rest ls qs c w (repeat n (trigger E) c w))
  unfolding repeat
  conversation_held [] rest c w ready waits = (
    0,
    omega arith,
    (
      [],
      [],
      (refl, refl),
      (refl, ready, waits, omega arith, sym (append-nil _), sym (append-nil _)),
    ),
  )
  conversation_held (m ∷ ms) rest c w ready waits =
      let (k, few, (here, said, v, asked, happened, conversed)) =
        one_message E L C T s Z settings st has well m (ms ++ rest) c w ready waits in
      let (done, ready₁, waits₁, number₁, sent₁, calls₁) = conversed in
      let c₁ = (repeat k (trigger E) c w).1 in
      let w₁ = (repeat k (trigger E) c w).2 in
      let (n, within, (later, qs, replied, (done₂, ready₂, waits₂, number₂, sent₂, calls₂))) =
        conversation_held ms rest c₁ w₁ ready₁ waits₁ in
      let more = queued_by E (E.callbacks.on_loop v).0 in
      let f = features_of E (some st) in
      let regroup : (said ++ more) ++ qs ≡ said ++ (more ++ qs) = append_assoc said more qs in
      (
        k + n,
        omega arith,
        (
          here ++ later,
          said ++ (more ++ qs),
          (
            here,
            later,
            said,
            qs,
            v,
            refl,
            refl,
            asked,
            happened,
            subst (λ ks. Replies E L C T s Z settings st ks ms later qs) calls₁ replied,
          ),
          rw (repeat-append n (trigger E) k c w done) (
            done₂,
            ready₂,
            waits₂,
            omega (
              arith,
              number₁,
              number₂,
              length-append said more,
              length-append said (more ++ qs),
              length-append more qs,
            ),
            sent₂
                ∙ rw (sent₁, number₁)
                    (append_assoc (sent w) _ _
                      ∙ ap (λ x. sent w ++ x)
                          (sym (frames-append E L.log s f c.seqno (said ++ more) qs)
                            ∙ ap (frames E L.log s f c.seqno) regroup)),
            calls₂ ∙ ap (λ ks. ks ++ later) calls₁ ∙ append_assoc (C.calls w) here later,
          ),
        ),
      )
