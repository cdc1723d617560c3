-- ===== src/Ws/Listening.antt =====
-- One message of a conversation of the websocket client of src/wsclient/mod.rs: it comes off the
-- stream, and all that is sent for it goes out.
use mathlib.Core.Path.{subst}
use mosfet_rs.Prelude.{
  ℕ, ◌+◌, ◌%◌, ◌^◌, ◌≤◌, ◌<◌, ◌≡◌, refl, ◌∙◌, ap, String, true, Bool, false, Option, some, List, [],
  ◌∷◌, ◌++◌, ok, arith, length, if◌then◌else◌,
}
use mosfet_rs.Exec.{Outcome, returns, repeat}
use mosfet_rs.Env.{Env}
use mosfet_rs.Util.Clock.{Clock}
use mosfet_rs.Messages.{AgentHealth, AgentToServer, ConnectionSettings}
use mosfet_rs.Machine.{polling}
use mosfet_rs.Agent.{with_health, set_health, wants_full_state}
use mosfet_rs.Agent.Dispatch.{CallLog, Entry, Happens, events, asks_us}
use mosfet_rs.Agent.Report.{marked_same}
use mosfet_rs.Agent.Loop.{queued_by, rounds_for}
use mosfet_rs.Agent.Unseen.{Unseen, set_health-Calm, handle_message-Calm}
use mosfet_rs.Ws.{WsClient, features_of, trigger}
use mosfet_rs.Ws.Counts.{SocketLog}
use mosfet_rs.Ws.Delivery.{frames}
use mosfet_rs.Ws.Inbound.{message, inbound, timed, read}
use mosfet_rs.Ws.Sending.{answers_unseen}
use mosfet_rs.Ws.Answering.{state_after, run-Answered, run, waiting_then, polls}
use mosfet_rs.Machine.{StateResponse}
use mosfet_rs.Agent.{Agent}

-- A stream that takes every frame, and off which messages come, in order; nothing but reading takes
-- one. Only messages make the application's callbacks note a call.
pub record Wire (E : Env) (C : CallLog E) (s : E.Stream) : Type 0 where
  pub incoming : E.World → List E.ServerToAgent
  pub next :
      (m : E.ServerToAgent) (ms : List E.ServerToAgent) (w : E.World)
      → incoming w ≡ m ∷ ms
      → (inbound E (E.ws_next s w).0 ≡ message m) × (incoming (E.ws_next s w).1 ≡ ms)
  pub unseen : Unseen E incoming
  pub incoming-send :
      (r : E.Stream) (f : E.Frame) (w : E.World) → incoming (E.ws_send r f w).1 ≡ incoming w
  pub takes : (f : E.Frame) (w : E.World) → (E.ws_send s f w).0 ≡ ok tt
  pub calls-now : (w : E.World) → C.calls (E.now w).1 ≡ C.calls w
  pub calls-next : (w : E.World) → C.calls (E.ws_next s w).1 ≡ C.calls w
  pub calls-loop : (w : E.World) → C.calls (E.callbacks.on_loop w).1 ≡ C.calls w
  pub calls-send :
      (r : E.Stream) (f : E.Frame) (w : E.World) → C.calls (E.ws_send r f w).1 ≡ C.calls w

module _ (E : Env) where
  state_same :
      (C : CallLog E) (settings : ConnectionSettings E.crates) (m : E.ServerToAgent)
      (st : AgentToServer E.crates) {h : AgentHealth}
      → st.health ≡ some h
      → h.healthy ≡ true
      → state_after E C settings m st ≡ st
  state_same C settings m st has well = either (wants_full_state E m) (asks_us E C settings m)
    where
      either : (b d : Bool) → (if b then if d then with_health E true st else st else st) ≡ st
      either true true = marked_same E st has well
      either true false = refl
      either false d = refl

  rounds_for-le : (ms : List (AgentToServer E.crates)) → rounds_for E ms ≤ 3
  rounds_for-le [] = omega arith
  rounds_for-le (m ∷ ms) = omega arith

  module _ (L : SocketLog E) (C : CallLog E) (T : Clock E) (s : E.Stream) (Z : Wire E C s)
      (settings : ConnectionSettings E.crates) (st : AgentToServer E.crates) where
    open L use {sent}

    -- What comes of the messages, in order, when `ks` have been called before: the calls `ls`, and
    -- for each message what its events queue and then what `on_loop` gives, which is called once
    -- these calls have been made. All that is queued is `qs`.
    abbrev pub Replies :
        List (Entry E)
        → List E.ServerToAgent
        → List (Entry E)
        → List (AgentToServer E.crates)
        → Type 0
    Replies ks [] ls qs = (ls ≡ []) × (qs ≡ [])
    Replies ks (m ∷ ms) ls qs =
        (here later : List (Entry E)) × (said rest : List (AgentToServer E.crates)) × (v : E.World)
        × (ls ≡ here ++ later)
        × (qs ≡ said ++ (queued_by E (E.callbacks.on_loop v).0 ++ rest))
        × (C.calls v ≡ ks ++ here)
        × Happens E C settings m (events E C settings m st) here said
        × Replies (ks ++ here) ms later rest

    -- The client polls, with nothing left to send.
    abbrev pub Listens : WsClient E → Type 0
    Listens c =
        ((y : String) × (c.state ≡ polling y))
        × (c.settings ≡ settings)
        × (c.agent_state ≡ some st)
        × (c.outbox ≡ [])
        × (c.stream ≡ some s)
        × (c.seqno < 2 ^ 64)

    -- From `c` and `w`, the messages before `rest` have been read, the calls `ls` been made, and
    -- `qs` been sent.
    abbrev pub Conversed :
        List E.ServerToAgent
        → List (Entry E)
        → List (AgentToServer E.crates)
        → WsClient E
        → E.World
        → Outcome (Unit {0}) × WsClient E × E.World
        → Type 0
    Conversed rest ls qs c w (o, c', w') =
        (o ≡ returns tt)
        × Listens c'
        × (Z.incoming w' ≡ rest)
        × (c'.seqno ≡ (c.seqno + length qs) % 2 ^ 64)
        × (sent w' ≡ sent w ++ frames E L.log s (features_of E (some st)) c.seqno qs)
        × (C.calls w' ≡ C.calls w ++ ls)

    module _ {h : AgentHealth} (has : st.health ≡ some h) (well : h.healthy ≡ true)
        (m : E.ServerToAgent) (ms : List E.ServerToAgent) (c : WsClient E) (w : E.World)
        (ready : Listens c) (waits : Z.incoming w ≡ m ∷ ms) where
      -- The agent and the world once the message is handled, and what is queued then.
      abbrev handled : Outcome (Option StateResponse) × Agent E × E.World
      handled = run E L s Z.takes C T settings m c w

      abbrev queue : List (AgentToServer E.crates)
      queue = waiting_then E L s Z.takes C T settings m c w

      abbrev sent_all : Outcome (Unit {0}) × WsClient E × E.World
      sent_all = repeat (rounds_for E queue) (trigger E) c w

      message_next :
          (inbound E (E.ws_next s (timed E w)).0 ≡ message m) × (Z.incoming (read E s w) ≡ ms)
      message_next = Z.next m ms (timed E w) (Z.unseen.now w ∙ waits)

      -- A view of the world that sending does not change.
      send_unseen :
          {A : Type 0} (view : E.World → A)
          → ((r : E.Stream) (f : E.Frame) (v : E.World) → view (E.ws_send r f v).1 ≡ view v)
          → view sent_all.2 ≡ view (E.callbacks.on_loop handled.2).1
      send_unseen view unseen =
          let ((y, at), owner, there, empty, joined, small) = ready in
          answers_unseen E L s Z.takes view unseen queue handled.1 y c w
            (E.callbacks.on_loop handled.2).1 joined
            (polls E L s Z.takes C T settings m c w owner at there has well empty joined
              message_next.0)

      message_left : Z.incoming sent_all.2 ≡ ms
      message_left =
          let calm =
            (handle_message-Calm E Z.incoming Z.unseen settings ms (set_health E true) m
                (set_health-Calm E Z.incoming Z.unseen settings ms true)).at
              c.agent (read E s w) (ready.1, message_next.1) in
          send_unseen Z.incoming Z.incoming-send ∙ Z.unseen.on_loop handled.2 ∙ calm.1

      pub one_message :
          (n : ℕ) × (n ≤ 3)
          × ((ls : List (Entry E)) × (qs : List (AgentToServer E.crates)) × (v : E.World) × (C.calls
                  v
                ≡ C.calls w ++ ls)
              × Happens E C settings m (events E C settings m st) ls qs
              × Conversed ms ls
                  (qs ++ queued_by E (E.callbacks.on_loop v).0)
                  c
                  w
                  (repeat n (trigger E) c w))
      one_message =
          let ((y, at), owner, there, empty, joined, small) = ready in
          let (ls, qs, heard, happened, whole, answered) =
            run-Answered E L s Z.takes C T settings m c w owner at there has well empty joined small
              message_next.0 in
          let (done, at', owner', there', empty', joined', number, logged) = answered in
          let kept = state_same C settings m st has well in
          let asked : C.calls handled.2 ≡ C.calls w ++ ls =
            heard ∙ ap (λ k. k ++ ls) (Z.calls-next (timed E w) ∙ Z.calls-now w) in
          (
            rounds_for E queue,
            rounds_for-le queue,
            (
              ls,
              qs,
              handled.2,
              asked,
              subst (λ x. Happens E C settings m (events E C settings m x) ls qs)
                  (marked_same E st has well) happened,
              (
                done,
                (at', owner' ∙ owner, there' ∙ ap some kept, empty', joined', omega arith),
                message_left,
                number ∙ ap (λ x. (c.seqno + length x) % 2 ^ 64) whole,
                logged
                    ∙ ap (λ x. sent w ++ frames E L.log s (features_of E (some x)) c.seqno queue)
                        kept
                    ∙ ap (λ x. sent w ++ frames E L.log s (features_of E (some st)) c.seqno x)
                        whole,
                send_unseen C.calls Z.calls-send ∙ Z.calls-loop handled.2 ∙ asked,
              ),
            ),
          )
