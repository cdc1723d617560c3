-- ===== src/Ws/Numbering.antt =====
-- The frames that the websocket client of src/wsclient/mod.rs sends, over any run.
use mathlib.Core.List.{append-nil}
use mosfet_rs.Prelude.{
  ℕ, ◌+◌, ◌%◌, ◌^◌, ◌≡◌, sym, String, true, false, Option, none, some, List, [], Result, ok, err,
  arith,
}
use mosfet_rs.Exec.{Exec, returns, pure, modify, repeat, ◌>>=◌}
use mosfet_rs.Exec.Always.{
  Always, always_rules, Always-bind, Always-gets, Always-if, Always-modify, Always-pure,
  Always-unwrap, Always-panic,
}
use mosfet_rs.Exec.Tracks.{Tracked, Tracks, Tracks-bind, Tracks-repeat, Always-Tracks}
use mosfet_rs.Env.{Env}
use mosfet_rs.Messages.{AgentToServer, ApiClientError, ConnectionSettings}
use mosfet_rs.Machine.{
  State, disconnected, connecting, connected, polling, sending, waiting, StateResponse, evaluate,
}
use mosfet_rs.Agent.Unseen.{
  get_status-Calm, set_health-Calm, get_health-Calm, report_health-Calm, run_on_loop-Calm,
  pending_response-Calm, handle_message-Calm, enqueue-Calm,
}
use mosfet_rs.Ws.{
  WsClient, new, connect, keep_stream, retry_later, queue_handshake, handshake, receive,
  process_message, process_bytes, process_binary, process_frame, finish_poll, poll_stream, poll,
  wait, channel, settle, trigger,
}
use mosfet_rs.Ws.Counts.{
  SocketLog, Sent, Counts, Counts-Sent, quiet_call, on_agent-Counts, send-Counts,
}

module _ (E : Env) (L : SocketLog E) (settings : ConnectionSettings E.crates)
    (start : List (E.Stream × E.Frame)) where
  open L use {sent}

  abbrev Kept : {A : Type 0} → Exec E.World (WsClient E) A → Type 0
  Kept m = Always (Counts E L settings start) m

  abbrev Follows : {A : Type 0} → Exec E.World (WsClient E) A → Type 0
  Follows m = Tracks (Counts E L settings start) (Sent E L settings start) m

  bump-Counts : Kept (modify (λ c. record c { backoff = (c.backoff + 1) % 2 ^ 32 }))
  bump-Counts = Always-modify _ (λ c w h. h)

  retry_later-Counts : (e : String) → Kept (retry_later E e)
  unfolding retry_later
  retry_later-Counts e =
      search
        (always_rules, bump-Counts, quiet_call E L settings start, L.unseen.env_var, L.unseen.sleep)
        depth 40 fits 4000

  keep_stream-Counts : (r : Result String E.Stream) → Kept (keep_stream E r)
  unfolding keep_stream
  keep_stream-Counts (ok s) = Always-bind _ _ (Always-modify _ (λ c w h. h)) (λ u. Always-pure _)
  keep_stream-Counts (err e) = retry_later-Counts e

  connect-Counts : Kept (connect E)
  unfolding connect
  connect-Counts =
      Always-bind _ _
        (on_agent-Counts E L settings start _
          (λ v. set_health-Calm E sent L.unseen settings v false))
        λ u. Always-bind _ _ (Always-gets _) λ c.
          Always-bind _ _
            (quiet_call E L settings start (E.ws_connect c.address) (L.sent-connect c.address))
            keep_stream-Counts

  queue_handshake-Counts :
      (r : Result ApiClientError (AgentToServer E.crates)) → Kept (queue_handshake E r)
  unfolding queue_handshake
  queue_handshake-Counts (ok st) =
      Always-bind _ _
        (on_agent-Counts E L settings start _ (λ v. enqueue-Calm E sent L.unseen settings v st))
        (λ u. Always-pure _)
  queue_handshake-Counts (err e) = Always-pure _

  handshake-Counts : Kept (handshake E)
  unfolding handshake
  handshake-Counts =
      Always-bind _ _
        (on_agent-Counts E L settings start _
          (λ v. set_health-Calm E sent L.unseen settings v false))
        λ u.
          Always-bind _ _
            (on_agent-Counts E L settings start _ (get_status-Calm E sent L.unseen settings))
            queue_handshake-Counts

  process_message-Counts : (o : Option E.ServerToAgent) → Kept (process_message E o)
  unfolding process_message
  process_message-Counts none = Always-pure _
  process_message-Counts (some msg) = on_agent-Counts E L settings start _ (λ v.
      handle_message-Calm E sent L.unseen settings v _ msg
        (set_health-Calm E sent L.unseen settings v true))

  process_bytes-Counts : (o : Option (List ℕ)) → Kept (process_bytes E o)
  unfolding process_bytes
  process_bytes-Counts none = Always-panic _
  process_bytes-Counts (some bytes) = process_message-Counts _

  process_binary-Counts : (o : Option (List ℕ)) → Kept (process_binary E o)
  unfolding process_binary
  process_binary-Counts none = Always-pure _
  process_binary-Counts (some bytes) = process_bytes-Counts _

  process_frame-Counts : (r : Result ApiClientError (Option E.Frame)) → Kept (process_frame E r)
  unfolding process_frame
  process_frame-Counts (ok (some frame)) = process_binary-Counts _
  process_frame-Counts (ok none) = Always-pure _
  process_frame-Counts (err e) = Always-pure _

  finish_poll-Counts : (r : Option StateResponse) → Kept (finish_poll E r)
  unfolding finish_poll
  finish_poll-Counts (some early) = Always-pure _
  finish_poll-Counts none =
      Always-bind _ _
        (on_agent-Counts E L settings start _ (run_on_loop-Calm E sent L.unseen settings))
        (λ u. on_agent-Counts E L settings start _ (pending_response-Calm E sent L.unseen settings))

  receive-Counts : Kept (receive E)
  unfolding receive
  receive-Counts = Always-bind _ _ (Always-gets _) λ c. Always-bind _ _ (Always-unwrap _ _) λ s.
      Always-bind _ _ (quiet_call E L settings start (E.ws_next s) (L.sent-next s))
        λ next. Always-pure _

  poll-Counts : Kept (poll E)
  unfolding poll poll_stream
  poll-Counts =
      Always-bind _ _
        (on_agent-Counts E L settings start _ (get_health-Calm E sent L.unseen settings))
        λ x.
          Always-bind _ _
            (on_agent-Counts E L settings start _
              (λ v. report_health-Calm E sent L.unseen settings v x))
            λ u. Always-bind _ _ (Always-gets _) λ c.
              Always-if _ _ _
                (Always-bind _ _ receive-Counts
                  λ frame. Always-bind _ _ (process_frame-Counts frame) finish_poll-Counts)
                (Always-pure _)

  tracked : {A : Type 0} (m : Exec E.World (WsClient E) A) → Kept m → Follows m
  tracked = Always-Tracks _ _ (Counts-Sent E L settings start)

  abbrev Handler : Type 0
  Handler = Exec E.World (WsClient E) (Result ApiClientError StateResponse)

  -- A handler, and the state that its answer leads to.
  arm-Follows :
      (m : Handler) (next : Result ApiClientError StateResponse → State)
      → Follows m
      → Follows (do r ← m; pure {A = Result ApiClientError State} (ok (next r)))
  arm-Follows m next h = Tracks-bind _ _ _ _ h (λ r. tracked _ (Always-pure _))

  evaluate-Follows : (x : State) → Follows (evaluate (channel E) x)
  unfolding evaluate channel wait
  evaluate-Follows (disconnected x) = tracked _ (Always-pure _)
  evaluate-Follows (connecting x) = arm-Follows _ _ (tracked _ connect-Counts)
  evaluate-Follows (connected x) = arm-Follows _ _ (tracked _ handshake-Counts)
  evaluate-Follows (polling x) = arm-Follows _ _ (tracked _ poll-Counts)
  evaluate-Follows (sending x) = arm-Follows _ _ (send-Counts E L settings start)
  evaluate-Follows (waiting x) = arm-Follows _ _ (tracked _ (Always-pure _))

  settle-Counts : (r : Result ApiClientError State) → Kept (settle E r)
  unfolding settle
  settle-Counts (ok s) = Always-modify _ (λ c w h. h)
  settle-Counts (err e) = Always-modify _ (λ c w h. h)

  trigger-Follows : Follows (trigger E)
  unfolding trigger
  trigger-Follows =
      Tracks-bind _ _ _ _ (tracked _ (Always-gets _))
        λ c. Tracks-bind _ _ _ _ (evaluate-Follows c.state) λ r. tracked _ (settle-Counts r)

-- All frames that a websocket client made by `new` hands to its streams in any number of triggers,
-- also in one that panics, carry messages numbered 1, 2, 3 and so on without a gap, cut to 64 bits;
-- and a client that has not panicked has counted them.
pub socket_numbered :
    (E : Env) (L : SocketLog E) (settings : ConnectionSettings E.crates) (n : ℕ) {c : WsClient E}
    (w : E.World)
    → new E settings ≡ returns c
    → Tracked
        (Counts E L settings (L.sent w))
        (Sent E L settings (L.sent w))
        (repeat n (trigger E) c w)
unfolding new
socket_numbered E L settings n {c} w made =
    (Tracks-repeat _ _ n (trigger E) (trigger-Follows E L settings (L.sent w))).at c w
      ([], sym (append-nil _), tt, ground arith, ground arith)
