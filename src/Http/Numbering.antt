-- ===== src/Http/Numbering.antt =====
-- Whole runs of the HTTP client of src/httpclient/mod.rs: the numbers of all requests it ever posts.
use mathlib.Core.List.{append-nil}
use mosfet_rs.Prelude.{
  ℕ, ◌+◌, ◌%◌, ◌^◌, ◌≡◌, refl, sym, String, ◌==◌, inl, inr, Result-cases, Option, none, some, List,
  [], Result, ok, err, arith, if◌then◌else◌,
}
use mosfet_rs.Exec.{Exec, returns, pure, modify, repeat, ◌>>=◌}
use mosfet_rs.Exec.Always.{
  Always, always_rules, Always-if, Always-bind, Always-unwrap, Always-modify, Always-pure,
  Always-gets, Always-repeat,
}
use mosfet_rs.Env.{Env, Request}
use mosfet_rs.Messages.{AgentToServer, ApiClientError, ConnectionSettings}
use mosfet_rs.Machine.{
  State, disconnected, connecting, connected, polling, sending, waiting, StateResponse, reply,
  error, evaluate,
}
use mosfet_rs.Agent.Unseen.{
  get_status-Calm, get_health-Calm, report_health-Calm, run_on_loop-Calm, pending_response-Calm,
  handle_message-Calm, enqueue-Calm,
}
use mosfet_rs.Http.Wire.{HttpClient, new}
use mosfet_rs.Http.Steps.{
  retry_later, connect, queue_handshake, handshake, finish_poll, process_inbox, poll_idle, poll,
  wait, channel, settle, trigger,
}
use mosfet_rs.Http.Counts.{HttpLog, Counts, quiet_call, on_agent-Counts, send-Counts}

module _ (E : Env) (L : HttpLog E) (settings : ConnectionSettings E.crates) (address : E.Url)
    (start : List (Request E.crates)) where
  open L use {sent}

  abbrev Kept : {A : Type 0} → Exec E.World (HttpClient E) A → Type 0
  Kept m = Always (Counts E L settings address start) m

  bump-Counts : Kept (modify (λ c. record c { backoff = (c.backoff + 1) % 2 ^ 32 }))
  bump-Counts = Always-modify _ (λ c w h. h)

  retry_later-Counts : (e : String) → Kept (retry_later E e)
  unfolding retry_later
  retry_later-Counts e =
      search
        (
          always_rules,
          bump-Counts,
          quiet_call E L settings address start,
          L.unseen.env_var,
          L.unseen.sleep,
        )
        depth 40 fits 4000

  abbrev Answer : Type 0
  Answer = Result ApiClientError StateResponse

  present :
      (response : E.Response)
      → Kept (
          if E.status_code response == 404
          then pure {A = Answer} (ok (error (E.status_display response)))
          else pure (ok (reply "remote server present")))
  present response = Always-if _ _ _ (Always-pure _) (Always-pure _)

  connect-Counts : Kept (connect E)
  unfolding connect ◌>>=◌
  connect-Counts = record {
    at = λ c w h.
        let h₁ =
          (quiet_call E L settings address start (E.http_head c.address) (L.sent-head c.address)).at
            c w h in
        elim (Result-cases (E.http_head c.address w).0) [
          | inl (response, good) ↦ rw good ((present response).at c (E.http_head c.address w).1 h₁)
          | inr (e, bad) ↦ rw bad ((retry_later-Counts e).at c (E.http_head c.address w).1 h₁)
        ];
  }

  on_status : (r : Result ApiClientError (AgentToServer E.crates)) → Kept (queue_handshake E r)
  unfolding queue_handshake
  on_status (ok st) =
      Always-bind _ _
        (on_agent-Counts E L settings address start _
          (λ v. enqueue-Calm E sent L.unseen settings v st))
        (λ u. Always-pure _)
  on_status (err e) = Always-pure _

  handshake-Counts : Kept (handshake E)
  unfolding handshake
  handshake-Counts =
      Always-bind _ _
        (on_agent-Counts E L settings address start _ (get_status-Calm E sent L.unseen settings))
        on_status

  finish_poll-Counts : (r : Option StateResponse) → Kept (finish_poll E r)
  unfolding finish_poll
  finish_poll-Counts (some early) = Always-pure _
  finish_poll-Counts none =
      Always-bind _ _
        (on_agent-Counts E L settings address start _ (run_on_loop-Calm E sent L.unseen settings))
        (λ u.
          on_agent-Counts E L settings address start _
            (pending_response-Calm E sent L.unseen settings))

  process_inbox-Counts :
      (o : Option (E.ServerToAgent × List E.ServerToAgent)) → Kept (process_inbox E o)
  unfolding process_inbox
  process_inbox-Counts none = Always-pure _
  process_inbox-Counts (some (msg, rest)) = Always-bind _ _ (Always-modify _ (λ c w h. h)) λ u.
      on_agent-Counts E L settings address start _
        (λ v. handle_message-Calm E sent L.unseen settings v (pure tt) msg (Always-pure tt))

  poll_idle-Counts : Kept (poll_idle E)
  unfolding poll_idle
  poll_idle-Counts =
      Always-bind _ _
        (Always-bind _ _ (quiet_call E L settings address start E.now L.unseen.now)
          λ t. Always-unwrap _ _)
        λ nanos. Always-bind _ _ (Always-gets _) λ c.
          Always-if _ _ _
            (Always-bind _ _
              (on_agent-Counts E L settings address start _
                (λ v. enqueue-Calm E sent L.unseen settings v _))
              (λ u. Always-pure _))
            (Always-if _ _ _ (Always-pure _)
              (Always-bind _ _ (process_inbox-Counts _) finish_poll-Counts))

  poll-Counts : Kept (poll E)
  unfolding poll
  poll-Counts =
      Always-bind _ _
        (on_agent-Counts E L settings address start _ (get_health-Calm E sent L.unseen settings))
        λ x.
          Always-bind _ _
            (on_agent-Counts E L settings address start _
              (λ v. report_health-Calm E sent L.unseen settings v x))
            λ u.
              Always-bind _ _ (Always-gets _) λ c. Always-if _ _ _ poll_idle-Counts (Always-pure _)

  settle-Counts : (r : Result ApiClientError State) → Kept (settle E r)
  unfolding settle
  settle-Counts (ok s) = Always-modify _ (λ c w h. h)
  settle-Counts (err e) = Always-modify _ (λ c w h. h)

  evaluate-Counts : (s : State) → Kept (evaluate (channel E) s)
  unfolding evaluate channel wait
  evaluate-Counts (disconnected x) = Always-pure _
  evaluate-Counts (connecting x) = Always-bind _ _ connect-Counts (λ r. Always-pure _)
  evaluate-Counts (connected x) = Always-bind _ _ handshake-Counts (λ r. Always-pure _)
  evaluate-Counts (polling x) = Always-bind _ _ poll-Counts (λ r. Always-pure _)
  evaluate-Counts (sending x) =
      Always-bind _ _ (send-Counts E L settings address start) (λ r. Always-pure _)
  evaluate-Counts (waiting x) = Always-bind _ _ (Always-pure _) (λ r. Always-pure _)

  trigger-Counts : Kept (trigger E)
  unfolding trigger
  trigger-Counts =
      Always-bind _ _ (Always-gets _) λ c. Always-bind _ _ (evaluate-Counts c.state) settle-Counts

-- With a clock that does not stand before the epoch, all requests that a client made by `new` posts
-- in any number of triggers, also in one that panics, go to the one address and carry messages
-- numbered 1, 2, 3 and so on without a gap, cut to 64 bits.
pub run_numbered :
    (E : Env) (L : HttpLog E) (settings : ConnectionSettings E.crates) (n : ℕ) {c : HttpClient E}
    (w : E.World)
    → new E settings ≡ returns c
    → let (o, c', w') = repeat n (trigger E) c w in Counts E L settings c.address (L.sent w) c' w'
unfolding new
run_numbered E L settings n {c} w made =
    (Always-repeat n (trigger E) (trigger-Counts E L settings c.address (L.sent w))).at c w
      ([], sym (append-nil _), tt, ground arith, refl, ground arith)
