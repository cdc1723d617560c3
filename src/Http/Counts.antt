-- ===== src/Http/Counts.antt =====
-- The requests that the HTTP client of src/httpclient/mod.rs has posted, and their numbers: what
-- `send` does to them.
use mathlib.Core.Path.{subst}
use mathlib.Core.List.{append_assoc}
use mosfet_rs.Prelude.{
  ℕ, ◌+◌, ◌%◌, ◌^◌, ◌≡◌, refl, sym, ◌∙◌, false, Option, none, some, List, [], ◌∷◌, ◌++◌, Result, ok,
  err, arith, length, length-append,
}
use mosfet_rs.Exec.{Exec, call, within}
use mosfet_rs.Exec.Always.{
  Always, Always-bind, Always-call, Always-modify, Always-pure, Always-gets,
}
use mosfet_rs.Env.{Env, Request}
use mosfet_rs.Messages.{AgentToServer, ApiClientError, ConnectionSettings}
use mosfet_rs.Machine.{StateResponse}
use mosfet_rs.Agent.{Agent}
use mosfet_rs.Agent.Unseen.{Unseen, Calm}
use mosfet_rs.Http.Wire.{HttpClient, on_agent, stamp, plain_request, send_and_receive}
use mosfet_rs.Http.Steps.{store_or_stop, send_all, send}
use mosfet_rs.Http.Delivery.{RequestLog, send_and_receive_log}

-- A log of requests that only posting one extends.
pub record HttpLog (E : Env) : Type 0 where
  pub log : RequestLog E
  pub open log use {sent}
  pub unseen : Unseen E sent
  pub sent-head : (u : E.Url) (w : E.World) → sent (E.http_head u w).1 ≡ sent w

module _ (E : Env) (L : HttpLog E) (settings : ConnectionSettings E.crates) (address : E.Url) where
  open L use {sent}

  -- Requests to the address, each with a message whose number is one higher than that of the
  -- request before, cut to 64 bits.
  abbrev pub Numbered : ℕ → List (Request E.crates) → Type 0
  Numbered n [] = Unit
  Numbered n (r ∷ rs) =
      ((m : AgentToServer E.crates) × (m.sequence_num ≡ (n + 1) % 2 ^ 64)
        × (r.url ≡ address)
        × (r.body ≡ E.encode m))
      × Numbered (n + 1) rs

  Numbered-append :
      (n : ℕ) (rs qs : List (Request E.crates))
      → Numbered n rs
      → Numbered (n + length rs) qs
      → Numbered n (rs ++ qs)
  Numbered-append n [] qs h k = subst (λ j. Numbered j qs) (omega arith) k
  Numbered-append n (r ∷ rs) qs (first, h) k =
      (first, Numbered-append (n + 1) rs qs h (subst (λ j. Numbered j qs) (omega arith) k))

  module _ (start : List (Request E.crates)) where
    -- Since the log was `start`, `rs` have been posted, numbered from 1.
    abbrev pub Counts : HttpClient E → E.World → Type 0
    Counts c w =
        (rs : List (Request E.crates)) × (sent w ≡ start ++ rs)
        × Numbered 0 rs
        × (c.seqno ≡ length rs % 2 ^ 64)
        × (c.address ≡ address)
        × (c.settings ≡ settings)

    pub quiet_call :
        {A : Type 0} (f : E.World → A × E.World)
        → ((w : E.World) → sent (f w).1 ≡ sent w)
        → Always Counts (call f)
    quiet_call f k = Always-call f (λ c w (rs, s, n, q, a, o). (rs, k w ∙ s, n, q, a, o))

    pub on_agent-Counts :
        {A : Type 0} (m : Exec E.World (Agent E) A)
        → ((v : List (Request E.crates)) → Always (Calm E sent L.unseen settings v) m)
        → Always Counts (on_agent E m)
    unfolding on_agent within
    on_agent-Counts m k = record {
      at = λ c w (rs, s, n, q, a, o).
          let (owner, same) = (k (sent w)).at c.agent w (o, refl) in (rs, same ∙ s, n, q, a, owner);
    }

    stamp-number :
        (st : Option (AgentToServer E.crates)) (n : ℕ) (m : AgentToServer E.crates)
        → (stamp E st n m).sequence_num ≡ n
    stamp-number none n m = refl
    stamp-number (some st) n m = refl

    send_and_receive-Counts :
        (m : AgentToServer E.crates) → Always Counts (send_and_receive E m 10 false)
    send_and_receive-Counts m = record {
      at = λ c w (rs, s, n, q, a, o).
          let (same, logged) = send_and_receive_log E L.log m c w in
          let message = stamp E c.agent_state ((c.seqno + 1) % 2 ^ 64) m in
          let next : ((c.seqno + 1) % 2 ^ 64) ≡ (length rs + 1) % 2 ^ 64 = omega arith in
          let next₀ : ((c.seqno + 1) % 2 ^ 64) ≡ (0 + length rs + 1) % 2 ^ 64 = omega arith in
          subst (λ d. Counts d (send_and_receive E m 10 false c w).2) (sym same)
            (
              rs ++ plain_request E c 10 (E.encode message) ∷ [],
              logged ∙ rw s (append_assoc start rs _),
              Numbered-append 0 rs _ n
                  ((message, stamp-number c.agent_state _ m ∙ next₀, a, refl), tt),
              next ∙ rw (length-append rs (plain_request E c 10 (E.encode message) ∷ [])) refl,
              a,
              o,
            );
    }

    store_or_stop-Counts :
        (r : Result ApiClientError E.ServerToAgent)
        (rest : Exec E.World (HttpClient E) (Result ApiClientError StateResponse))
        → Always Counts rest
        → Always Counts (store_or_stop E r rest)
    unfolding store_or_stop
    store_or_stop-Counts (ok message) rest k =
        Always-bind _ _ (Always-modify _ (λ c w h. h)) (λ u. k)
    store_or_stop-Counts (err e) rest k = Always-pure _

    send_all-Counts : (ms : List (AgentToServer E.crates)) → Always Counts (send_all E ms)
    unfolding send_all
    send_all-Counts [] = Always-pure _
    send_all-Counts (m ∷ ms) =
        Always-bind _ _ (send_and_receive-Counts m)
          (λ r. store_or_stop-Counts r (send_all E ms) (send_all-Counts ms))

    pub send-Counts : Always Counts (send E)
    unfolding send
    send-Counts =
        Always-bind _ _ (Always-gets _)
          λ c. Always-bind _ _ (Always-modify _ (λ c' w h. h)) λ u. send_all-Counts c.outbox
