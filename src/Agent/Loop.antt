-- ===== src/Agent/Loop.antt =====
-- The end of `poll`, which src/httpclient/mod.rs and src/wsclient/mod.rs write alike: `on_loop` is
-- asked, and then the outbox decides the answer.
use mathlib.Core.List.{append-nil}
use mosfet_rs.Prelude.{
  ℕ, ◌≡◌, refl, sym, ap, Option, none, some, List, [], ◌∷◌, ◌++◌, Result, ok, err, is_empty,
  if◌then◌else◌,
}
use mosfet_rs.Exec.{returns, ◌>>=◌}
use mosfet_rs.Env.{Env}
use mosfet_rs.Messages.{AgentToServer, ApiClientError}
use mosfet_rs.Agent.{Agent, consult, enqueue_reply, run_on_loop}

module _ (E : Env) where
  abbrev pub with_outbox : Agent E → List (AgentToServer E.crates) → Agent E
  with_outbox a ms = record a { outbox = ms }

  -- What the answer of a callback adds to the outbox.
  abbrev pub queued_by :
      Result ApiClientError (Option (AgentToServer E.crates)) → List (AgentToServer E.crates)
  queued_by (ok (some m)) = m ∷ []
  queued_by (ok none) = []
  queued_by (err e) = []

  enqueue_reply_lem :
      (r : Result ApiClientError (Option (AgentToServer E.crates))) (a : Agent E) (w : E.World)
      → enqueue_reply E r a w ≡ (returns tt, with_outbox a (a.outbox ++ queued_by r), w)
  unfolding enqueue_reply
  enqueue_reply_lem (ok (some m)) a w = refl
  enqueue_reply_lem (ok none) a w =
      ap (λ ms. (returns tt, with_outbox a ms, w)) (sym (append-nil a.outbox))
  enqueue_reply_lem (err e) a w =
      ap (λ ms. (returns tt, with_outbox a ms, w)) (sym (append-nil a.outbox))

  pub run_on_loop_lem :
      (a : Agent E) (v : E.World)
      → let (r, w) = E.callbacks.on_loop v in
        run_on_loop E a v ≡ (returns tt, with_outbox a (a.outbox ++ queued_by r), w)
  unfolding run_on_loop consult ◌>>=◌
  run_on_loop_lem a v = let (r, w) = E.callbacks.on_loop v in enqueue_reply_lem r a w

  -- How many triggers it takes to poll again: `poll` itself, `send` and `wait` if `ms` are queued.
  abbrev pub rounds_for : List (AgentToServer E.crates) → ℕ
  rounds_for ms = if is_empty ms then 1 else 3
