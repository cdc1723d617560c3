-- ===== src/Agent/Mail.antt =====
-- What the callbacks' replies can change: they are queued, so any invariant that does not read the
-- outbox is kept by the whole handling of a message.
use mosfet_rs.Prelude.{Option, none, some, Result, ok, err}
use mosfet_rs.Exec.{Fault}
use mosfet_rs.Exec.Keeps.{Keeps, keeps_rules, Keeps-modify, Keeps-pure}
use mosfet_rs.Crates.{Offers}
use mosfet_rs.Env.{Env}
use mosfet_rs.Messages.{AgentToServer, ApiClientError}
use mosfet_rs.Agent.{
  Agent, consult, enqueue, enqueue_reply, run_on_loop, pending_response, offer_settings,
}

module _ (E : Env) (I : Agent E → Type 0) (R : Fault → Type 0)
    (queue : (m : AgentToServer E.crates) (a : Agent E) → I a → I (enqueue E m a)) where
  enqueue_reply-Keeps :
      (r : Result ApiClientError (Option (AgentToServer E.crates))) → Keeps I R (enqueue_reply E r)
  unfolding enqueue_reply
  enqueue_reply-Keeps (ok (some m)) = Keeps-modify (enqueue E m) (queue m)
  enqueue_reply-Keeps (ok none) = Keeps-pure tt
  enqueue_reply-Keeps (err e) = Keeps-pure tt

  pub consult-Keeps :
      (callback : E.World → Result ApiClientError (Option (AgentToServer E.crates)) × E.World)
      → Keeps I R (consult E callback)
  unfolding consult
  consult-Keeps callback = search (keeps_rules, enqueue_reply-Keeps)

  pub run_on_loop-Keeps : Keeps I R (run_on_loop E)
  unfolding run_on_loop
  run_on_loop-Keeps = consult-Keeps E.callbacks.on_loop

  pub pending_response-Keeps : Keeps I R (pending_response E)
  unfolding pending_response
  pending_response-Keeps = search keeps_rules

  pub offer_settings-Keeps :
      (msg : E.ServerToAgent) (o : Option Offers) → Keeps I R (offer_settings E msg o)
  unfolding offer_settings
  offer_settings-Keeps msg none = Keeps-pure tt
  offer_settings-Keeps msg (some o) = search (keeps_rules, consult-Keeps)
