-- ===== src/Agent/Dispatch/Handling.antt =====
-- `handle_message` does what the list of events says.
use mathlib.Core.List.{append-nil}
use mosfet_rs.Prelude.{
  ◌≡◌, refl, sym, ap, Option, none, some, [], ◌∷◌, ◌++◌, Result, ok, err, push, if◌then◌else◌,
}
use mosfet_rs.Exec.{Exec, returns, call, gets, ◌>>=◌}
use mosfet_rs.Crates.{Offers}
use mosfet_rs.Env.{Env}
use mosfet_rs.Messages.{AgentToServer, ApiClientError, ConnectionSettings}
use mosfet_rs.Agent.{
  Agent, set_state, populate, get_status, consult, enqueue_reply, wants_full_state, enqueue_status,
  report_own_state, full_state, offer_settings, remaining_parts, handle_message,
}
use mosfet_rs.Agent.Dispatch.{
  Callback, command, error, health_check, remote_config, offers, packages, CallLog, asked, told,
  reported, events, state_events, offered, listed, asks_us, Done, reply_of, reply_list,
}
use mosfet_rs.Agent.Dispatch.Rules.{
  Does, Done-nothing, Does-bind, Does-pure, Does-when, Does-end, Does-if, Does-unless,
}

module _ (E : Env) (L : CallLog E) (settings : ConnectionSettings E.crates)
    (msg : E.ServerToAgent) where
  open L use {calls}

  abbrev Method : Type 0 → Type 0
  Method A = Exec E.World (Agent E) A

  with_reply : (r : Result ApiClientError (Option (AgentToServer E.crates))) → Agent E → Agent E
  with_reply r a = record a { outbox = a.outbox ++ reply_list E L settings msg (reply_of r) }

  enqueue_reply_lem :
      (r : Result ApiClientError (Option (AgentToServer E.crates))) (a : Agent E) (w : E.World)
      → enqueue_reply E r a w ≡ (returns tt, with_reply r a, w)
  unfolding enqueue_reply with_reply
  enqueue_reply_lem (ok (some m)) a w = refl
  enqueue_reply_lem (ok none) a w =
      ap (λ ms. (returns tt, record a { outbox = ms }, w)) (sym (append-nil a.outbox))
  enqueue_reply_lem (err e) a w =
      ap (λ ms. (returns tt, record a { outbox = ms }, w)) (sym (append-nil a.outbox))

  consult_lem :
      {st : AgentToServer E.crates} (c : Callback)
      (f : E.World → Result ApiClientError (Option (AgentToServer E.crates)) × E.World)
      → ((w : E.World) → calls (f w).1 ≡ push (calls w) (c, msg, reply_of (f w).0))
      → Does E L settings msg st st (consult E f) tt (asked c ∷ [])
  unfolding consult with_reply ◌>>=◌
  consult_lem c f law = record {
    at = λ a w owner there.
        let r = reply_of (f w).0 in
        rw (enqueue_reply_lem (f w).0 a (f w).1) (
          refl,
          owner,
          there,
          (
            (c, msg, r) ∷ [],
            reply_list E L settings msg r,
            refl,
            law w,
            (r, [], [], refl, sym (append-nil _), (refl, refl)),
          ),
        );
  }

  on_error_lem :
      {st : AgentToServer E.crates}
      → Does E L settings msg st st (call (E.callbacks.on_error msg)) tt (told ∷ [])
  on_error_lem = record {
    at = λ a w owner there. (
      refl,
      owner,
      there,
      ((error, msg, none) ∷ [], [], sym (append-nil _), L.on_error msg w, ([], refl, (refl, refl))),
    );
  }

  offer_settings_lem :
      {st : AgentToServer E.crates} (o : Option Offers)
      → Does E L settings msg st st (offer_settings E msg o) tt (offered E L settings msg o)
  unfolding offer_settings
  offer_settings_lem none = Does-pure E L settings msg tt
  offer_settings_lem (some o) =
      let ask = consult_lem offers _ (L.on_connection_settings_offers msg) in
      Does-bind E L settings msg _ _ tt tt _ _
        (Does-when E L settings msg o.own_metrics _ (asked offers) ask)
        (Does-bind E L settings msg _ _ tt tt _ _
          (Does-when E L settings msg o.own_traces _ (asked offers) ask)
          (Does-when E L settings msg o.own_logs _ (asked offers) ask))

  remaining_parts_lem :
      {st : AgentToServer E.crates}
      → Does E L settings msg st st (remaining_parts E msg none) none (
          listed E L settings msg (E.has_remote_config msg) (asked remote_config)
          ++ (offered E L settings msg (E.connection_settings msg)
              ++ listed E L settings msg (E.has_packages_available msg) (asked packages)))
  unfolding remaining_parts
  remaining_parts_lem =
      Does-bind E L settings msg _ _ tt none _ _
        (Does-when E L settings msg _ _ (asked remote_config)
          (consult_lem remote_config _ (L.on_agent_remote_config msg)))
        (Does-bind E L settings msg _ _ tt none _ _ (offer_settings_lem (E.connection_settings msg))
          (Does-end E L settings msg _ tt none _ (
            Does-when E L settings msg _ _ (asked packages)
              (consult_lem packages _ (L.on_packages_available msg)))))

  module _ (refresh : Method (Unit {0})) (polish : AgentToServer E.crates → AgentToServer E.crates)
      (polishes : (st : AgentToServer E.crates) (a : Agent E) (w : E.World)
        → a.agent_state ≡ some st
        → refresh a w ≡ (returns tt, set_state E (polish st) a, w)) where
    refresh_lem : (st : AgentToServer E.crates) → Does E L settings msg st (polish st) refresh tt []
    refresh_lem st = record {
      at = λ a w owner there.
          rw (polishes st a w there) (
            Done-nothing E L settings msg tt a (set_state E (polish st) a) w w owner refl refl
              refl);
    }

    get_status_lem :
        (st : AgentToServer E.crates) → Does E L settings msg st st (get_status E) (ok st) []
    unfolding get_status populate ◌>>=◌
    get_status_lem st = record {
      at = λ a w owner there. rw there (
          Done-nothing E L settings msg (ok st) a (record a { agent_state = some st }) w w owner
            refl refl refl);
    }

    enqueue_lem :
        (st : AgentToServer E.crates)
        → Does E L settings msg st st (enqueue_status E (ok st)) none (reported st ∷ [])
    unfolding enqueue_status ◌>>=◌
    enqueue_lem st = record {
      at = λ a w owner there.
          (refl, owner, there, ([], st ∷ [], refl, sym (append-nil _), ([], refl, (refl, refl))));
    }

    -- The state once the message is handled.
    abbrev pub state_after : AgentToServer E.crates → AgentToServer E.crates
    state_after st =
        if wants_full_state E msg then if asks_us E L settings msg then polish st else st else st

    full_state_lem :
        (st : AgentToServer E.crates)
        → Does E L settings msg st
            (state_after st)
            (full_state E refresh msg)
            none
            (state_events E L settings msg (polish st))
    unfolding full_state report_own_state
    full_state_lem st =
        Does-bind E L settings msg (gets (λ (a : Agent E). a.settings)) _ settings none [] _
          (record {
            at = λ a w owner there. (
              ap returns owner,
              owner,
              there,
              ([], [], sym (append-nil _), sym (append-nil _), (refl, refl)),
            );
          })
          (Does-unless E L settings msg _ _ _ none _ _ (Does-pure E L settings msg none) (
            Does-if E L settings msg _ _ _ none _ _
              (Does-bind E L settings msg _ _ tt none [] _ (refresh_lem st) (
                Does-bind E L settings msg _ _ (ok (polish st)) none [] _
                  (get_status_lem (polish st)) (enqueue_lem (polish st))))
              (Does-end E L settings msg _ tt none _
                (consult_lem health_check _ (L.on_health_check msg)))))

    -- With the agent state there, handling a message asks the callbacks that the message is for,
    -- in order and each with the message, queues what they reply to these calls and the state
    -- that is asked for, in that order too, and does not make poll return. What a callback
    -- replies may depend on all that went before.
    pub handle_message_does :
        (st : AgentToServer E.crates) (a : Agent E) (w : E.World)
        → a.settings ≡ settings
        → a.agent_state ≡ some st
        → Done E L settings msg a w
            (state_after st)
            none
            (events E L settings msg (polish st))
            (handle_message E refresh msg a w)
    unfolding handle_message
    handle_message_does st a w owner there =
        (Does-bind E L settings msg _ _ tt none _ _
            (Does-when E L settings msg _ _ (asked command)
              (consult_lem command _ (L.on_command msg)))
            (Does-bind E L settings msg _ _ tt none _ _
              (Does-when E L settings msg _ _ told on_error_lem)
              (Does-bind E L settings msg _ _ none none _ _ (full_state_lem st)
                remaining_parts_lem))).at
          a w owner there
