-- ===== src/Agent/Report.antt =====
-- The health report of an agent: what `poll` of src/httpclient/mod.rs and of src/wsclient/mod.rs
-- makes of its state and its health record.
use mosfet_rs.Prelude.{ℕ, ◌≡◌, sym, ◌∙◌, ap, Bool, true, Option, some, arith}
use mosfet_rs.Exec.{returns, ◌>>=◌}
use mosfet_rs.Env.{Env}
use mosfet_rs.Messages.{AgentHealth, AgentToServer, ConnectionSettings}
use mosfet_rs.Defaults.{as_u64}
use mosfet_rs.Agent.{Agent, set_state, with_health, get_status, set_health}

module _ (E : Env) where
  -- The state with its health record marked.
  abbrev pub well_again : AgentToServer E.crates → AgentHealth → AgentToServer E.crates
  well_again st h = record st { health = some (record h { healthy = true }) }

  -- The report, for the time `t`.
  abbrev pub report : ConnectionSettings E.crates → AgentHealth → ℕ → AgentToServer E.crates
  report settings h t = record E.message_default {
    instance_uid = settings.instance_id;
    health = some (record h { healthy = true; start_time_unix_nano = as_u64 t });
  }

  pub set_health_lem :
      (b : Bool) (st : AgentToServer E.crates) (a : Agent E) (w : E.World)
      → a.agent_state ≡ some st
      → set_health E b a w ≡ (returns tt, set_state E (with_health E b st) a, w)
  unfolding set_health get_status ◌>>=◌
  set_health_lem b st a w there = ground (arith, there)

  pub marked_same :
      (st : AgentToServer E.crates) {h : AgentHealth}
      → st.health ≡ some h
      → h.healthy ≡ true
      → with_health E true st ≡ st
  marked_same st has well = ground (arith, has, well)

  -- Marking a healthy agent healthy changes nothing.
  pub set_health_idle :
      (st : AgentToServer E.crates) {h : AgentHealth} (a : Agent E) (w : E.World)
      → st.health ≡ some h
      → h.healthy ≡ true
      → a.agent_state ≡ some st
      → set_health E true a w ≡ (returns tt, a, w)
  set_health_idle st a w has well there =
      set_health_lem true st a w there
      ∙ ap (λ (o : Option (AgentToServer E.crates)). (returns tt, record a { agent_state = o }, w))
          (ap some (marked_same st has well) ∙ sym there)
