-- ===== src/Agent/Status.antt =====
-- `get_status` of the two clients, on every branch: the status that it returns and leaves behind, or
-- the panic that it ends in.
use mosfet_rs.Prelude.{
  ◌≡◌, ◌∙◌, ◌⊎◌, inl, inr, refl, ap, sym, String, Option, none, some, Result, ok, err,
}
use mosfet_rs.Exec.{
  Fault, gets, unwrap, pure, no_agent_state, no_host_info, no_ulid, bad_time, ◌>>=◌,
}
use mosfet_rs.Exec.Keeps.{
  Keeps, Meets, keeps_rules, Keeps-bind, Keeps-call, Keeps-pure, Keeps-unwrap, Keeps-then,
  Meets-bind, Meets-pure,
}
use mosfet_rs.Util.{generate_ulid}
use mosfet_rs.Util.Clock.{get_time_nanos-Keeps}
use mosfet_rs.Env.{Env}
use mosfet_rs.Messages.{AgentHealth, AgentToServer, ApiClientError, ConnectionSettings}
use mosfet_rs.Defaults.{agent_health, agent_description}
use mosfet_rs.Agent.{Agent, set_state, populate, get_status}

abbrev pub HasHealth : Option AgentHealth → Type 0
HasHealth none = ⊥
HasHealth (some h) = Unit

-- The panic on a time before the epoch.
abbrev pub OnClock : Fault → Type 0
OnClock bad_time = Unit
OnClock _ = ⊥

-- The panics of `get_status`: the host has no name or no kernel version, there is no ulid, or the
-- time is before the epoch.
abbrev pub OnHost : Fault → Type 0
OnHost no_host_info = Unit
OnHost no_ulid = Unit
OnHost bad_time = Unit
OnHost _ = ⊥

module _ (E : Env) where
  agent_health-Keeps : {S : Type 0} {I : S → Type 0} → Keeps I OnHost (agent_health E)
  unfolding agent_health
  agent_health-Keeps = Keeps-bind _ _ (get_time_nanos-Keeps E tt) λ nanos. Keeps-pure _

  pub generate_ulid-Keeps : {S : Type 0} {I : S → Type 0} → Keeps I OnHost (generate_ulid E)
  generate_ulid-Keeps = Keeps-bind _ _ (Keeps-call _) λ dt.
      Keeps-bind _ _ (Keeps-call _)
        λ entropy. Keeps-bind _ _ (Keeps-call _) λ id. Keeps-unwrap no_ulid id tt

  agent_description-Keeps :
      {S : Type 0} {I : S → Type 0} (name version : String)
      → Keeps I OnHost (agent_description E name version)
  unfolding agent_description
  agent_description-Keeps name version = search (keeps_rules, generate_ulid-Keeps) depth 12

  -- The status is there, whether it was before or is new.
  abbrev pub Holding : Agent E → AgentToServer E.crates → Type 0
  Holding a₀ st =
      (a₀.agent_state ≡ some st)
      ⊎ (HasHealth st.health × (st.instance_uid ≡ a₀.settings.instance_id))

  abbrev Filled : Agent E → Agent E → Type 0
  Filled a₀ a = (st : AgentToServer E.crates) × (a ≡ set_state E st a₀) × Holding a₀ st

  populate_fills :
      (a₀ : Agent E) (o : Option (AgentToServer E.crates))
      → a₀.agent_state ≡ o
      → Meets (λ a. a ≡ a₀) (populate E o) (λ u. Filled a₀) OnHost
  unfolding populate
  populate_fills a₀ (some st) e = Meets-pure tt (λ a h. (st, h ∙ same, inl e))
    where
      same : a₀ ≡ set_state E st a₀
      same = ap (λ (s : Option (AgentToServer E.crates)). record a₀ { agent_state = s }) e
  populate_fills a₀ none e = Keeps-then _ _ (Keeps-call _) λ config.
      Keeps-then _ _ (Keeps-call _) λ features.
        Meets-bind (λ s a. (a ≡ a₀) × (s ≡ a₀.settings)) (gets (λ (a : Agent E). a.settings)) _
          (record { at = λ a w h. (h, ap (λ (b : Agent E). b.settings) h) })
          λ settings. Keeps-then _ _ (agent_description-Keeps _ _) λ description.
            Keeps-then _ _ agent_health-Keeps λ health. record {
              at = λ a w h. (
                _,
                ap (set_state E _) h.0,
                inr (tt, ap (λ (s : ConnectionSettings E.crates). s.instance_id) h.1),
              );
            }

  -- What `get_status` returns, and the agent that it leaves.
  abbrev pub Told : Agent E → Result ApiClientError (AgentToServer E.crates) → Agent E → Type 0
  Told a₀ (ok st) a = (a ≡ set_state E st a₀) × Holding a₀ st
  Told a₀ (err e) a = ⊥

  read_back :
      (a₀ : Agent E)
      → Meets {W = E.World}
          (Filled a₀)
          (do
            new ← gets (λ (a : Agent E). a.agent_state)
            st ← unwrap no_agent_state new
            pure (ok st))
          (Told a₀)
          OnHost
  unfolding ◌>>=◌
  read_back a₀ = record { at = λ a w (st, e, h). rw e (refl, h) }

  pub get_status_tells : (a₀ : Agent E) → Meets (λ a. a ≡ a₀) (get_status E) (Told a₀) OnHost
  unfolding get_status
  get_status_tells a₀ =
      Meets-bind (λ o a. (a ≡ a₀) × (a₀.agent_state ≡ o)) (gets (λ (a : Agent E). a.agent_state)) _
        (record { at = λ a w h. (h, ap (λ (b : Agent E). b.agent_state) (sym h)) })
        λ old.
          Meets-bind (λ u. Filled a₀) _ _
            (record { at = λ a w h. (populate_fills a₀ old h.1).at a w h.0 }) λ u. read_back a₀
