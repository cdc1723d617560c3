-- ===== src/Agent/Hosted.antt =====
-- The first status of an agent on a host that is known.
use mosfet_rs.Prelude.{◌≡◌, refl, String, Bool, false, Option, none, some, ok}
use mosfet_rs.Exec.{returns, ◌>>=◌}
use mosfet_rs.Env.{Env}
use mosfet_rs.Util.Clock.{Clock}
use mosfet_rs.Messages.{AgentHealth, AgentToServer}
use mosfet_rs.Defaults.{agent_health, agent_description}
use mosfet_rs.Agent.{Agent, set_state, populate, get_status, with_health, set_health}

-- A host with a name and a kernel version, ulids, and a clock that does not stand before the epoch.
pub record Hosted (E : Env) : Type 0 where
  pub kernel : (w : E.World) → (t : String) × ((E.kernel_version w).0 ≡ some t)
  pub host : (w : E.World) → (t : String) × ((E.host_name w).0 ≡ some t)
  pub ulids :
      (t : E.SystemTime) (w : E.World) → (i : E.Ulid) × ((E.generate_from_datetime t w).0 ≡ some i)
  pub clock : Clock E

-- There is a health record, which is not marked healthy.
abbrev pub IsUnhealthy : Option AgentHealth → Type 0
IsUnhealthy none = ⊥
IsUnhealthy (some h) = h.healthy ≡ false

pub unhealthy_record :
    (o : Option AgentHealth)
    → IsUnhealthy o
    → (h : AgentHealth) × (o ≡ some h) × (h.healthy ≡ false)
unhealthy_record none k = absurd k
unhealthy_record (some h) k = (h, refl, k)

pub with_health-IsUnhealthy :
    (E : Env) (st : AgentToServer E.crates)
    → IsUnhealthy st.health
    → IsUnhealthy (with_health E false st).health
with_health-IsUnhealthy E st k = let (h, there, ill) = unhealthy_record st.health k in rw there refl

module _ (E : Env) (N : Hosted E) where
  -- The first status, whose instance id is that of the settings; it is not marked healthy.
  pub first_status :
      (a : Agent E) (w : E.World)
      → a.agent_state ≡ none
      → (st : AgentToServer E.crates) × (get_status E a w
          ≡ (returns (ok st), set_state E st a, (get_status E a w).2))
        × (st.instance_uid ≡ a.settings.instance_id)
        × IsUnhealthy st.health
  unfolding get_status populate agent_description agent_health ◌>>=◌
  first_status a w missing =
      let w₁ = (E.callbacks.get_features (E.callbacks.get_configuration w).1).1 in
      let t₁ = (E.now w₁).0 in
      let r = (E.fill_bytes 4 (E.now w₁).1).1 in
      let (i, drawn) = N.ulids t₁ r in
      let w₂ = (E.generate_from_datetime t₁ r).1 in
      let (t, kernel) = N.kernel w₂ in
      let (t', host) = N.host (E.kernel_version w₂).1 in
      let w₃ = (E.host_name (E.kernel_version w₂).1).1 in
      rw (missing, drawn, kernel, host, N.clock.reads w₃) (_, refl, refl, refl)

  -- `set_health` on an agent without a status makes the first one.
  pub first_health :
      (b : Bool) (a : Agent E) (w : E.World)
      → a.agent_state ≡ none
      → (st : AgentToServer E.crates) × (set_health E b a w
          ≡ (returns tt, set_state E st a, (get_status E a w).2))
        × (st.instance_uid ≡ a.settings.instance_id)
        × (b ≡ false → IsUnhealthy st.health)
  unfolding set_health ◌>>=◌
  first_health b a w missing =
      let (st, first, named, unwell) = first_status a w missing in
      (
        with_health E b st,
        rw first refl,
        named,
        λ off. rw off (with_health-IsUnhealthy E st unwell),
      )
