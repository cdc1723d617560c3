-- ===== src/Agent/Once.antt =====
-- `get_status` of both clients fills the persistent `agent_state` once.
use mosfet_rs.Prelude.{◌≡◌, ok, arith}
use mosfet_rs.Exec.{returns, ◌>>=◌}
use mosfet_rs.Env.{Env}
use mosfet_rs.Messages.{AgentToServer}
use mosfet_rs.Agent.{Agent, get_status}

module _ (E : Env) where
  -- Once `get_status` has returned a status, a further call returns the same one, changes nothing,
  -- and asks neither the callbacks nor the clock nor the host.
  pub get_status_again :
      (a a' : Agent E) (w w' v : E.World) {st : AgentToServer E.crates}
      → get_status E a w ≡ (returns (ok st), a', w')
      → get_status E a' v ≡ (returns (ok st), a', v)
  unfolding get_status ◌>>=◌
  get_status_again a a' w w' v done = ground arith
