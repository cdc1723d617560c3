-- ===== src/Agent/Phases.antt =====
-- What each state of the machine demands of the part that both transports share.
use mosfet_rs.Env.{Env}
use mosfet_rs.Messages.{ConnectionSettings}
use mosfet_rs.Machine.{State, disconnected, connecting, connected, polling, sending, waiting}
use mosfet_rs.Agent.{Agent}
use mosfet_rs.Agent.Ready.{IsReady, IsSound}

module _ (E : Env) (settings : ConnectionSettings E.crates) where
  -- The agent's state is filled from the handshake on, and sound before.
  abbrev pub Fits : State → Agent E → Type 0
  Fits (disconnected x) = IsSound E settings
  Fits (connecting x) = IsSound E settings
  Fits (connected x) = IsSound E settings
  Fits (polling x) = IsReady E settings
  Fits (sending x) = IsReady E settings
  Fits (waiting x) = IsReady E settings
