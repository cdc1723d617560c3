-- ===== src/Machine/Moves.antt =====
-- The nine edges between the states of src/state.rs that the two transports of the crate take:
-- after the handshake there is no way back to dialling.
use mosfet_rs.Prelude.{String}
use mosfet_rs.Machine.{
  State, disconnected, connecting, connected, polling, sending, waiting, nullstr,
}

pub data Move : State → State → Type 0 where
  begin : {x : String} → Move (disconnected x) (connecting nullstr)
  reach : {x y : String} → Move (connecting x) (connected y)
  miss : {x y : String} → Move (connecting x) (disconnected y)
  hello : {x y : String} → Move (connected x) (sending y)
  queue : {x y : String} → Move (polling x) (sending y)
  pass : {x : String} → Move (polling x) (polling x)
  sent : {x y : String} → Move (sending x) (waiting y)
  fault : {x y : String} → Move (sending x) (polling y)
  again : {x y : String} → Move (waiting x) (polling y)

-- The states after the handshake.
abbrev pub IsUp : State → Type 0
IsUp (disconnected x) = ⊥
IsUp (connecting x) = ⊥
IsUp (connected x) = ⊥
IsUp (polling x) = Unit
IsUp (sending x) = Unit
IsUp (waiting x) = Unit

pub Move-IsUp : {s t : State} → Move s t → IsUp s → IsUp t
Move-IsUp begin up = absurd up
Move-IsUp reach up = absurd up
Move-IsUp miss up = absurd up
Move-IsUp hello up = absurd up
Move-IsUp queue up = tt
Move-IsUp pass up = tt
Move-IsUp sent up = tt
Move-IsUp fault up = tt
Move-IsUp again up = tt
