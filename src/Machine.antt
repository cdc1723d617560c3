-- ===== src/Machine.antt =====
-- src/state.rs and the `Channel` trait of src/opamp.rs: the state machine that drives a transport.
pub mod Moves
pub mod Arm
use mosfet_rs.Prelude.{String, Result, ok, err}
use mosfet_rs.Messages.{ApiClientError, to_string}
use mosfet_rs.Exec.{Exec, pure, ◌>>=◌}

pub data State : Type 0 where
  disconnected : String → State
  connecting : String → State
  connected : String → State
  polling : String → State
  sending : String → State
  waiting : String → State

pub data StateResponse : Type 0 where
  reply : String → StateResponse
  error : String → StateResponse
  nothing : StateResponse

abbrev pub nullstr : String
nullstr = ""

-- What the transition handlers of the trait return.
abbrev pub Handler : Type 0 → Type 0 → Type 0
Handler W S = Exec W S (Result ApiClientError StateResponse)

-- The trait without `trigger`, which `evaluate` does not call and each transport defines by it.
pub record Channel (W S : Type 0) : Type 0 where
  pub get_instance_id : S → String
  pub connect : Handler W S
  pub handshake : Handler W S
  pub poll : Handler W S
  pub send : Handler W S
  pub wait : Handler W S

-- The arms of the six inner matches.
abbrev pub after_connect : Result ApiClientError StateResponse → State
after_connect (ok (reply x)) = connected x
after_connect (ok nothing) = connected nullstr
after_connect (ok (error e)) = disconnected e
after_connect (err e) = disconnected (to_string e)

abbrev pub after_handshake : Result ApiClientError StateResponse → State
after_handshake (ok (reply x)) = sending x
after_handshake (ok nothing) = polling nullstr
after_handshake (ok (error e)) = disconnected e
after_handshake (err e) = disconnected (to_string e)

abbrev pub after_poll : State → Result ApiClientError StateResponse → State
after_poll self (ok (reply x)) = sending x
after_poll self (ok nothing) = self
after_poll self (ok (error e)) = disconnected e
after_poll self (err e) = connecting (to_string e)

abbrev pub after_send : Result ApiClientError StateResponse → State
after_send (ok (reply x)) = waiting x
after_send (ok nothing) = polling nullstr
after_send (ok (error e)) = polling e
after_send (err e) = connecting (to_string e)

abbrev pub after_wait : State → Result ApiClientError StateResponse → State
after_wait self (ok (reply x)) = polling x
after_wait self (ok nothing) = self
after_wait self (ok (error e)) = polling e
after_wait self (err e) = connecting (to_string e)

module _ {W S : Type 0} (client : Channel W S) where
  open client use {connect, handshake, poll, send, wait}

  -- `State::evaluate`
  unfoldable pub evaluate : State → Exec W S (Result ApiClientError State)
  evaluate (disconnected _) = pure (ok (connecting nullstr))
  evaluate (connecting _) = do r ← connect; pure (ok (after_connect r))
  evaluate (connected _) = do r ← handshake; pure (ok (after_handshake r))
  evaluate (polling x) = do r ← poll; pure (ok (after_poll (polling x) r))
  evaluate (sending _) = do r ← send; pure (ok (after_send r))
  evaluate (waiting x) = do r ← wait; pure (ok (after_wait (waiting x) r))
