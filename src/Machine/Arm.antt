-- ===== src/Machine/Arm.antt =====
-- One arm of `State::evaluate`: from what a handler ensures to what holds of the next state.
use mosfet_rs.Prelude.{Result, ok}
use mosfet_rs.Exec.{Exec, Fault, pure, ◌>>=◌}
use mosfet_rs.Exec.Keeps.{Meets, Meets-bind, Meets_mono}
use mosfet_rs.Messages.{ApiClientError}
use mosfet_rs.Machine.{State, StateResponse}

module _ {W S : Type 0} {T : Fault → Type 0} where
  pub arm :
      {P : S → Type 0} (Q : Result ApiClientError StateResponse → S → Type 0) {R : Fault → Type 0}
      (F : Result ApiClientError State → S → Type 0)
      (m : Exec W S (Result ApiClientError StateResponse))
      (next : Result ApiClientError StateResponse → State)
      → Meets P m Q R
      → ((f : Fault) → R f → T f)
      → ((r : Result ApiClientError StateResponse) (c : S) → Q r c → F (ok (next r)) c)
      → Meets P (m >>= λ r. pure (ok (next r))) F T
  arm Q F m next k more fits =
      Meets-bind Q m _ (Meets_mono m (λ c h. h) (λ r c h. h) more k)
        λ r. record { at = λ c w h. fits r c h }
