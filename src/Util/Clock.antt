-- ===== src/Util/Clock.antt =====
-- `get_time_nanos` of src/opamp.rs: what it can panic on, and a clock on which it does not.
use mosfet_rs.Prelude.{ℕ, ◌≡◌, some}
use mosfet_rs.Exec.{Fault, bad_time}
use mosfet_rs.Exec.Keeps.{Keeps, Keeps-bind, Keeps-call, Keeps-unwrap}
use mosfet_rs.Env.{Env}
use mosfet_rs.Util.{get_time_nanos}

-- A clock that does not stand before the epoch.
pub record Clock (E : Env) : Type 0 where
  pub read : E.World → ℕ
  pub reads : (w : E.World) → E.nanos_since_epoch (E.now w).0 ≡ some (read w)

pub get_time_nanos-Keeps :
    (E : Env) {S : Type 0} {I : S → Type 0} {R : Fault → Type 0}
    → R bad_time
    → Keeps I R (get_time_nanos E)
get_time_nanos-Keeps E r = Keeps-bind _ _ (Keeps-call _) λ start. Keeps-unwrap bad_time _ r
