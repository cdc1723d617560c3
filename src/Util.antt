-- ===== src/Util.antt =====
-- `mod util` of src/opamp.rs: the clock and the instance ids. `S` is the client that the caller has
-- borrowed, which these functions leave alone.
pub mod Clock
use mosfet_rs.Prelude.{ℕ}
use mosfet_rs.Exec.{Exec, pure, call, unwrap, ◌>>=◌, ◌>>◌, bad_time, no_ulid}
use mosfet_rs.Env.{Env}

module _ (E : Env) {S : Type 0} where
  -- `duration_since(UNIX_EPOCH)` fails on a time before the epoch.
  abbrev pub get_time_nanos : Exec E.World S ℕ
  get_time_nanos = do start ← call E.now; unwrap bad_time (E.nanos_since_epoch start)

  -- The four random bytes of `entropy` are drawn and not used.
  abbrev pub generate_ulid : Exec E.World S E.Ulid
  generate_ulid = do
    dt ← call E.now
    call (E.fill_bytes 4)
    id ← call (E.generate_from_datetime dt)
    unwrap no_ulid id
