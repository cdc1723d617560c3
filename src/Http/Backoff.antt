-- ===== src/Http/Backoff.antt =====
-- `connect` of src/httpclient/mod.rs while the server does not answer: the waits, their number and
-- the error at the end.
use Prim.Native.Nat.{suc-le-suc}
use native.Mathlib.Decide.{dec_le}
use native.Mathlib.Nat.{le_trans, mod-eq_of_lt, pow-le-pow_right, two-pow-succ}
use mosfet_rs.Prelude.{
  ℕ, zero, suc, ◌⊎◌, inl, inr, ◌+◌, ◌-◌, ◌%◌, ◌^◌, ◌≤◌, ◌<◌, ◌≡◌, refl, sym, ◌∙◌, ap, String, ◌<>◌,
  some, ok, err, arith, unwrap_or, parse_u32,
}
use mosfet_rs.Exec.{Exec, Outcome, returns, pure, repeat, ◌>>=◌, ◌>>◌}
use mosfet_rs.Env.{Env}
use mosfet_rs.Machine.{error}
use mosfet_rs.Defaults.{as_u64}
use mosfet_rs.Http.Wire.{HttpClient}
use mosfet_rs.Http.Steps.{connect, retry_later}

-- A server that never answers, a fixed retry limit, and a view of the world that adds up the
-- seconds slept.
pub record Outage (E : Env) (retries : ℕ) : Type 0 where
  pub reason : E.World → String
  pub refused : (u : E.Url) (w : E.World) → (E.http_head u w).0 ≡ err (reason w)
  pub limit :
      (w : E.World)
      → parse_u32 (unwrap_or (E.env_var "OPAMP_CONNECT_RETRIES" w).0 "10") ≡ some retries
  pub slept : E.World → ℕ
  pub slept-head : (u : E.Url) (w : E.World) → slept (E.http_head u w).1 ≡ slept w
  pub slept-env : (s : String) (w : E.World) → slept (E.env_var s w).1 ≡ slept w
  pub slept-sleep : (n : ℕ) (w : E.World) → slept (E.sleep n w).1 ≡ slept w + n

module _ (E : Env) (retries : ℕ) (O : Outage E retries) where
  open O use {slept}

  abbrev pub next_backoff : HttpClient E → HttpClient E
  next_backoff c = record c { backoff = (c.backoff + 1) % 2 ^ 32 }

  -- The world after the request and the reading of the limit.
  abbrev pub asked : HttpClient E → E.World → E.World
  asked c w = (E.env_var "OPAMP_CONNECT_RETRIES" (E.http_head c.address w).1).1

  pub connect_waits :
      (c : HttpClient E) (w : E.World)
      → (next_backoff c).backoff ≤ retries
      → connect E c w ≡ (
        returns (ok (error "endpoint not responding: retrying ..")),
        next_backoff c,
        (E.sleep (as_u64 (2 ^ (next_backoff c).backoff)) (asked c w)).1,
      )
  unfolding connect retry_later ◌>>=◌
  connect_waits c w le = ground (arith, O.refused c.address w, O.limit (E.http_head c.address w).1)

  pub connect_stops :
      (c : HttpClient E) (w : E.World)
      → retries < (next_backoff c).backoff
      → connect E c w ≡ (
        returns (
            err (record { code = 289; details = "Failed to connect to endpoint: " <> O.reason w })),
        next_backoff c,
        asked c w,
      )
  unfolding connect retry_later ◌>>=◌
  connect_stops c w le = ground (arith, O.refused c.address w, O.limit (E.http_head c.address w).1)

  -- `n` calls of `connect` in a row.
  abbrev pub attempts : ℕ → Exec E.World (HttpClient E) (Unit {0})
  attempts n = repeat n (connect E >> pure tt)

  -- What `n` failing calls from a backoff of `b` leave behind: the backoff `b + n`, and
  -- 2 ^ (b + 1) + … + 2 ^ (b + n) more seconds slept.
  abbrev pub Waited : ℕ → ℕ → E.World → Outcome (Unit {0}) × HttpClient E × E.World → Type 0
  Waited b n w (o, c', w') =
      (o ≡ returns tt) × (c'.backoff ≡ b + n) × (slept w' + 2 ^ suc b ≡ slept w + 2 ^ suc (b + n))

  pub no_overflow : (b : ℕ) → b ≤ 63 → as_u64 (2 ^ b) ≡ 2 ^ b
  no_overflow b le =
      mod-eq_of_lt (le_trans (suc-le-suc (pow-le-pow_right (omega arith) le)) (omega arith))

  Waited-suc :
      (b n : ℕ) (w w₁ : E.World) (out : Outcome (Unit {0}) × HttpClient E × E.World)
      → slept w₁ ≡ slept w + 2 ^ suc b
      → Waited (suc b) n w₁ out
      → Waited b (suc n) w out
  Waited-suc b n w w₁ (o, c', w') s (done, count, sum) =
      let e : b + suc n ≡ suc b + n = omega arith in
      (done, count ∙ sym e, rw e (omega (arith, two-pow-succ (suc b))))

  -- While the server does not answer and the limit of retries, 63 at most, is not passed, `n`
  -- calls of `connect` sleep 2 ^ (b + 1) up to 2 ^ (b + n) seconds, each time twice as long.
  pub connect_backs_off :
      (n b : ℕ) (c : HttpClient E) (w : E.World)
      → retries ≤ 63
      → c.backoff ≡ b
      → b + n ≤ retries
      → Waited b n w (attempts n c w)
  unfolding repeat ◌>>=◌
  connect_backs_off zero b c w small at le =
      let e : b ≡ b + 0 = omega arith in (refl, at ∙ e, ap (λ k. slept w + 2 ^ suc k) e)
  connect_backs_off (suc n) b c w small at le =
      let up : (next_backoff c).backoff ≡ suc b = omega arith in
      let w₁ = (E.sleep (as_u64 (2 ^ (next_backoff c).backoff)) (asked c w)).1 in
      rw (connect_waits c w (omega arith)) (
        Waited-suc b n w w₁ (attempts n (next_backoff c) w₁)
          (O.slept-sleep _ (asked c w)
            ∙ rw (O.slept-env, O.slept-head, up, no_overflow (suc b) (omega arith)))
          (connect_backs_off n (suc b) (next_backoff c) w₁ small up (omega arith)))

  -- Once the backoff has reached the limit, every further call of `connect` is an error at once:
  -- the machine may call it as often as it likes, and no second is slept.
  connect_gives_up :
      (m : ℕ) (c : HttpClient E) (w : E.World)
      → retries ≤ c.backoff
      → c.backoff + m < 2 ^ 32
      → let (o, c', w') = attempts m c w in
        (o ≡ returns tt) × (c'.backoff ≡ c.backoff + m) × (slept w' ≡ slept w)
  unfolding repeat ◌>>=◌
  connect_gives_up zero c w past room = (refl, omega arith, refl)
  connect_gives_up (suc m) c w past room =
      let (done, count, same) =
        connect_gives_up m (next_backoff c) (asked c w) (omega arith) (omega arith) in
      rw (connect_stops c w (omega arith))
        (done, omega arith, same ∙ rw (O.slept-env, O.slept-head))

  -- 64 bits hold no power of 2 from 2 ^ 64 on.
  overflow_from : (k b : ℕ) → b ≡ k + 64 → as_u64 (2 ^ b) ≡ 0
  overflow_from zero b e = rw e (omega arith)
  overflow_from (suc k) b e =
      let up : b ≡ suc (k + 64) = omega arith in
      rw up (omega (arith, two-pow-succ (k + 64), overflow_from k (k + 64) refl))

  overflow : (b : ℕ) → 64 ≤ b → as_u64 (2 ^ b) ≡ 0
  overflow b le = overflow_from (b - 64) b (omega arith)

  -- While the server does not answer, once the backoff has reached 63 or the limit, every further
  -- call of `connect` returns at once, up to the wrap of the 32-bit counter: from 63 on the seconds
  -- to sleep are cut to 0, from the limit on there are none to sleep.
  pub connect_never_waits :
      (m : ℕ) (c : HttpClient E) (w : E.World)
      → (63 ≤ c.backoff) ⊎ (retries ≤ c.backoff)
      → c.backoff + m < 2 ^ 32
      → let (o, c', w') = attempts m c w in
        (o ≡ returns tt) × (c'.backoff ≡ c.backoff + m) × (slept w' ≡ slept w)
  unfolding repeat ◌>>=◌
  connect_never_waits m c w (inr past) room = connect_gives_up m c w past room
  connect_never_waits zero c w (inl many) room = (refl, omega arith, refl)
  connect_never_waits (suc m) c w (inl many) room = elim (dec_le (next_backoff c).backoff retries) [
    | yes le ↦
        let c₁ = next_backoff c in
        let w₁ = (E.sleep (as_u64 (2 ^ c₁.backoff)) (asked c w)).1 in
        let (done, count, same) = connect_never_waits m c₁ w₁ (inl (omega arith)) (omega arith) in
        rw (connect_waits c w le) (
          done,
          omega arith,
          same
              ∙ O.slept-sleep _ (asked c w)
              ∙ rw (O.slept-env, O.slept-head, overflow c₁.backoff (omega arith)) (omega arith),
        )
    | no gt ↦
        let (done, count, same) =
          connect_never_waits m (next_backoff c) (asked c w) (inl (omega arith)) (omega arith) in
        rw (connect_stops c w (omega arith))
          (done, omega arith, same ∙ rw (O.slept-env, O.slept-head))
  ]
