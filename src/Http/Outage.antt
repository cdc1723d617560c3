-- ===== src/Http/Outage.antt =====
-- Whole runs of the HTTP client of src/httpclient/mod.rs while its server does not answer: the loop
-- goes on for ever, but all its waits together are bounded.
use native.Mathlib.Nat.{two-pow-succ, pow-le-pow_right}
use mosfet_rs.Prelude.{
  ℕ, zero, suc, ◌+◌, ◌^◌, ◌≤◌, ◌<◌, ◌≡◌, refl, sym, ◌∙◌, ap, ◌⊎◌, inl, inr, String, Result, arith,
  lt-or-le,
}
use mosfet_rs.Exec.{returns, repeat, ◌>>=◌}
use mosfet_rs.Exec.Steps.{repeat-suc}
use mosfet_rs.Env.{Env}
use mosfet_rs.Messages.{ApiClientError, ConnectionSettings}
use mosfet_rs.Machine.{
  State, disconnected, connecting, connected, polling, sending, waiting, StateResponse, evaluate,
  after_connect, nullstr,
}
use mosfet_rs.Defaults.{as_u64}
use mosfet_rs.Http.Wire.{HttpClient, new}
use mosfet_rs.Http.Steps.{connect, channel, settle, trigger}
use mosfet_rs.Http.Backoff.{Outage, next_backoff, asked, connect_waits, connect_stops, no_overflow}

-- The states in which the client has no connection.
abbrev pub IsDown : State → Type 0
IsDown (disconnected x) = Unit
IsDown (connecting x) = Unit
IsDown (connected x) = ⊥
IsDown (polling x) = ⊥
IsDown (sending x) = ⊥
IsDown (waiting x) = ⊥

module _ (E : Env) (retries : ℕ) (O : Outage E retries) (small : retries ≤ 63) (before : ℕ) where
  open O use {slept}

  -- With a backoff of `b`, `k` waits have been made: all so far, or as many as are allowed.
  abbrev Waits : ℕ → ℕ → E.World → Type 0
  Waits k b w =
      (k ≤ retries)
      × ((k ≡ b) ⊎ ((k ≡ retries) × (retries ≤ b)))
      × (slept w + 2 ≡ before + 2 ^ suc k)

  -- After at most `j` failures.
  abbrev Out : ℕ → HttpClient E → E.World → Type 0
  Out j c w = IsDown c.state × (c.backoff ≤ j) × ((k : ℕ) × Waits k c.backoff w)

  begins :
      (x : String) (c : HttpClient E) (w : E.World)
      → c.state ≡ disconnected x
      → trigger E c w ≡ (returns tt, record c { state = connecting nullstr }, w)
  unfolding trigger settle evaluate channel ◌>>=◌
  begins x c w at = rw at refl

  tries :
      (x : String) (c : HttpClient E) (w : E.World) (r : Result ApiClientError StateResponse)
      (c' : HttpClient E) (w' : E.World)
      → c.state ≡ connecting x
      → connect E c w ≡ (returns r, c', w')
      → trigger E c w ≡ (returns tt, record c' { state = after_connect r }, w')
  unfolding trigger settle evaluate channel ◌>>=◌
  tries x c w r c' w' at e = ground arith

  waited :
      (b k : ℕ) (w w' : E.World)
      → k ≡ b
      → slept w + 2 ≡ before + 2 ^ suc k
      → slept w' ≡ slept w + 2 ^ suc b
      → slept w' + 2 ≡ before + 2 ^ suc (suc b)
  waited b k w w' e sum longer =
      let sum' : slept w + 2 ≡ before + 2 ^ suc b = sum ∙ ap (λ i. before + 2 ^ suc i) e in
      omega (arith, two-pow-succ (suc b))

  down_cases :
      (s : State)
      → IsDown s
      → ((x : String) × (s ≡ disconnected x)) ⊎ ((x : String) × (s ≡ connecting x))
  down_cases (disconnected x) h = inl (x, refl)
  down_cases (connecting x) h = inr (x, refl)
  down_cases (connected x) h = absurd h
  down_cases (polling x) h = absurd h
  down_cases (sending x) h = absurd h
  down_cases (waiting x) h = absurd h

  -- One more failure.
  fails :
      (j : ℕ) (x : String) (c : HttpClient E) (w : E.World)
      → c.state ≡ connecting x
      → j + 1 < 2 ^ 32
      → Out j c w
      → ((trigger E c w).0 ≡ returns tt) × Out (suc j) (trigger E c w).1 (trigger E c w).2
  fails j x c w at room (down, le, (k, (few, how, sum))) =
      let up : (next_backoff E retries O c).backoff ≡ suc c.backoff = omega arith in
      elim (lt-or-le retries (next_backoff E retries O c).backoff) [
        | inl past ↦
            let spent : (k ≡ retries) × (retries ≤ (next_backoff E retries O c).backoff) =
              ground arith in
            let same : slept (asked E retries O c w) ≡ slept w =
              O.slept-env _ _ ∙ O.slept-head c.address w in
            rw (tries x c w _ _ _ at (connect_stops E retries O c w past))
              (refl, (tt, omega arith, (k, (few, inr spent, omega arith))))
        | inr within ↦
            let all : k ≡ c.backoff = ground arith in
            let wait = as_u64 (2 ^ (next_backoff E retries O c).backoff) in
            let longer : slept (E.sleep wait (asked E retries O c w)).1
                ≡ slept w + 2 ^ suc c.backoff =
              O.slept-sleep wait (asked E retries O c w)
              ∙ rw
                  (
                    O.slept-env,
                    O.slept-head,
                    up,
                    no_overflow E retries O (suc c.backoff) (omega arith),
                  )
                  refl in
            rw (tries x c w _ _ _ at (connect_waits E retries O c w within)) (
              refl,
              (
                tt,
                omega arith,
                (suc c.backoff, (omega arith, inl (sym up), waited c.backoff k w _ all sum longer)),
              ),
            )
      ]

  round :
      (j : ℕ) (c : HttpClient E) (w : E.World)
      → j + 1 < 2 ^ 32
      → Out j c w
      → ((trigger E c w).0 ≡ returns tt) × Out (suc j) (trigger E c w).1 (trigger E c w).2
  round j c w room out = elim (down_cases c.state out.0) [
    | inl (x, at) ↦ rw (begins x c w at) (refl, (tt, omega (arith, out.1), out.2))
    | inr (x, at) ↦ fails j x c w at room out
  ]

  rounds :
      (n j : ℕ) (c : HttpClient E) (w : E.World)
      → j + n < 2 ^ 32
      → Out j c w
      → let (o, c', w') = repeat n (trigger E) c w in (o ≡ returns tt) × Out (j + n) c' w'
  unfolding repeat
  rounds zero j c w room out = (refl, (out.0, omega (arith, out.1), out.2))
  rounds (suc n) j c w room out =
      let (o, out') = round j c w (omega arith) out in
      let (o', (down, le, rest)) =
        rounds n (suc j) (trigger E c w).1 (trigger E c w).2 (omega arith) out' in
      rw (repeat-suc n (trigger E) c w o) (o', (down, omega (arith, le), rest))

-- While the server does not answer, with a limit of at most 63 retries, a client made by `new`
-- never panics and never gets a connection, however often it is triggered (below 2 ^ 32 times); and
-- all its waits together last less than 2 ^ (retries + 1) seconds.
pub outage_waits_bounded :
    (E : Env) (retries : ℕ) (O : Outage E retries) (settings : ConnectionSettings E.crates) (n : ℕ)
    {c : HttpClient E} (w : E.World)
    → retries ≤ 63
    → n < 2 ^ 32
    → new E settings ≡ returns c
    → let (o, c', w') = repeat n (trigger E) c w in
      (o ≡ returns tt) × IsDown c'.state × (O.slept w' < O.slept w + 2 ^ suc retries)
unfolding new
outage_waits_bounded E retries O settings n {c} w small room made =
    let fresh : (c.state ≡ disconnected "") × (c.backoff ≡ 0) = ground arith in
    let (o, (down, le, (k, (few, how, sum)))) =
      rounds E retries O small (O.slept w) n 0 c w (omega (arith, room))
        (rw fresh.0 tt, omega (arith, fresh.1), (0, (omega arith, inl (sym fresh.1), refl))) in
    let most : 2 ^ suc k ≤ 2 ^ suc retries = pow-le-pow_right (omega arith) (omega arith) in
    (o, down, omega (arith, sum, most))
