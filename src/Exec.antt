-- ===== src/Exec.antt =====
-- How the stateful code runs: a client of type `S` that the method borrows mutably, the outside
-- world `W`, and an outcome, since `unwrap`, `expect` and slicing may panic.
pub mod Keeps
pub mod Always
pub mod Steps
pub mod Tracks
use mosfet_rs.Prelude.{ℕ, zero, suc, Bool, true, false, Option, none, some, Result, ok, err}

-- Where the source panics.
pub data Fault : Type 0 where
  bad_url bad_retries no_agent_state no_health no_stream send_failure : Fault
  no_status bad_gzip bad_slice bad_decode no_host_info no_feature : Fault
  unreadable_file foreign_path : Fault
  bad_time no_ulid : Fault
  no_instruction no_process no_stdin broken_pipe todo : Fault

pub data Outcome {ℓ} (A : Type ℓ) : Type ℓ where
  returns : A → Outcome A
  panics : Fault → Outcome A

abbrev pub Exec {ℓ} : Type ℓ → Type ℓ → Type ℓ → Type ℓ
Exec W S A = S → W → Outcome A × S × W

module _ {ℓ} {W S A : Type ℓ} where
  abbrev pub pure : A → Exec W S A
  pure a s w = (returns a, s, w)

  abbrev pub panic : Fault → Exec W S A
  panic f s w = (panics f, s, w)

  abbrev pub gets : (S → A) → Exec W S A
  gets f s w = (returns (f s), s, w)

  -- A call of code outside the client.
  abbrev pub call : (W → A × W) → Exec W S A
  call f s w = let (a, w') = f w in (returns a, s, w')

  -- `Option::unwrap`
  abbrev pub unwrap : Fault → Option A → Exec W S A
  unwrap f none = panic f
  unwrap f (some a) = pure a

  -- `Result::unwrap`
  abbrev pub unwrap_ok {κ} : {X : Type κ} → Fault → Result X A → Exec W S A
  unwrap_ok f (ok a) = pure a
  unwrap_ok f (err x) = panic f

abbrev pub when {ℓ} : {W S : Type ℓ} → Bool → Exec W S (Unit {ℓ}) → Exec W S (Unit {ℓ})
when true m = m
when false m = pure tt

abbrev pub modify {ℓ} : {W S : Type ℓ} → (S → S) → Exec W S (Unit {ℓ})
modify f s w = (returns tt, f s, w)

module _ {ℓ} {W S A B : Type ℓ} where
  abbrev pub after : Outcome A → (A → Exec W S B) → Exec W S B
  after (returns a) f s w = f a s w
  after (panics x) f s w = (panics x, s, w)

  infixl 10 ◌>>=◌ ◌>>◌
  unfoldable pub ◌>>=◌ : Exec W S A → (A → Exec W S B) → Exec W S B
  ◌>>=◌ m f s w = let (r, s', w') = m s w in after r f s' w'

  abbrev pub ◌>>◌ : Exec W S A → Exec W S B → Exec W S B
  m >> n = m >>= λ _. n

-- `loop { handle.poll().await; }`, for `n` rounds or until a panic.
unfoldable pub repeat {ℓ} : {W S : Type ℓ} → ℕ → Exec W S (Unit {ℓ}) → Exec W S (Unit {ℓ})
repeat zero m = pure tt
repeat (suc n) m = m >> repeat n m

-- A method of a part `T` of the client, run on the client.
unfoldable pub within {ℓ} : {W S T A : Type ℓ} → (S → T) → (S → T → S) → Exec W T A → Exec W S A
within part put m s w = let (r, t, w') = m (part s) w in (r, put s t, w')
