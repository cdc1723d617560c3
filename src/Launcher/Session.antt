-- ===== src/Launcher/Session.antt =====
-- Sessions of the thread of src/extras/launcher.rs: what a process reads from its standard input,
-- and what becomes of the thread when the process does not end by itself.
use mathlib.Core.List.{append_assoc}
use mosfet_rs.Prelude.{
  ℕ, suc, ◌≡◌, refl, ◌∙◌, String, Bool, true, false, some, List, [], ◌∷◌, ◌++◌, ok, push, length,
  arith,
}
use mosfet_rs.Exec.{Outcome, returns, panics, ◌>>=◌}
use mosfet_rs.Launcher.{
  Instruction, input, exit, ExitStatus, Processes, write_out, end_process, follow, round, rounds,
  wait_time,
}

-- A pipe that works, and a view of the world: the instructions to come and the texts written.
pub record Pipe (P : Processes) (handle : P.Handle) (stdin : P.Stdin) (receiver : P.Receiver)
    : Type 0 where
  pub queue : P.World → List Instruction
  pub written : P.World → List String
  pub next :
      (i : Instruction) (is : List Instruction) (w : P.World)
      → queue w ≡ i ∷ is
      → ((P.receive receiver w).0 ≡ some i) × (queue (P.receive receiver w).1 ≡ is)
  pub written-receive : (w : P.World) → written (P.receive receiver w).1 ≡ written w
  pub writes : (t : String) (w : P.World) → (P.write_all stdin t w).0 ≡ ok tt
  pub written-write :
      (t : String) (w : P.World) → written (P.write_all stdin t w).1 ≡ push (written w) t
  pub queue-write : (t : String) (w : P.World) → queue (P.write_all stdin t w).1 ≡ queue w
  pub flushes : (w : P.World) → (P.flush stdin w).0 ≡ ok tt
  pub written-flush : (w : P.World) → written (P.flush stdin w).1 ≡ written w
  pub queue-flush : (w : P.World) → queue (P.flush stdin w).1 ≡ queue w
  pub written-sleep : (n : ℕ) (w : P.World) → written (P.sleep n w).1 ≡ written w
  pub queue-sleep : (n : ℕ) (w : P.World) → queue (P.sleep n w).1 ≡ queue w
  pub written-wait : (n : ℕ) (w : P.World) → written (P.wait_timeout handle n w).1 ≡ written w
  pub queue-wait : (n : ℕ) (w : P.World) → queue (P.wait_timeout handle n w).1 ≡ queue w

-- The inputs, and an exit.
abbrev pub script : List String → List Instruction → List Instruction
script [] is = exit ∷ is
script (t ∷ ts) is = input t ∷ script ts is

-- A channel off which, once this holds, no exit comes any more; nothing that the thread does changes
-- that.
pub record LastExit (P : Processes) (handle : P.Handle) (stdin : P.Stdin) (receiver : P.Receiver)
    : Type 1 where
  pub inputs_only : P.World → Type 0
  pub next :
      (i : Instruction) (w : P.World)
      → inputs_only w
      → (P.receive receiver w).0 ≡ some i
      → (t : String) × (i ≡ input t)
  pub receive : (w : P.World) → inputs_only w → inputs_only (P.receive receiver w).1
  pub write : (t : String) (w : P.World) → inputs_only w → inputs_only (P.write_all stdin t w).1
  pub flush : (w : P.World) → inputs_only w → inputs_only (P.flush stdin w).1
  pub sleep : (n : ℕ) (w : P.World) → inputs_only w → inputs_only (P.sleep n w).1
  pub wait_timeout :
      (n : ℕ) (w : P.World) → inputs_only w → inputs_only (P.wait_timeout handle n w).1
  pub kill : (w : P.World) → inputs_only w → inputs_only (P.kill handle w).1
  pub wait : (w : P.World) → inputs_only w → inputs_only (P.wait handle w).1

-- The thread has not returned.
abbrev pub NotDone : Outcome Bool → Type 0
NotDone (returns true) = ⊥
NotDone (returns false) = Unit
NotDone (panics f) = Unit

module _ (P : Processes) (handle : P.Handle) (stdin : P.Stdin) (receiver : P.Receiver) where
  module _ (pipe : Pipe P handle stdin receiver) where
    open pipe use {queue, written}

    -- What one round leaves: the texts it wrote and the instructions behind the one it took.
    abbrev Took :
        Bool → String → List Instruction → P.World → Outcome Bool × Unit {0} × P.World → Type 0
    Took b t is w (o, u, w') = (o ≡ returns b) × (queue w' ≡ is) × (written w' ≡ push (written w) t)

    round_input :
        (t : String) (is : List Instruction) (w : P.World)
        → queue w ≡ input t ∷ is
        → Took false t is w (round P handle stdin receiver tt w)
    unfolding round follow write_out ◌>>=◌
    round_input t is w waiting =
        let (got, left) = pipe.next (input t) is w waiting in
        let w₁ = (P.receive receiver w).1 in
        let w₂ = (P.write_all stdin t w₁).1 in
        ground (
          arith,
          pipe.writes t w₁,
          pipe.flushes w₂,
          pipe.written-receive w,
          pipe.written-write t w₁,
          pipe.queue-write t w₁,
          pipe.written-flush w₂,
          pipe.queue-flush w₂,
        )

    module _
        (ends : (n : ℕ) (w : P.World)
          → (s : ExitStatus) × ((P.wait_timeout handle n w).0 ≡ ok (some s))) where
      round_exit :
          (is : List Instruction) (w : P.World)
          → queue w ≡ exit ∷ is
          → Took true "exit\n" is w (round P handle stdin receiver tt w)
      unfolding round follow write_out end_process ◌>>=◌
      round_exit is w waiting =
          let (got, left) = pipe.next exit is w waiting in
          let w₁ = (P.receive receiver w).1 in
          let w₂ = (P.write_all stdin "exit\n" w₁).1 in
          let w₃ = (P.flush stdin w₂).1 in
          let w₄ = (P.sleep 5 w₃).1 in
          let (s, done) = ends 1 w₄ in
          ground (
            arith,
            pipe.writes "exit\n" w₁,
            pipe.flushes w₂,
            pipe.written-receive w,
            pipe.written-write "exit\n" w₁,
            pipe.queue-write "exit\n" w₁,
            pipe.written-flush w₂,
            pipe.queue-flush w₂,
            pipe.written-sleep 5 w₃,
            pipe.queue-sleep 5 w₃,
            pipe.written-wait 1 w₄,
            pipe.queue-wait 1 w₄,
          )

      -- Over a pipe that works, to a process that ends when told to: the thread writes the inputs in
      -- order and then the line `exit`, nothing else, returns, and leaves what comes after the exit
      -- unread.
      pub session_writes :
          (ts : List String) (is : List Instruction) (w : P.World)
          → queue w ≡ script ts is
          → let (o, u, w') = rounds P (suc (length ts)) handle stdin receiver tt w in
            (o ≡ returns true)
            × (queue w' ≡ is)
            × (written w' ≡ written w ++ (ts ++ ("exit\n" ∷ [])))
      unfolding rounds ◌>>=◌
      session_writes [] is w waiting = let (o, q, t) = round_exit is w waiting in rw o (refl, q, t)
      session_writes (t ∷ ts) is w waiting =
          let (o, q, said) = round_input t (script ts is) w waiting in
          let (o', q', said') = session_writes ts is (round P handle stdin receiver tt w).2 q in
          rw o (o', q', said' ∙ rw said (append_assoc (written w) _ _))

  -- The world in which the thread asks whether the process has ended, once it has taken an exit.
  abbrev pub asked : P.World → P.World
  asked w =
      (P.sleep wait_time
        (P.flush stdin (P.write_all stdin "exit\n" (P.receive receiver w).1).1).1).1

  module _ (one : LastExit P handle stdin receiver) where
    open one use {inputs_only}

    -- The thread goes on with inputs to come only, or has panicked.
    abbrev GoesOn : Outcome Bool × Unit {0} × P.World → Type 0
    GoesOn (returns true, u, w) = ⊥
    GoesOn (returns false, u, w) = inputs_only w
    GoesOn (panics f, u, w) = Unit
