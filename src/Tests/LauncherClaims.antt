-- ===== src/Tests/LauncherClaims.antt =====
-- The theorems on the launcher, at concrete processes.
use mosfet_rs.Prelude.{
  ◌≤◌, length, arith, ◌≡◌, refl, ap, String, Bool, true, false, if◌then◌else◌, Option, none, some,
  List, [], ◌∷◌, ok, push, Result,
}
use mosfet_rs.Exec.{returns, ◌>>=◌}
use mosfet_rs.Launcher.{
  capacity, round, follow, write_out, Instruction, input, exit, ExitStatus, exited, signaled,
  Processes, rounds,
}
use mosfet_rs.Launcher.Interleaving.{Wired, Session, begin, sends, takes, InOrder, Session-InOrder}
use mosfet_rs.Launcher.Termination.{Closed, HasEnded, thread_ends}
use mosfet_rs.Launcher.Session.{Pipe, LastExit, session_writes}

record Shell : Type 0 where
  waiting : List Instruction
  typed : List String
  killed : Bool

abbrev first : List Instruction → Option Instruction
first [] = none
first (i ∷ is) = some i

abbrev rest : List Instruction → List Instruction
rest [] = []
rest (i ∷ is) = is

-- A process that ends within the second with the given status, or does not before it is killed.
abbrev shell : Option ExitStatus → Processes
shell status = record {
  World = Shell;
  Error = Unit;
  Handle = Unit;
  Stdin = Unit;
  Sender = Unit;
  Receiver = Unit;
  bounded = λ n w. ((tt, tt), w);
  create = λ args w. (ok tt, w);
  take_stdin = λ h w. (some tt, w);
  receive = λ r w. (first w.waiting, record w { waiting = rest w.waiting });
  write_all = λ s t w. (ok tt, record w { typed = push w.typed t });
  flush = λ s w. (ok tt, w);
  sleep = λ n w. (tt, w);
  wait_timeout = λ h n w. (ok (if w.killed then some (signaled 9) else status), w);
  kill = λ h w. (ok tt, record w { killed = true });
  wait = λ h w. (ok (signaled 9), w);
}

abbrev polite : Processes
polite = shell (some (exited 0))

abbrev pipe : Pipe polite tt tt tt
pipe = record {
  queue = λ w. w.waiting;
  written = λ w. w.typed;
  next = next;
  written-receive = λ w. refl;
  writes = λ t w. refl;
  written-write = λ t w. refl;
  queue-write = λ t w. refl;
  flushes = λ w. refl;
  written-flush = λ w. refl;
  queue-flush = λ w. refl;
  written-sleep = λ n w. refl;
  queue-sleep = λ n w. refl;
  written-wait = λ n w. refl;
  queue-wait = λ n w. refl;
}
  where
    next :
        (i : Instruction) (is : List Instruction) (w : Shell)
        → w.waiting ≡ i ∷ is
        → (first w.waiting ≡ some i) × (rest w.waiting ≡ is)
    next i is w e = rw e (refl, refl)

abbrev busy : Shell
busy = record {
  waiting = input "one" ∷ input "two" ∷ exit ∷ input "late" ∷ [];
  typed = [];
  killed = false;
}

abbrev answer : Bool → Result (Unit {0}) (Option ExitStatus)
answer b = ok (if b then some (signaled 9) else some (exited 0))

polite_ends : (b : Bool) → (s : ExitStatus) × (answer b ≡ ok (some s))
polite_ends true = (signaled 9, refl)
polite_ends false = (exited 0, refl)

session_writes_example :
    let (o, u, w') = rounds polite 3 tt tt tt tt busy in
    (o ≡ returns true)
    × (w'.waiting ≡ input "late" ∷ [])
    × (w'.typed ≡ "one" ∷ "two" ∷ "exit\n" ∷ [])
session_writes_example =
    session_writes polite tt tt tt pipe (λ n w. polite_ends w.killed) ("one" ∷ "two" ∷ [])
      (input "late" ∷ []) busy refl

abbrev stubborn : Processes
stubborn = shell none

-- Behind the exit, an input is left.
abbrev leaving : Shell
leaving = record { waiting = exit ∷ input "late" ∷ []; typed = []; killed = false }

abbrev IsInput : Instruction → Type 0
IsInput (input t) = Unit
IsInput exit = ⊥

abbrev AreInputs : List Instruction → Type 0
AreInputs [] = Unit
AreInputs (i ∷ is) = IsInput i × AreInputs is

input_next :
    (i : Instruction) (is : List Instruction)
    → AreInputs is
    → first is ≡ some i
    → (t : String) × (i ≡ input t)
input_next i [] h e = absurd (cc e)
input_next i (input t ∷ is) h e = (t, cc e)
input_next i (exit ∷ is) h e = absurd h.0

inputs_left : (is : List Instruction) → AreInputs is → AreInputs (rest is)
inputs_left [] h = tt
inputs_left (i ∷ is) h = h.1

abbrev last_exit : LastExit stubborn tt tt tt
last_exit = record {
  inputs_only = λ w. AreInputs w.waiting;
  next = λ i w. input_next i w.waiting;
  receive = λ w. inputs_left w.waiting;
  write = λ t w h. h;
  flush = λ w h. h;
  sleep = λ n w h. h;
  wait_timeout = λ n w h. h;
  kill = λ w h. h;
  wait = λ w h. h;
}

abbrev channel : Closed stubborn tt
channel = record {
  queue = λ w. w.waiting;
  next = next;
  last = λ w e. ap first e;
  queue-write = λ s t w. refl;
  queue-flush = λ s w. refl;
  queue-sleep = λ n w. refl;
  queue-wait_timeout = λ h n w. refl;
  queue-kill = λ h w. refl;
  queue-wait = λ h w. refl;
}
  where
    next :
        (i : Instruction) (is : List Instruction) (w : Shell)
        → w.waiting ≡ i ∷ is
        → (first w.waiting ≡ some i) × (rest w.waiting ≡ is)
    next i is w e = rw e (refl, refl)

thread_ends_example :
    HasEnded (rounds stubborn 5 tt tt tt tt busy).0
    × (rounds stubborn 9 tt tt tt tt busy ≡ rounds stubborn 5 tt tt tt tt busy)
thread_ends_example = thread_ends stubborn tt tt tt channel 4 busy

abbrev wired : Wired stubborn tt tt tt
wired = record {
  pipe = record {
    queue = λ w. w.waiting;
    written = λ w. w.typed;
    next = next;
    written-receive = λ w. refl;
    writes = λ t w. refl;
    written-write = λ t w. refl;
    queue-write = λ t w. refl;
    flushes = λ w. refl;
    written-flush = λ w. refl;
    queue-flush = λ w. refl;
    written-sleep = λ n w. refl;
    queue-sleep = λ n w. refl;
    written-wait = λ n w. refl;
    queue-wait = λ n w. refl;
  };
  queue-kill = λ w. refl;
  written-kill = λ w. refl;
  queue-wait = λ w. refl;
  written-wait = λ w. refl;
}
  where
    next :
        (i : Instruction) (is : List Instruction) (w : Shell)
        → w.waiting ≡ i ∷ is
        → (first w.waiting ≡ some i) × (rest w.waiting ≡ is)
    next i is w e = rw e (refl, refl)

-- The supervisor sends an input, the thread takes one instruction, and the supervisor sends an exit.
abbrev halfway : Shell
halfway =
    (round stubborn tt tt tt tt (record busy { waiting = push busy.waiting (input "three") })).2

abbrev at_last : Shell
at_last = record halfway { waiting = push halfway.waiting exit }

mingled : Session stubborn tt tt tt wired (input "three" ∷ exit ∷ []) busy at_last
unfolding round follow write_out ◌>>=◌
mingled =
    sends exit at_last
      (takes (input "one") (input "two" ∷ exit ∷ input "late" ∷ input "three" ∷ [])
        (sends (input "three") (record busy { waiting = push busy.waiting (input "three") }) begin
          (omega arith) refl refl)
        refl)
      (omega arith) refl refl

Session-InOrder_example :
    InOrder stubborn tt tt tt wired (input "three" ∷ exit ∷ []) busy at_last
    × (length at_last.waiting ≤ capacity)
Session-InOrder_example = Session-InOrder stubborn tt tt tt wired mingled (omega arith)
