-- ===== src/Launcher.antt =====
-- src/extras/launcher.rs: a task that runs a command and passes instructions on to its standard
-- input, from a thread of its own.
pub mod Session
pub mod Termination
pub mod Interleaving
use mosfet_rs.Prelude.{
  ℕ, zero, suc, String, Bool, true, false, Option, none, some, unwrap_or, List, ◌∷◌, Result, ok,
  err,
}
use mosfet_rs.Exec.{
  Exec, pure, panic, call, unwrap, unwrap_ok, ◌>>=◌, ◌>>◌, no_instruction, no_process, no_stdin,
  broken_pipe, todo,
}

pub data Instruction : Type 0 where
  input : String → Instruction
  exit : Instruction

-- `subprocess::ExitStatus`, as the code matches on it.
pub data ExitStatus : Type 0 where
  exited signaled : ℕ → ExitStatus
  other undetermined : ExitStatus

-- The crates `subprocess` and `crossbeam_channel`, and the sleep, over an outside world. `receive`
-- gives none once the channel is empty and has no sender.
pub record Processes : Type 1 where
  pub World : Type 0
  pub Error : Type 0
  pub Handle : Type 0
  pub Stdin : Type 0
  pub create : List String → World → Result Error Handle × World
  pub Sender : Type 0
  pub Receiver : Type 0
  pub bounded : ℕ → World → (Sender × Receiver) × World
  pub take_stdin : Handle → World → Option Stdin × World
  pub receive : Receiver → World → Option Instruction × World
  pub write_all : Stdin → String → World → Result Error (Unit {0}) × World
  pub flush : Stdin → World → Result Error (Unit {0}) × World
  pub sleep : ℕ → World → Unit {0} × World
  pub wait_timeout : Handle → ℕ → World → Result Error (Option ExitStatus) × World
  pub kill : Handle → World → Result Error (Unit {0}) × World
  pub wait : Handle → World → Result Error ExitStatus × World

-- The macro `get_stem`, with `std::path` as a parameter.
pub record Paths : Type 1 where
  pub OsStr : Type 0
  pub file_stem : String → Option OsStr
  pub to_str : OsStr → Option String

abbrev pub and_then {ℓ} : {A B : Type ℓ} → Option A → (A → Option B) → Option B
and_then none f = none
and_then (some a) f = f a

unfoldable pub get_stem : Paths → Option String → String
get_stem F fname = unwrap_or (and_then fname (λ name. and_then (F.file_stem name) F.to_str)) ""

-- The instructions that a channel holds before `send` blocks.
abbrev pub capacity : ℕ
capacity = 10

abbrev pub wait_time : ℕ
wait_time = 5

module _ (P : Processes) where
  open P use {World, Handle, Stdin, Receiver}

  pub record Task : Type 0 where
    pub command : String
    pub args : List String
    pub control : P.Sender
    pub input : Receiver

  abbrev pub Thread : Type 0 → Type 0
  Thread A = Exec World (Unit {0}) A

  unfoldable pub write_out : Stdin → String → Thread (Unit {0})
  write_out stdin text = do
    written ← call (P.write_all stdin text)
    unwrap_ok broken_pipe written
    flushed ← call (P.flush stdin)
    unwrap_ok broken_pipe flushed

  -- The match on the status of a killed process: the loop goes on.
  unfoldable pub report_status : ExitStatus → Thread Bool
  report_status (exited status) = pure false
  report_status (signaled status) = pure false
  report_status other = panic todo
  report_status undetermined = panic todo

  unfoldable pub end_process : Handle → Option ExitStatus → Thread Bool
  end_process handle (some status) = pure true
  end_process handle none = do
    killed ← call (P.kill handle)
    unwrap_ok no_process killed
    waited ← call (P.wait handle)
    status ← unwrap_ok no_process waited
    report_status status

  -- `match instruction`; true is the `return` of the thread.
  unfoldable pub follow : Handle → Stdin → Instruction → Thread Bool
  follow handle stdin (input text) = do write_out stdin text; pure false
  follow handle stdin exit = do
    write_out stdin "exit\n"
    call (P.sleep wait_time)
    waited ← call (P.wait_timeout handle 1)
    status ← unwrap_ok no_process waited
    end_process handle status

  unfoldable pub round : Handle → Stdin → Receiver → Thread Bool
  round handle stdin receiver = do
    received ← call (P.receive receiver)
    instruction ← unwrap no_instruction received
    follow handle stdin instruction

  -- `loop`, for at most `n` rounds; true once the thread has returned.
  unfoldable pub rounds : ℕ → Handle → Stdin → Receiver → Thread Bool
  rounds zero handle stdin receiver = pure false
  rounds (suc n) handle stdin receiver = do
    done ← round handle stdin receiver
    elim done [ true ↦ pure true | false ↦ rounds n handle stdin receiver ]

  -- `Task::new`
  unfoldable pub new : String → List String → Thread Task
  new command args = do
    channel ← call (P.bounded capacity)
    pure (record { command = command; args = args; control = channel.0; input = channel.1 })

  -- The result, and what moves into the thread: the handle and a clone of the receiver.
  unfoldable pub launch : Task → Thread (Bool × Handle × Receiver)
  launch task = do
    created ← call (P.create (task.command ∷ task.args))
    handle ← unwrap_ok no_process created
    pure (true, handle, task.input)

  -- The first `n` rounds of the thread.
  unfoldable pub manage : ℕ → Handle → Receiver → Thread Bool
  manage n handle receiver = do
    taken ← call (P.take_stdin handle)
    stdin ← unwrap no_stdin taken
    rounds n handle stdin receiver
