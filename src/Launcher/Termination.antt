-- ===== src/Launcher/Termination.antt =====
-- The end of the thread of src/extras/launcher.rs once nothing sends instructions any more.
use mosfet_rs.Prelude.{
  ℕ, zero, suc, ◌+◌, ◌≡◌, refl, ◌∙◌, String, Bool, true, false, Option, none, some, List, [], ◌∷◌,
  length, ap, arith,
}
use mosfet_rs.Exec.{pure, call, after, Outcome, returns, panics, ◌>>=◌}
use mosfet_rs.Exec.Always.{Always, Always-call, always_rules}
use mosfet_rs.Launcher.{
  Instruction, input, exit, ExitStatus, exited, signaled, other, undetermined, Processes, write_out,
  report_status, end_process, follow, round, rounds, Thread,
}

-- A channel whose senders are gone, as a view of the world: the instructions left in it, which only
-- `receive` takes.
pub record Closed (P : Processes) (receiver : P.Receiver) : Type 0 where
  pub queue : P.World → List Instruction
  pub next :
      (i : Instruction) (is : List Instruction) (w : P.World)
      → queue w ≡ i ∷ is
      → ((P.receive receiver w).0 ≡ some i) × (queue (P.receive receiver w).1 ≡ is)
  pub last : (w : P.World) → queue w ≡ [] → (P.receive receiver w).0 ≡ none
  pub queue-write : (s : P.Stdin) (t : String) (w : P.World) → queue (P.write_all s t w).1 ≡ queue w
  pub queue-flush : (s : P.Stdin) (w : P.World) → queue (P.flush s w).1 ≡ queue w
  pub queue-sleep : (n : ℕ) (w : P.World) → queue (P.sleep n w).1 ≡ queue w
  pub queue-wait_timeout :
      (h : P.Handle) (n : ℕ) (w : P.World) → queue (P.wait_timeout h n w).1 ≡ queue w
  pub queue-kill : (h : P.Handle) (w : P.World) → queue (P.kill h w).1 ≡ queue w
  pub queue-wait : (h : P.Handle) (w : P.World) → queue (P.wait h w).1 ≡ queue w

-- The thread has returned or panicked.
abbrev pub HasEnded : Outcome Bool → Type 0
HasEnded (returns true) = Unit
HasEnded (returns false) = ⊥
HasEnded (panics f) = Unit

module _ (P : Processes) (handle : P.Handle) (stdin : P.Stdin) (receiver : P.Receiver) where
  -- The rounds after the thread has ended do not take place.
  after-HasEnded :
      (o : Outcome Bool) (more less : Thread P Bool) (w : P.World)
      → HasEnded (after o (λ done. elim done [ true ↦ pure true | false ↦ less ]) tt w).0
      → (HasEnded (less tt w).0 → more tt w ≡ less tt w)
      → after o (λ done. elim done [ true ↦ pure true | false ↦ more ]) tt w
        ≡ after o (λ done. elim done [ true ↦ pure true | false ↦ less ]) tt w
  after-HasEnded (returns true) more less w h k = refl
  after-HasEnded (returns false) more less w h k = k h
  after-HasEnded (panics f) more less w h k = refl

  rounds-HasEnded :
      (n k : ℕ) (w : P.World)
      → HasEnded (rounds P n handle stdin receiver tt w).0
      → rounds P (n + k) handle stdin receiver tt w ≡ rounds P n handle stdin receiver tt w
  unfolding rounds ◌>>=◌
  rounds-HasEnded zero k w h = absurd h
  rounds-HasEnded (suc n) k w h =
      let (o, u, w') = round P handle stdin receiver tt w in
      ap (λ m. rounds P m handle stdin receiver tt w) (suc_add n k)
      ∙ after-HasEnded o (rounds P (n + k) handle stdin receiver) (rounds P n handle stdin receiver)
          w' h (rounds-HasEnded n k w')
    where
      suc_add : (n k : ℕ) → suc n + k ≡ suc (n + k)
      suc_add n k = omega arith

  module _ (channel : Closed P receiver) where
    open channel use {queue}

    abbrev Holds : List Instruction → Unit {0} → P.World → Type 0
    Holds is u w = queue w ≡ is

    call-Holds :
        {A : Type 0} {is : List Instruction} (f : P.World → A × P.World)
        → ((w : P.World) → queue (f w).1 ≡ queue w)
        → Always (Holds is) (call f)
    call-Holds f same = Always-call f (λ u w h. same w ∙ h)

    write_out-Holds : {is : List Instruction} (t : String) → Always (Holds is) (write_out P stdin t)
    unfolding write_out
    write_out-Holds t =
        search (always_rules, call-Holds, channel.queue-write stdin t, channel.queue-flush stdin)

    report_status-Holds :
        {is : List Instruction} (s : ExitStatus) → Always (Holds is) (report_status P s)
    unfolding report_status
    report_status-Holds (exited n) = search (always_rules)
    report_status-Holds (signaled n) = search (always_rules)
    report_status-Holds other = search (always_rules)
    report_status-Holds undetermined = search (always_rules)

    end_process-Holds :
        {is : List Instruction} (s : Option ExitStatus) → Always (Holds is) (end_process P handle s)
    unfolding end_process
    end_process-Holds (some s) = search (always_rules)
    end_process-Holds none = search (
      always_rules,
      call-Holds,
      channel.queue-kill handle,
      channel.queue-wait handle,
      report_status-Holds,
    )

    follow-Holds :
        {is : List Instruction} (i : Instruction) → Always (Holds is) (follow P handle stdin i)
    unfolding follow
    follow-Holds (input t) = search (always_rules, write_out-Holds)
    follow-Holds exit = search (
      always_rules,
      call-Holds,
      write_out-Holds,
      channel.queue-sleep,
      channel.queue-wait_timeout handle 1,
      end_process-Holds,
    )

    -- One round takes the first instruction, and panics when there is none.
    round-last : (w : P.World) → queue w ≡ [] → HasEnded (round P handle stdin receiver tt w).0
    unfolding round ◌>>=◌
    round-last w e = rw (channel.last w e) tt

    round-next :
        (i : Instruction) (is : List Instruction) (w : P.World)
        → queue w ≡ i ∷ is
        → queue (round P handle stdin receiver tt w).2 ≡ is
    unfolding round ◌>>=◌
    round-next i is w e =
        let (got, left) = channel.next i is w e in
        rw got ((follow-Holds i).at tt (P.receive receiver w).1 left)

    then-HasEnded :
        (o : Outcome Bool) (rest : Thread P Bool) (w : P.World)
        → HasEnded (rest tt w).0
        → HasEnded (after o (λ done. elim done [ true ↦ pure true | false ↦ rest ]) tt w).0
    then-HasEnded (returns true) rest w h = tt
    then-HasEnded (returns false) rest w h = h
    then-HasEnded (panics f) rest w h = tt

    stop-HasEnded :
        (o : Outcome Bool) (rest : Thread P Bool) (w : P.World)
        → HasEnded o
        → HasEnded (after o (λ done. elim done [ true ↦ pure true | false ↦ rest ]) tt w).0
    stop-HasEnded (returns true) rest w h = tt
    stop-HasEnded (returns false) rest w h = absurd h
    stop-HasEnded (panics f) rest w h = tt

    drains :
        (is : List Instruction) (w : P.World)
        → queue w ≡ is
        → HasEnded (rounds P (suc (length is)) handle stdin receiver tt w).0
    unfolding rounds ◌>>=◌
    drains [] w e =
        let (o, u, w') = round P handle stdin receiver tt w in
        stop-HasEnded o (rounds P 0 handle stdin receiver) w' (round-last w e)
    drains (i ∷ is) w e =
        let (o, u, w') = round P handle stdin receiver tt w in
        then-HasEnded o (rounds P (suc (length is)) handle stdin receiver) w'
          (drains is w' (round-next i is w e))

    -- Once the senders are gone, the loop of the thread ends, by its return or in a panic, within as
    -- many rounds as instructions are left and one more, whatever the process does and whichever of
    -- the calls fail; any larger bound on the rounds gives the same run.
    pub thread_ends :
        (k : ℕ) (w : P.World)
        → let n = suc (length (queue w)) in
          HasEnded (rounds P n handle stdin receiver tt w).0
          × (rounds P (n + k) handle stdin receiver tt w ≡ rounds P n handle stdin receiver tt w)
    thread_ends k w =
        let h = drains (queue w) w refl in (h, rounds-HasEnded (suc (length (queue w))) k w h)
