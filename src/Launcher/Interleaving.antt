-- ===== src/Launcher/Interleaving.antt =====
-- The thread of src/extras/launcher.rs and its supervisor at once: the supervisor sends instructions
-- through `Task::control` while the thread goes its rounds, in any order.
use mathlib.Core.List.{append-nil, append_assoc}
use mosfet_rs.Prelude.{
  ◌<◌, ◌≤◌, ◌≡◌, refl, sym, ap, ◌∙◌, String, Option, none, some, List, [], ◌∷◌, ◌++◌, map, push,
  length, length-append, arith,
}
use mosfet_rs.Exec.{returns, call, unwrap_ok, no_process, ◌>>=◌, ◌>>◌}
use mosfet_rs.Exec.Always.{Always, Always-call, always_rules}
use mosfet_rs.Launcher.{
  Instruction, input, exit, ExitStatus, exited, signaled, other, undetermined, Processes, capacity,
  write_out, report_status, end_process, follow, round,
}
use mosfet_rs.Launcher.Session.{Pipe}

-- A pipe that works, whose view of the world `kill` and `wait` leave as it is too.
pub record Wired (P : Processes) (handle : P.Handle) (stdin : P.Stdin) (receiver : P.Receiver)
    : Type 0 where
  pub pipe : Pipe P handle stdin receiver
  pub open pipe use {queue, written}
  pub queue-kill : (w : P.World) → queue (P.kill handle w).1 ≡ queue w
  pub written-kill : (w : P.World) → written (P.kill handle w).1 ≡ written w
  pub queue-wait : (w : P.World) → queue (P.wait handle w).1 ≡ queue w
  pub written-wait : (w : P.World) → written (P.wait handle w).1 ≡ written w

-- The text for an instruction.
abbrev pub line : Instruction → String
line (input t) = t
line exit = "exit\n"

module _ (P : Processes) (handle : P.Handle) (stdin : P.Stdin) (receiver : P.Receiver)
    (C : Wired P handle stdin receiver) where
  open C use {pipe, queue, written}

  abbrev Sees : List Instruction → List String → Unit {0} → P.World → Type 0
  Sees is ts u w = (queue w ≡ is) × (written w ≡ ts)

  call-Sees :
      {A : Type 0} {is : List Instruction} {ts : List String} (f : P.World → A × P.World)
      → ((w : P.World) → queue (f w).1 ≡ queue w)
      → ((w : P.World) → written (f w).1 ≡ written w)
      → Always (Sees is ts) (call f)
  call-Sees f q t = Always-call f (λ u w h. (q w ∙ h.0, t w ∙ h.1))

  report_status-Sees :
      {is : List Instruction} {ts : List String} (s : ExitStatus)
      → Always (Sees is ts) (report_status P s)
  unfolding report_status
  report_status-Sees (exited n) = search (always_rules)
  report_status-Sees (signaled n) = search (always_rules)
  report_status-Sees other = search (always_rules)
  report_status-Sees undetermined = search (always_rules)

  end_process-Sees :
      {is : List Instruction} {ts : List String} (s : Option ExitStatus)
      → Always (Sees is ts) (end_process P handle s)
  unfolding end_process
  end_process-Sees (some s) = search (always_rules)
  end_process-Sees none =
      search
        (
          always_rules, call-Sees, C.queue-kill, C.written-kill, C.queue-wait, C.written-wait,
          report_status-Sees,
        )
        depth 12

  -- What follows the text of an `Exit`.
  ending-Sees :
      {is : List Instruction} {ts : List String}
      → Always (Sees is ts) (do
        call (P.sleep 5)
        waited ← call (P.wait_timeout handle 1)
        status ← unwrap_ok no_process waited
        end_process P handle status)
  ending-Sees =
      search
        (
          always_rules, call-Sees, pipe.queue-sleep, pipe.written-sleep, pipe.queue-wait,
          pipe.written-wait, end_process-Sees,
        )
        depth 12

  write_out_lem :
      (t : String) (w : P.World)
      → let (o, u, w') = write_out P stdin t tt w in
        (o ≡ returns tt) × (queue w' ≡ queue w) × (written w' ≡ push (written w) t)
  unfolding write_out ◌>>=◌
  write_out_lem t w =
      let w₂ = (P.write_all stdin t w).1 in
      ground (
        arith,
        pipe.writes t w,
        pipe.flushes w₂,
        pipe.written-write t w,
        pipe.queue-write t w,
        pipe.written-flush w₂,
        pipe.queue-flush w₂,
      )

  follow_lem :
      (i : Instruction) (w : P.World)
      → let w' = (follow P handle stdin i tt w).2 in
        (queue w' ≡ queue w) × (written w' ≡ push (written w) (line i))
  unfolding follow ◌>>=◌
  follow_lem (input t) w = let (done, left, said) = write_out_lem t w in rw done (left, said)
  follow_lem exit w =
      let (done, left, said) = write_out_lem "exit\n" w in
      rw done (ending-Sees.at tt (write_out P stdin "exit\n" tt w).2 (left, said))

  round_lem :
      (i : Instruction) (is : List Instruction) (w : P.World)
      → queue w ≡ i ∷ is
      → let w' = (round P handle stdin receiver tt w).2 in
        (queue w' ≡ is) × (written w' ≡ push (written w) (line i))
  unfolding round ◌>>=◌
  round_lem i is w waiting =
      let (got, rest) = pipe.next i is w waiting in
      let w₁ = (P.receive receiver w).1 in
      let (left, said) = follow_lem i w₁ in
      rw got (left ∙ rest, said ∙ ap (λ ts. push ts (line i)) (pipe.written-receive w))

  -- From the first world to the second the supervisor has sent the instructions, each while there
  -- was room in the channel, and the thread has gone some rounds in between.
  pub data Session : List Instruction → P.World → P.World → Type 0 where
    begin : {w : P.World} → Session [] w w
    sends :
        {is : List Instruction} {w v : P.World} (i : Instruction) (v' : P.World)
        → Session is w v
        → length (queue v) < capacity
        → queue v' ≡ push (queue v) i
        → written v' ≡ written v
        → Session (push is i) w v'
    takes :
        {is : List Instruction} {w v : P.World} (i : Instruction) (rest : List Instruction)
        → Session is w v
        → queue v ≡ i ∷ rest
        → Session is w (round P handle stdin receiver tt v).2

  -- Of the instructions that waited at the start and were sent since, those that no longer wait are
  -- the first ones, and their lines have been written, in this order and nothing else.
  abbrev pub InOrder : List Instruction → P.World → P.World → Type 0
  InOrder is w v =
      (ts : List Instruction) × (queue w ++ is ≡ ts ++ queue v)
      × (written v ≡ written w ++ map line ts)

  map-push :
      (ts : List Instruction) (i : Instruction) → map line (push ts i) ≡ push (map line ts) (line i)
  map-push [] i = refl
  map-push (t ∷ ts) i = ap (λ rest. line t ∷ rest) (map-push ts i)

  -- Over a pipe that works, however the supervisor's sending and the rounds of the thread
  -- interleave: the process has been written the lines of the instructions that no longer wait, in
  -- the order in which they were sent and nothing else, and the channel never holds more than it
  -- has room for.
  pub Session-InOrder :
      {is : List Instruction} {w v : P.World}
      → Session is w v
      → length (queue w) ≤ capacity
      → InOrder is w v × (length (queue v) ≤ capacity)
  Session-InOrder {w = w} begin room = (([], append-nil _, sym (append-nil _)), room)
  Session-InOrder {w = w} (sends {is} {v = v} i v' run free queued same) room =
      let ((ts, order, said), r) = Session-InOrder run room in
      (
        (
          ts,
          sym (append_assoc (queue w) is (i ∷ []))
              ∙ ap (λ xs. xs ++ (i ∷ [])) order
              ∙ append_assoc ts (queue v) (i ∷ [])
              ∙ ap (λ xs. ts ++ xs) (sym queued),
          same ∙ said,
        ),
        rw queued (omega (arith, length-append (queue v) (i ∷ []))),
      )
  Session-InOrder {w = w} (takes {is} {v = v} i rest run waiting) room =
      let ((ts, order, said), r) = Session-InOrder run room in
      let (left, wrote) = round_lem i rest v waiting in
      (
        (
          push ts i,
          order
              ∙ ap (λ xs. ts ++ xs) waiting
              ∙ sym (append_assoc ts (i ∷ []) rest)
              ∙ ap (λ xs. push ts i ++ xs) (sym left),
          wrote
              ∙ ap (λ xs. push xs (line i)) said
              ∙ append_assoc (written w) (map line ts) (line i ∷ [])
              ∙ ap (λ xs. written w ++ xs) (sym (map-push ts i)),
        ),
        rw left (omega (arith, ap (λ (xs : List Instruction). length xs) waiting, r)),
      )
