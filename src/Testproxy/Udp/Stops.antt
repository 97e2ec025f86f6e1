-- ===== src/Testproxy/Udp/Stops.antt =====
-- After Stop, the loop of the UDP proxy ends (testproxy/udp.go).
use mathlib.Core.Path.{subst}
use dcounter.Base.{
  ℕ, ◌+◌, ◌-◌, ◌≤◌, ◌≡◌, ◌∙◌, ◌⊎◌, refl, sym, Bool, true, false, Option, none, some, List, [], ◌∷◌,
  ◌++◌, arith, inl, inr, length, length-append,
}
use dcounter.Base.Result.{Error}
use dcounter.Testproxy.Udp.{
  Phase, at_check, reading, returned, panicked, Udp, Read, packet, timed_out, failed, new_udp,
  check_stop, forward, turn, set_timeout, set_stop, Event, turned, timeout_called, stop_called, run,
}

-- The turns among events.
abbrev pub turns : List Event → ℕ
turns [] = 0
turns (turned _ _ _ ∷ events) = turns events + 1
turns (timeout_called _ _ ∷ events) = turns events
turns (stop_called ∷ events) = turns events

-- How many turns the loop has at most once `stop` is set, and how many packets.
abbrev turns_left : Phase → ℕ
turns_left at_check = 1
turns_left reading = 2
turns_left returned = 0
turns_left panicked = 0

abbrev packets_left : Phase → ℕ
packets_left at_check = 0
packets_left reading = 1
packets_left returned = 0
packets_left panicked = 0

-- The socket is open as long as the loop runs.
abbrev runs : Phase → Bool
runs at_check = true
runs reading = true
runs returned = false
runs panicked = false

turn-runs :
    (read : Read) (now : ℕ) (written : Option Error) (p : Udp)
    → p.is_open ≡ runs p.phase
    → (turn read now written p).is_open ≡ runs (turn read now written p).phase
unfolding turn check_stop forward
turn-runs read now written p h = ground (arith, h)

run-runs :
    (events : List Event) (p : Udp)
    → p.is_open ≡ runs p.phase
    → (run events p).is_open ≡ runs (run events p).phase
unfolding run set_timeout set_stop
run-runs [] p h = h
run-runs (turned read now written ∷ events) p h =
    run-runs events (turn read now written p) (turn-runs read now written p h)
run-runs (timeout_called now timeout ∷ events) p h = run-runs events (set_timeout now timeout p) h
run-runs (stop_called ∷ events) p h = run-runs events (set_stop p) h

forward-length :
    (read : Read) (now : ℕ) (written : Option Error) (p : Udp)
    → length (forward read now written p).sent + packets_left (forward read now written p).phase
      ≤ length p.sent + 1
unfolding forward
forward-length (packet payload) now written p = ground (arith, length-append p.sent (payload ∷ []))
forward-length timed_out now written p = ground arith
forward-length (failed _) now written p = ground arith

turn_stopped :
    (read : Read) (now : ℕ) (written : Option Error) (p : Udp)
    → p.stop ≡ true
    → ((turn read now written p).stop ≡ true)
      × (turns_left (turn read now written p).phase ≤ turns_left p.phase - 1)
      × (length (turn read now written p).sent + packets_left (turn read now written p).phase
          ≤ length p.sent + packets_left p.phase)
unfolding turn check_stop forward
turn_stopped read now written p h =
    (ground (arith, h), ground (arith, h), ground (arith, h, forward-length read now written p))

run_stopped :
    (events : List Event) (p : Udp)
    → p.stop ≡ true
    → (turns_left (run events p).phase ≤ turns_left p.phase - turns events)
      × (length (run events p).sent ≤ length p.sent + packets_left p.phase)
unfolding run set_timeout set_stop
run_stopped [] p h = (omega arith, omega arith)
run_stopped (turned read now written ∷ events) p h =
    let (stop, left, sent) = turn_stopped read now written p h in
    let rest = run_stopped events (turn read now written p) stop in
    (ground (arith, left, rest.0), ground (arith, sent, rest.1))
run_stopped (timeout_called now timeout ∷ events) p h =
    run_stopped events (set_timeout now timeout p) h
run_stopped (stop_called ∷ events) p h = run_stopped events (set_stop p) refl

ended :
    (phase : Phase)
    → turns_left phase ≡ 0
    → (runs phase ≡ false) × ((phase ≡ returned) ⊎ (phase ≡ panicked))
ended at_check h = ground (arith, h)
ended reading h = ground (arith, h)
ended returned h = (refl, inl refl)
ended panicked h = (refl, inr refl)

most : (phase : Phase) → (turns_left phase ≤ 2) × (packets_left phase ≤ 1)
most at_check = (omega arith, omega arith)
most reading = (omega arith, omega arith)
most returned = (omega arith, omega arith)
most panicked = (omega arith, omega arith)

run-append : (es fs : List Event) (p : Udp) → run (es ++ fs) p ≡ run fs (run es p)
unfolding run
run-append [] fs p = refl
run-append (turned read now written ∷ es) fs p = run-append es fs (turn read now written p)
run-append (timeout_called now timeout ∷ es) fs p = run-append es fs (set_timeout now timeout p)
run-append (stop_called ∷ es) fs p = run-append es fs (set_stop p)

-- The loop is over, after so many packets or one more.
abbrev HasEnded : ℕ → Udp → Type 0
HasEnded packets p =
    (p.is_open ≡ false)
    × ((p.phase ≡ returned) ⊎ (p.phase ≡ panicked))
    × (length p.sent ≤ packets + 1)

-- However a new UDP proxy was used, after a call of Stop two turns are enough for its loop to end,
-- by its return or by a panic of a read or write that failed. Its socket is then closed, and at
-- most one more packet was sent on.
pub udp_stops :
    (p : Udp) (before after : List Event)
    → new_udp none none none ≡ some p
    → 2 ≤ turns after
    → ((run (before ++ stop_called ∷ after) p).is_open ≡ false)
      × (((run (before ++ stop_called ∷ after) p).phase ≡ returned)
          ⊎ ((run (before ++ stop_called ∷ after) p).phase ≡ panicked))
      × (length (run (before ++ stop_called ∷ after) p).sent ≤ length (run before p).sent + 1)
unfolding new_udp set_stop run
udp_stops p before after made enough =
    let start : p.is_open ≡ runs p.phase = ground (arith, made) in
    let q = run before p in
    let stopped = run_stopped after (set_stop q) refl in
    let split = run-append before (stop_called ∷ after) p in
    let bounds = most q.phase in
    let over = ended (run after (set_stop q)).phase (ground (arith, stopped.0, bounds.0, enough)) in
    let closed = run-runs after (set_stop q) (run-runs before p start) in
    subst (HasEnded (length q.sent)) (sym split)
      (closed ∙ over.0, over.1, ground (arith, stopped.1, bounds.1))
