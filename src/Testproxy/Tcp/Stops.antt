-- ===== src/Testproxy/Tcp/Stops.antt =====
-- When a Stop of the TCP proxy ends its loops, and when it is lost (testproxy/tcp.go).
use dcounter.Base.{
  ℕ, ◌≡◌, ◌∙◌, ◌⊎◌, refl, ap, Bool, true, false, Option, List, [], ◌∷◌, arith, inl, inr,
}
use dcounter.Base.Result.{Error}
use dcounter.Testproxy.Tcp.{
  Phase, at_check, sleeping, at_listen, accepting, returned, panicked, Listener, nil, listening,
  closed, Tcp, Accepted, accept, turn, close_in, set_stop, run,
}

run_returned :
    (turns : List (ℕ × Option Error × Accepted)) (p : Tcp) → p.phase ≡ returned → run turns p ≡ p
unfolding run turn
run_returned [] p h = refl
run_returned ((now, listened, accepted) ∷ turns) p h =
    let still : turn now listened accepted p ≡ p = ground (arith, h) in
    ap (run turns) still ∙ run_returned turns p h

-- A Stop of the TCP proxy while its loop waits in Accept ends the loop in two turns, for good: the
-- listener is closed, and so are all connections that it had accepted.
pub tcp_stop_ends :
    (p : Tcp) (first second : ℕ × Option Error × Accepted)
    (turns : List (ℕ × Option Error × Accepted))
    → p.phase ≡ accepting
    → p.listener ≡ listening
    → run (first ∷ second ∷ turns) (set_stop p)
      ≡ record p { stop = true; listener = closed; phase = returned; conns = 0 }
unfolding run turn accept set_stop close_in
tcp_stop_ends p (now, listened, accepted) (now', listened', accepted') turns h k =
    let over : Tcp = record p { stop = true; listener = closed; phase = returned; conns = 0 } in
    let two : turn now' listened' accepted' (turn now listened accepted (set_stop p)) ≡ over =
      ground (arith, h, k) in
    ap (run turns) two ∙ run_returned turns over refl

run-stop : (turns : List (ℕ × Option Error × Accepted)) (p : Tcp) → (run turns p).stop ≡ p.stop
unfolding run turn accept
run-stop [] p = refl
run-stop ((now, listened, accepted) ∷ turns) p =
    run-stop turns (turn now listened accepted p) ∙ ground arith

-- The loop is on its way to Accept, or there on an open listener, or a panic ended the program.
abbrev runs_on : Phase → Listener → Bool
runs_on at_check listener = false
runs_on sleeping listener = true
runs_on at_listen listener = true
runs_on accepting nil = false
runs_on accepting listening = true
runs_on accepting closed = false
runs_on returned listener = false
runs_on panicked listener = true

turn-runs_on :
    (now : ℕ) (listened : Option Error) (accepted : Accepted) (p : Tcp)
    → runs_on p.phase p.listener ≡ true
    → let q = turn now listened accepted p in runs_on q.phase q.listener ≡ true
unfolding turn accept
turn-runs_on now listened accepted p h = ground (arith, h)

run-runs_on :
    (turns : List (ℕ × Option Error × Accepted)) (p : Tcp)
    → runs_on p.phase p.listener ≡ true
    → runs_on (run turns p).phase (run turns p).listener ≡ true
unfolding run
run-runs_on [] p h = h
run-runs_on ((now, listened, accepted) ∷ turns) p h =
    run-runs_on turns (turn now listened accepted p) (turn-runs_on now listened accepted p h)

runs_on-cases :
    (phase : Phase) (listener : Listener)
    → runs_on phase listener ≡ true
    → (phase ≡ sleeping)
      ⊎ ((phase ≡ at_listen)
          ⊎ (((phase ≡ accepting) × (listener ≡ listening)) ⊎ (phase ≡ panicked)))
runs_on-cases at_check listener h = ground (arith, h)
runs_on-cases sleeping listener h = inl refl
runs_on-cases at_listen listener h = inr (inl refl)
runs_on-cases accepting nil h = ground (arith, h)
runs_on-cases accepting listening h = inr (inr (inl (refl, refl)))
runs_on-cases accepting closed h = ground (arith, h)
runs_on-cases returned listener h = ground (arith, h)
runs_on-cases panicked listener h = inr (inr (inr refl))

-- A Stop of the TCP proxy that comes after the check of `stop`, during the sleep of an outage or
-- before the listener is open, is lost: with no further call, after any turns the loop sleeps, or
-- is before ListenTCP, or waits in Accept on an open listener, or a failed ListenTCP or Accept has
-- panicked. It never returns.
pub tcp_stop_lost :
    (p : Tcp) (turns : List (ℕ × Option Error × Accepted))
    → (p.phase ≡ sleeping) ⊎ (p.phase ≡ at_listen)
    → let q = run turns (set_stop p) in
      (q.stop ≡ true)
      × ((q.phase ≡ sleeping)
          ⊎ ((q.phase ≡ at_listen)
              ⊎ (((q.phase ≡ accepting) × (q.listener ≡ listening)) ⊎ (q.phase ≡ panicked))))
unfolding set_stop close_in
tcp_stop_lost p turns h =
    let start : runs_on (set_stop p).phase (set_stop p).listener ≡ true = elim h [
      | inl e ↦ ground (arith, e)
      | inr e ↦ ground (arith, e)
    ] in
    let q = run turns (set_stop p) in
    (
      run-stop turns (set_stop p) ∙ ground arith,
      runs_on-cases q.phase q.listener (run-runs_on turns (set_stop p) start),
    )
