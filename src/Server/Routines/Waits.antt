-- ===== src/Server/Routines/Waits.antt =====
-- Stop's wait for `listen` and `reconnect` ends, and not before both have (server/server.go,
-- server/api.go).
use dcounter.Base.{
  ℕ, ◌+◌, ◌-◌, ◌≤◌, ◌≡◌, ◌↔◌, ◌∙◌, refl, sym, ap, Bool, true, false, Option, none, some, arith,
  Bool-cases, inl, inr,
}
use dcounter.Base.Int.{ℤ}
use dcounter.Base.Result.{Error}
use dcounter.Wire.{FloatRep}
use dcounter.Server.{Server}
use dcounter.Server.Lifecycle.{start, stop}
use dcounter.Server.Routines.{
  Phase, not_started, at_select, waiting, ended, Accepted, Routines, idle, done, start_routines,
  listen_turn, reconnect_turn, wait_returns, Turns, at_once, listen_next, reconnect_next,
  server_next,
}
use dcounter.Server.Routines.Stopped.{Step-stopped}

-- Whether a goroutine runs, and how many turns it has at most once `stop` is closed.
abbrev live : {W : Type 0} → Phase W → ℕ
live not_started = 0
live at_select = 1
live (waiting _) = 1
live ended = 0

abbrev turns_left : {W : Type 0} → Phase W → ℕ
turns_left not_started = 0
turns_left at_select = 1
turns_left (waiting _) = 2
turns_left ended = 0

abbrev is_started : {W : Type 0} → Phase W → Bool
is_started not_started = false
is_started at_select = true
is_started (waiting _) = true
is_started ended = true

-- The WaitGroup counts the goroutines that run, and both run while `stop` is open.
record IsRunning (r : Routines) : Type 0 where
  counted : r.wait ≡ live r.listening + live r.reconnecting
  sound : r.panicked ≡ false
  listens : is_started r.listening ≡ true
  reconnects : is_started r.reconnecting ≡ true
  both_run : r.server.stopped ≡ false → r.wait ≡ 2

start_routines-IsRunning :
    (now : ℤ) (s : Server) → IsRunning (start_routines none none now (idle s)).0
unfolding start_routines start
start_routines-IsRunning now s = record {
  counted = refl;
  sound = refl;
  listens = refl;
  reconnects = refl;
  both_run = λ _. refl;
}

listen_turn-server :
    (accepted : Accepted) (r : Routines) → (listen_turn accepted r).server ≡ r.server
unfolding listen_turn done
listen_turn-server accepted r = ground arith

reconnect_turn-server : (r : Routines) → (reconnect_turn r).server ≡ r.server
unfolding reconnect_turn done
reconnect_turn-server r = ground arith

listen_turn-IsRunning :
    (accepted : Accepted) (r : Routines) → IsRunning r → IsRunning (listen_turn accepted r)
unfolding listen_turn done
listen_turn-IsRunning accepted r h = record {
  counted = ground (arith, h.counted);
  sound = ground (arith, h.counted, h.sound);
  listens = ground (arith, h.listens);
  reconnects = ground (arith, h.reconnects);
  both_run = λ o.
      let still = h.both_run (sym (ap (λ s. s.stopped) (listen_turn-server accepted r)) ∙ o) in
      ground (arith, h.counted, still, o);
}

reconnect_turn-IsRunning : (r : Routines) → IsRunning r → IsRunning (reconnect_turn r)
unfolding reconnect_turn done
reconnect_turn-IsRunning r h = record {
  counted = ground (arith, h.counted);
  sound = ground (arith, h.counted, h.sound);
  listens = ground (arith, h.listens);
  reconnects = ground (arith, h.reconnects);
  both_run = λ o.
      let still = h.both_run (sym (ap (λ s. s.stopped) (reconnect_turn-server r)) ∙ o) in
      ground (arith, h.counted, still, o);
}

-- Once `stop` is closed, a turn brings a goroutine nearer to its end.
listen_turn-turns_left :
    (accepted : Accepted) (r : Routines)
    → r.server.stopped ≡ true
    → (turns_left (listen_turn accepted r).listening ≡ turns_left r.listening - 1)
      × (turns_left (listen_turn accepted r).reconnecting ≡ turns_left r.reconnecting)
unfolding listen_turn done
listen_turn-turns_left accepted r h = (ground (arith, h), ground (arith, h))

reconnect_turn-turns_left :
    (r : Routines)
    → r.server.stopped ≡ true
    → (turns_left (reconnect_turn r).reconnecting ≡ turns_left r.reconnecting - 1)
      × (turns_left (reconnect_turn r).listening ≡ turns_left r.listening)
unfolding reconnect_turn done
reconnect_turn-turns_left r h = (ground (arith, h), ground (arith, h))

started_ended : {W : Type 0} (p : Phase W) → is_started p ≡ true → turns_left p ≡ 0 → p ≡ ended
started_ended not_started h e = ground (arith, h)
started_ended at_select h e = ground (arith, e)
started_ended (waiting _) h e = ground (arith, e)
started_ended ended h e = refl

live-ended : {W : Type 0} (p : Phase W) → is_started p ≡ true → live p ≡ 0 → p ≡ ended
live-ended not_started h e = ground (arith, h)
live-ended at_select h e = ground (arith, e)
live-ended (waiting _) h e = ground (arith, e)
live-ended ended h e = refl

module _ ⦃rep : FloatRep⦄ where
  Turns-IsRunning :
      {r : Routines} {i j : ℕ} {q : Routines} → Turns r i j q → IsRunning r → IsRunning q
  Turns-IsRunning at_once h = h
  Turns-IsRunning (listen_next {q} accepted t) h =
      listen_turn-IsRunning accepted q (Turns-IsRunning t h)
  Turns-IsRunning (reconnect_next {q} t) h = reconnect_turn-IsRunning q (Turns-IsRunning t h)
  Turns-IsRunning (server_next {q} {s} t step) h =
      let k = Turns-IsRunning t h in
      record {
        counted = k.counted;
        sound = k.sound;
        listens = k.listens;
        reconnects = k.reconnects;
        both_run = λ o. elim (Bool-cases q.server.stopped) [
          | inl closed ↦ ground (arith, Step-stopped step closed, o)
          | inr still ↦ k.both_run still
        ];
      }

  Turns-turns_left :
      {r : Routines} {i j : ℕ} {q : Routines}
      → Turns r i j q
      → r.server.stopped ≡ true
      → (q.server.stopped ≡ true)
        × (turns_left q.listening ≡ turns_left r.listening - i)
        × (turns_left q.reconnecting ≡ turns_left r.reconnecting - j)
  Turns-turns_left {r} at_once h = (h, omega arith, omega arith)
  Turns-turns_left (listen_next {q} accepted t) h =
      let k = Turns-turns_left t h in
      let turn = listen_turn-turns_left accepted q k.0 in
      (
        ap (λ s. s.stopped) (listen_turn-server accepted q) ∙ k.0,
        turn.0 ∙ ground (arith, k.1),
        turn.1 ∙ k.2,
      )
  Turns-turns_left (reconnect_next {q} t) h =
      let k = Turns-turns_left t h in
      let turn = reconnect_turn-turns_left q k.0 in
      (
        ap (λ s. s.stopped) (reconnect_turn-server q) ∙ k.0,
        turn.1 ∙ k.1,
        turn.0 ∙ ground (arith, k.2),
      )
  Turns-turns_left (server_next t step) h =
      let k = Turns-turns_left t h in (Step-stopped step k.0, k.1, k.2)

  turns_left-most : {W : Type 0} (p : Phase W) → turns_left p ≤ 2
  turns_left-most not_started = omega arith
  turns_left-most at_select = omega arith
  turns_left-most (waiting _) = omega arith
  turns_left-most ended = omega arith

  stop-closes :
      (left down e : Option Error) (s s' : Server)
      → stop left down s ≡ some (s', e)
      → s'.stopped ≡ true
  unfolding stop
  stop-closes left down e s s' h = ground (arith, h)

  was_open :
      (left down e : Option Error) (s s' : Server)
      → stop left down s ≡ some (s', e)
      → s.stopped ≡ false
  unfolding stop
  was_open left down e s s' h = ground (arith, h)

  -- A Stop after a start without an error, with `listen`, `reconnect` and the steps of all other
  -- goroutines in any order: when Stop is called, its wait does not return yet. From then on the
  -- wait returns exactly when both goroutines have ended; two turns of each are enough for that,
  -- and the WaitGroup never goes below zero.
  pub stop_returns :
      (now : ℤ) (s s' : Server) (left down e : Option Error) (i j i' j' k l : ℕ) (r q r' : Routines)
      → Turns (start_routines none none now (idle s)).0 i j r
      → stop left down r.server ≡ some (s', e)
      → Turns (record r { server = s' }) i' j' q
      → Turns q (k + 2) (l + 2) r'
      → (wait_returns r ≡ false)
        × ((wait_returns q ≡ true) ↔ ((q.listening ≡ ended) × (q.reconnecting ≡ ended)))
        × (wait_returns r' ≡ true)
        × (r'.listening ≡ ended)
        × (r'.reconnecting ≡ ended)
        × (r'.panicked ≡ false)
  unfolding wait_returns
  stop_returns now s s' left down e i j i' j' k l r q r' before stops between after =
      let at_r = Turns-IsRunning before (start_routines-IsRunning now s) in
      let closed = stop-closes left down e r.server s' stops in
      let at_stop : IsRunning (record r { server = s' }) = record {
        counted = at_r.counted;
        sound = at_r.sound;
        listens = at_r.listens;
        reconnects = at_r.reconnects;
        both_run = λ o. ground (arith, closed, o);
      } in
      let at_q = Turns-IsRunning between at_stop in
      let at_r' = Turns-IsRunning after at_q in
      let rest = Turns-turns_left after (Turns-turns_left between closed).0 in
      let listened =
        started_ended r'.listening at_r'.listens
          (ground (arith, rest.1, turns_left-most q.listening)) in
      let reconnected =
        started_ended r'.reconnecting at_r'.reconnects
          (ground (arith, rest.2, turns_left-most q.reconnecting)) in
      (
        ground (arith, at_r.both_run (was_open left down e r.server s' stops)),
        (
          λ w. (
            live-ended q.listening at_q.listens (ground (arith, at_q.counted, w)),
            live-ended q.reconnecting at_q.reconnects (ground (arith, at_q.counted, w)),
          ),
          λ both. ground (arith, at_q.counted, both.0, both.1),
        ),
        ground (arith, at_r'.counted, listened, reconnected),
        listened,
        reconnected,
        at_r'.sound,
      )
