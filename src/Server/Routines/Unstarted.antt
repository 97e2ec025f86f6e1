-- ===== src/Server/Routines/Unstarted.antt =====
-- The WaitGroup after a Start whose net.Listen fails (server/server.go).
use dcounter.Base.{ℕ, ◌≡◌, refl, false, none, some, arith}
use dcounter.Base.Int.{ℤ}
use dcounter.Base.Result.{Error}
use dcounter.Wire.{FloatRep}
use dcounter.Server.{Server}
use dcounter.Server.Lifecycle.{start}
use dcounter.Server.Routines.{
  not_started, Routines, idle, start_routines, listen_turn, reconnect_turn, wait_returns, Turns,
  at_once, listen_next, reconnect_next, server_next,
}

module _ ⦃rep : FloatRep⦄ where
  not_started-Turns :
      {r : Routines} {i j : ℕ} {q : Routines}
      → Turns r i j q
      → r.listening ≡ not_started
      → r.reconnecting ≡ not_started
      → (q.listening ≡ not_started) × (q.reconnecting ≡ not_started) × (q.wait ≡ r.wait)
  unfolding listen_turn reconnect_turn
  not_started-Turns at_once h k = (h, k, refl)
  not_started-Turns (listen_next {q} accepted t) h k =
      let rest = not_started-Turns t h k in
      (ground (arith, rest.0), ground (arith, rest.0, rest.1), ground (arith, rest.0, rest.2))
  not_started-Turns (reconnect_next {q} t) h k =
      let rest = not_started-Turns t h k in
      (ground (arith, rest.1, rest.0), ground (arith, rest.1), ground (arith, rest.1, rest.2))
  not_started-Turns (server_next t step) h k = not_started-Turns t h k

  -- After a Start that fails because net.Listen fails, a wait of Stop never returns, whatever the
  -- goroutines do: the WaitGroup already counts the two goroutines that are never started.
  pub failed_listen_waits :
      (now : ℤ) (s : Server) (e : Error) (i j : ℕ) (r : Routines)
      → Turns (start_routines none (some e) now (idle s)).0 i j r
      → wait_returns r ≡ false
  unfolding wait_returns start_routines start
  failed_listen_waits now s e i j r t =
      let (_, _, same) = not_started-Turns t refl refl in ground (arith, same)
