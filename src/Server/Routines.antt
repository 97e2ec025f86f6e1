-- ===== src/Server/Routines.antt =====
-- The goroutines that Start of server/server.go starts, `listen` of server/api.go and `reconnect`,
-- and the WaitGroup `stopped` that Stop waits for. A turn of a goroutine goes on to the next place
-- where it waits.
pub mod Stopped
pub mod Waits
pub mod Unstarted
pub mod Rejoins
use dcounter.Base.{
  ℕ, ◌+◌, ◌-◌, Bool, true, false, Option, none, some, List, [], ◌∷◌, Text, length, ◌==◌,
  if◌then◌else◌,
}
use dcounter.Base.Int.{ℤ}
use dcounter.Base.Result.{Error}
use dcounter.Wire.{FloatRep}
use dcounter.Server.{Server}
use dcounter.Server.Lifecycle.{start, stop, reconnect_hosts, reconnect_delay}
use dcounter.Server.Run.{Step}

-- Where a goroutine is: not started, before the select on `stop`, at a call that waits, or ended.
pub data Phase (Waits : Type 0) : Type 0 where
  not_started : Phase Waits
  at_select : Phase Waits
  waiting : Waits → Phase Waits
  ended : Phase Waits

-- What `socket.Accept` gives within its deadline of a second.
pub data Accepted : Type 0 where
  connection : Accepted
  timed_out : Accepted
  failed : Error → Accepted

-- The server, both goroutines (the one waits in Accept, the other in sleeps of so many
-- nanoseconds), the WaitGroup's counter and whether a Done below zero panicked, the `handle`
-- goroutines started so far, and the hosts of the calls of memberlist's Join, newest first.
pub record Routines : Type 0 where
  pub server : Server
  pub listening : Phase (Unit {0})
  pub reconnecting : Phase ℕ
  pub wait : ℕ
  pub panicked : Bool
  pub handlers : ℕ
  pub joins : List (List Text)

-- Before Start.
abbrev pub idle : Server → Routines
idle s = record {
  server = s;
  listening = not_started;
  reconnecting = not_started;
  wait = 0;
  panicked = false;
  handlers = 0;
  joins = [];
}

-- `s.stopped.Done()`
unfoldable pub done : Routines → Routines
done r = if r.wait == 0 then record r { panicked = true } else record r { wait = r.wait - 1 }

-- `Start` with its goroutines: the WaitGroup counts them before `net.Listen` can fail.
unfoldable pub start_routines : Option Error → Option Error → ℤ → Routines → Routines × Option Error
unfolding start
start_routines created listened now r =
    let (s, e) = start created listened now r.server in
    let r' = record r { server = s } in
    elim created [
      | some _ ↦ (r', e)
      | none ↦ elim listened [
        | some _ ↦ (record r' { wait = r.wait + 2 }, e)
        | none ↦
            (record r' { wait = r.wait + 2; listening = at_select; reconnecting = at_select }, e)
      ]
    ]

-- A turn of `listen`: the select, or the end of a call of Accept. A connection gets a goroutine,
-- and every error is passed over.
unfoldable pub listen_turn : Accepted → Routines → Routines
unfolding done
listen_turn accepted r = elim r.listening [
  | at_select ↦
      if r.server.stopped
      then done (record r { listening = ended })
      else record r { listening = waiting tt }
  | waiting _ ↦ elim accepted [
    | connection ↦ record r { listening = at_select; handlers = r.handlers + 1 }
    | timed_out ↦ record r { listening = at_select }
    | failed _ ↦ record r { listening = at_select }
  ]
  | not_started ↦ r
  | ended ↦ r
]

-- A turn of `reconnect`: the select with a round up to its sleep, or the end of the sleep. With no
-- hosts there is no Join.
unfoldable pub reconnect_turn : Routines → Routines
unfolding done reconnect_hosts reconnect_delay
reconnect_turn r = elim r.reconnecting [
  | at_select ↦
      if r.server.stopped
      then done (record r { reconnecting = ended })
      else let hosts = reconnect_hosts r.server in
        let pause = waiting (reconnect_delay (length hosts)) in
        if length hosts == 0
        then record r { reconnecting = pause }
        else record r { reconnecting = pause; joins = hosts ∷ r.joins }
  | waiting _ ↦ record r { reconnecting = at_select }
  | not_started ↦ r
  | ended ↦ r
]

-- `s.stopped.Wait()` returns.
unfoldable pub wait_returns : Routines → Bool
wait_returns r = r.wait == 0

module _ ⦃rep : FloatRep⦄ where
  -- Turns of the two goroutines, so many of each, among the steps of all other goroutines.
  pub data Turns (r : Routines) : ℕ → ℕ → Routines → Type 0 where
    at_once : Turns r 0 0 r
    listen_next :
        {i j : ℕ} {q : Routines} (accepted : Accepted)
        → Turns r i j q
        → Turns r (i + 1) j (listen_turn accepted q)
    reconnect_next : {i j : ℕ} {q : Routines} → Turns r i j q → Turns r i (j + 1) (reconnect_turn q)
    server_next :
        {i j : ℕ} {q : Routines} {s : Server}
        → Turns r i j q
        → Step q.server s
        → Turns r i j (record q { server = s })
