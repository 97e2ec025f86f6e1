-- ===== src/Testproxy/Udp.antt =====
-- The UDP proxy of testproxy/udp.go: its loop in turns between the check of `stop` and the read.
pub mod Forwards
pub mod Stops
use dcounter.Base.{
  ℕ, ◌+◌, Bool, true, false, Option, none, some, List, [], ◌∷◌, ◌++◌, Text, ltb, if◌then◌else◌,
}
use dcounter.Base.Result.{Error}

-- Where the loop is: before the check of `stop`, in ReadFromUDP, or past its end; a panic ends the
-- program.
pub data Phase : Type 0 where
  at_check : Phase
  reading : Phase
  returned : Phase
  panicked : Phase

-- The proxy, the loop's phase, the socket, and the packets that were sent on, in order.
pub record Udp : Type 0 where
  pub stop : Bool
  pub timeout : ℕ
  pub phase : Phase
  pub is_open : Bool
  pub sent : List Text

-- What ReadFromUDP gives: a packet, the deadline's net.Error, or another error.
pub data Read : Type 0 where
  packet : Text → Read
  timed_out : Read
  failed : Error → Read

-- `NewUDP`, with the errors of the two ResolveUDPAddr and of ListenUDP: each panics.
unfoldable pub new_udp : Option Error → Option Error → Option Error → Option Udp
new_udp none none none =
    some (record { stop = false; timeout = 0; phase = at_check; is_open = true; sent = [] })
new_udp _ _ _ = none

-- `if p.stop { return }`, with the deferred Close.
unfoldable pub check_stop : Udp → Udp
check_stop p =
    if p.stop then record p { phase = returned; is_open = false } else record p { phase = reading }

-- The rest of an iteration: what was read, the time after it, and the error of WriteToUDP. A panic
-- runs the deferred Close.
unfoldable pub forward : Read → ℕ → Option Error → Udp → Udp
forward (packet payload) now written p =
    if ltb now p.timeout then record p { phase = at_check } else elim written [
      | none ↦ record p { phase = at_check; sent = p.sent ++ payload ∷ [] }
      | some _ ↦ record p { phase = panicked; is_open = false }
    ]
forward timed_out now written p = record p { phase = at_check }
forward (failed _) now written p = record p { phase = panicked; is_open = false }

-- A turn of the loop.
unfoldable pub turn : Read → ℕ → Option Error → Udp → Udp
unfolding check_stop forward
turn read now written p = elim p.phase [
  | at_check ↦ check_stop p
  | reading ↦ forward read now written p
  | returned ↦ p
  | panicked ↦ p
]

-- `Timeout`
unfoldable pub set_timeout : ℕ → ℕ → Udp → Udp
set_timeout now timeout p = record p { timeout = now + timeout }

-- `Stop`
unfoldable pub set_stop : Udp → Udp
set_stop p = record p { stop = true }

-- What happens to a proxy.
pub data Event : Type 0 where
  turned : Read → ℕ → Option Error → Event
  timeout_called : ℕ → ℕ → Event
  stop_called : Event

unfoldable pub run : List Event → Udp → Udp
unfolding turn set_timeout set_stop
run [] p = p
run (turned read now written ∷ events) p = run events (turn read now written p)
run (timeout_called now timeout ∷ events) p = run events (set_timeout now timeout p)
run (stop_called ∷ events) p = run events (set_stop p)
