-- ===== src/Testproxy/Udp/Forwards.antt =====
-- Which packets the UDP proxy sends on, and that it stops (testproxy/udp.go).
use dcounter.Base.{ℕ, ◌+◌, ◌≡◌, none, List, [], ◌∷◌, ◌++◌, Text, ltb, if◌then◌else◌}
use dcounter.Testproxy.Udp.{at_check, Udp, packet, timed_out, Event, turned, timeout_called}

-- What comes to a proxy: a packet or an idle deadline, with the time, or a call of Timeout.
pub data Arrival : Type 0 where
  packet_at : Text → ℕ → Arrival
  idle_at : ℕ → Arrival
  outage : ℕ → ℕ → Arrival

-- The events of arrivals at a proxy that is at its check: each read takes two turns, and no write
-- fails.
abbrev pub events : List Arrival → List Event
events [] = []
events (packet_at payload now ∷ arrivals) =
    turned timed_out now none ∷ turned (packet payload) now none ∷ events arrivals
events (idle_at now ∷ arrivals) =
    turned timed_out now none ∷ turned timed_out now none ∷ events arrivals
events (outage now timeout ∷ arrivals) = timeout_called now timeout ∷ events arrivals

-- The packets that come at the end of the last outage or later.
abbrev pub passed : ℕ → List Arrival → List Text
passed until [] = []
passed until (packet_at payload now ∷ arrivals) =
    let rest = passed until arrivals in if ltb now until then rest else payload ∷ rest
passed until (idle_at now ∷ arrivals) = passed until arrivals
passed until (outage now timeout ∷ arrivals) = passed (now + timeout) arrivals

-- A proxy that has sent these packets on, and waits for more.
abbrev Sends : Udp → List Text → Udp → Type 0
Sends p packets q = (q.sent ≡ p.sent ++ packets) × (q.phase ≡ at_check) × (q.is_open ≡ p.is_open)
