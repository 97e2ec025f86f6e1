-- ===== src/Tests/Proxies.antt =====
-- The test proxies at concrete inputs.
use dcounter.Base.{
  ℕ, ◌≡◌, ◌⊎◌, ◌≤◌, ◌+◌, refl, true, false, none, Option, List, [], ◌∷◌, ◌++◌, codes, length, arith,
  inl,
}
use dcounter.Base.Result.{Error}
use dcounter.Testproxy.Udp
use dcounter.Testproxy.Udp.{Udp, new_udp, timed_out, packet, turned, timeout_called, stop_called}
use dcounter.Testproxy.Udp.Forwards.{Arrival, packet_at, idle_at, outage, passed}
use dcounter.Testproxy.Udp.Stops.{udp_stops}
use dcounter.Testproxy.Tcp
use dcounter.Testproxy.Tcp.{
  Tcp, Accepted, connection, listening, closed, accepting, sleeping, set_stop,
}
use dcounter.Testproxy.Tcp.Stops.{tcp_stop_lost}

abbrev fresh : Udp
fresh = record { stop = false; timeout = 0; phase = Udp.at_check; is_open = true; sent = [] }

-- A packet, an outage of 10 at 5 with a packet in it, and one after it.
abbrev arrivals : List Arrival
arrivals =
    packet_at (codes "one") 1
    ∷ outage 5 10
    ∷ packet_at (codes "two") 8
    ∷ idle_at 9
    ∷ packet_at (codes "three") 15
    ∷ []

two_packets : passed 0 arrivals ≡ codes "one" ∷ codes "three" ∷ []
two_packets = refl

abbrev before : List Udp.Event
before = turned timed_out 1 none ∷ []

abbrev after : List Udp.Event
after = turned (packet (codes "one")) 2 none ∷ turned timed_out 3 none ∷ []

udp_stops_example :
    ((Udp.run (before ++ stop_called ∷ after) fresh).is_open ≡ false)
    × (((Udp.run (before ++ stop_called ∷ after) fresh).phase ≡ Udp.returned)
        ⊎ ((Udp.run (before ++ stop_called ∷ after) fresh).phase ≡ Udp.panicked))
    × (length (Udp.run (before ++ stop_called ∷ after) fresh).sent
        ≤ length (Udp.run before fresh).sent + 1)
udp_stops_example = udp_stops fresh before after (unfold new_udp in refl) (omega arith)

abbrev busy : Tcp
busy = record { stop = false; timeout = 0; listener = listening; phase = accepting; conns = 2 }

abbrev step : ℕ × Option Error × Accepted
step = (7, none, connection)

busy_stops :
    Tcp.run (step ∷ step ∷ []) (set_stop busy)
    ≡ record busy { stop = true; listener = closed; phase = Tcp.returned; conns = 0 }
unfolding Tcp.run set_stop
busy_stops = refl

-- In an outage, up to 20.
abbrev silent : Tcp
silent = record { stop = false; timeout = 20; listener = closed; phase = sleeping; conns = 0 }

tcp_stop_lost_example :
    let q = Tcp.run (step ∷ step ∷ step ∷ []) (set_stop silent) in
    (q.stop ≡ true)
    × ((q.phase ≡ sleeping)
        ⊎ ((q.phase ≡ Tcp.at_listen)
            ⊎ (((q.phase ≡ accepting) × (q.listener ≡ listening)) ⊎ (q.phase ≡ Tcp.panicked))))
tcp_stop_lost_example = tcp_stop_lost silent (step ∷ step ∷ step ∷ []) (inl refl)
