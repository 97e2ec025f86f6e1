-- ===== src/Tests/Routines.antt =====
-- The goroutines of a server and the file that it saves, at concrete inputs.
use mathlib.Core.List.{Memᴰ}
use dcounter.Base.{List, ◌∷◌, ◌≡◌, ◌↔◌, refl, true, false, none, some, Option, ◌+◌, Text, codes}
use dcounter.Base.Int.{pos}
use dcounter.Base.Result.{Error, Result, ok, eof}
use dcounter.Server.{Server, Counters}
use dcounter.Server.Lifecycle.{new_server, start, stop, save_file, reconnect_hosts}
use dcounter.Server.Routines.{
  Routines, idle, start_routines, ended, listen_turn, reconnect_turn, wait_returns, Turns, at_once,
  listen_next, reconnect_next, connection, timed_out,
}
use dcounter.Server.Routines.Waits.{stop_returns}
use dcounter.Server.Routines.Unstarted.{failed_listen_waits}
use dcounter.Server.Routines.Rejoins.{crashed_node_rejoins}
use dcounter.Server.Gossip.{node_addr, notify_join, notify_leave, decode_meta}
use dcounter.Server.Saving.{IsWritten, save_file_succeeds_iff}
use dcounter.Tests.Rep.{test_rep}
use dcounter.Tests.Servers.{a, node_b, server_a}

abbrev begun : Routines
begun = (start_routines none none (pos 1) (idle (new_server a))).0

-- The listener is in Accept when Stop is called.
abbrev in_accept : Routines
in_accept = listen_turn timed_out begun

abbrev stopped_server : Server
stopped_server = record in_accept.server { stopped = true; leaving = 1 }

stops : stop none none in_accept.server ≡ some (stopped_server, none)
unfolding stop start_routines start new_server listen_turn
stops = refl

abbrev closing : Routines
closing = record in_accept { server = stopped_server }

abbrev all_over : Routines
all_over = reconnect_turn (reconnect_turn (listen_turn timed_out (listen_turn connection closing)))

closing-Turns : Turns closing (0 + 2) (0 + 2) all_over
closing-Turns =
    reconnect_next (reconnect_next (listen_next timed_out (listen_next connection at_once)))

stop_returns_example :
    (wait_returns in_accept ≡ false)
    × ((wait_returns closing ≡ true)
        ↔ ((closing.listening ≡ ended) × (closing.reconnecting ≡ ended)))
    × (wait_returns all_over ≡ true)
    × (all_over.listening ≡ ended)
    × (all_over.reconnecting ≡ ended)
    × (all_over.panicked ≡ false)
stop_returns_example =
    stop_returns (pos 1) (new_server a) stopped_server none none none 1 0 0 0 0 0 in_accept closing
      all_over (listen_next timed_out at_once) stops at_once closing-Turns

abbrev unheard : Routines
unheard = (start_routines none (some eof) (pos 1) (idle (new_server a))).0

failed_listen_waits_example : wait_returns unheard ≡ false
failed_listen_waits_example = failed_listen_waits (pos 1) (new_server a) eof 0 0 unheard at_once

crashed_node_rejoins_example :
    let s = notify_leave (pos 2) node_b begun.server in
    (hosts : List Text) × ((reconnect_turn (record begun { server = s })).joins
      ≡ hosts ∷ begun.joins)
    × Memᴰ (node_addr node_b) hosts
    × (¬ Memᴰ (node_addr node_b) (reconnect_hosts (notify_join (pos 3) node_b s)))
unfolding start_routines start new_server decode_meta
crashed_node_rejoins_example = crashed_node_rejoins (pos 2) (pos 3) node_b begun tt refl refl refl

abbrev to_json : Counters → Result Text
to_json _ = ok (codes "{}")

abbrev full_disk : Text → Text × Option Error
full_disk t = (t, none)

save_file_succeeds_iff_example :
    ((save_file none to_json full_disk (some eof) server_a).1 ≡ none)
    ↔ IsWritten none to_json full_disk server_a
save_file_succeeds_iff_example = save_file_succeeds_iff none to_json full_disk (some eof) server_a
