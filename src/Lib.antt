-- ===== src/Lib.antt =====
-- dcounter: eventually consistent, distributed counters.
--
-- The program. A server (server/) keeps, for each member of its cluster, the counters that this
-- member owns: an up, a down and a revision. A client (api/, pooled by pool/) speaks to a server in
-- lines (proto/). inc changes the server's own counter and queues a change for the others; set sends
-- a reset to every other owner and sets the own counter; get adds up the counters of all members.
-- The servers exchange changes by gossip and full states by push and pull, both through memberlist.
--
-- The files.
--   Base           shared names: Boolean tests, lists and byte strings over the native numbers,
--                  Go maps as association lists (Base/Dict), Go results (Base/Result), integers.
--   Float          float64 as the program uses it, and the laws of its order and sums (Float/Laws).
--   Counter        server/counter.go, and the updates of one counter in inc, set, readReset,
--                  readChange and MergeRemoteState.
--   Wire           the messages of broadcastChange and set, and their reading.
--   Errors         server/errors.go.
--   Server         the state of server/server.go and what the handlers share; below it
--     Local          get, inc, set, list of server/api.go (sum_of, set_own, ... are their loops),
--     Messages       readChange, readReset, NotifyMsg,
--     Gossip         NotifyJoin, NotifyLeave, NotifyUpdate, NodeMeta, LocalState, MergeRemoteState,
--                    updateConsistent, with server/meta.go, server/buffer.go, min of server/util.go,
--     Lifecycle      the state of New, Start, Join, Stop, Kill, Load, Save (Saving: proofs),
--     Setting        set turn by turn, with other handlers in between (Setting/Interleaved: proofs),
--     Routines       the goroutines listen and reconnect, and the WaitGroup of Start and Stop
--                    (the files below it: proofs),
--     Address        New with its Config, and splitHostPort of server/util.go (Address/Split,
--                    Address/Ports: proofs),
--     Handle         handle of server/api.go: handle_command is its switch (Handle/Replies and
--                    Handle/Session: proofs),
--     Maps, Totals, Order, Reads, Sets, Lists, Delivery, Queue, Convergence, Cluster, Presence,
--     MergeState, Exchange, Persist, Invariant   proofs, named for what they are about,
--     Run            a server from its start on as a step relation, and its invariant.
--   Proto          proto/proto.go.
--   Api            api/api.go: the two rounds of a call; Methods has the methods, Interface the
--                  interface API with the client and the bare server as its instances. Losses,
--                  EndToEnd, Lists, Calls, Direct, Refinement: proofs on a client at a server.
--   Pool           pool/pool.go.
--   Network        any number of the servers, with what is in flight between them, as a step
--                  relation; the files below it are its proofs.
--   Cli            the commands of cli.go (Cli/Printing, Cli/Delivered: proofs); Cli/Launch is the
--                  server command of server.go up to a server that runs, Cli/Launch/Served the
--                  saving at intervals and the end (Launch/Started, Served/Saved: proofs);
--                  Cli/Genkey is genkey.go.
--   Testproxy      testproxy/udp.go and testproxy/tcp.go; the files below Udp and Tcp are proofs.
--   Tests          the theorems at concrete inputs, and runs of the definitions.
--
-- How it is modelled. A handler is a function from the state to the new state, since each runs
-- under the server's lock; set, which lets the lock go between its sends, is modelled at once and
-- turn by turn, and Run allows any sequence of handlers. A panic is none. What other code answers
-- is an argument: memberlist's DefaultWANConfig, Create, Members, Join, Leave, Shutdown and
-- SendToTCP, LookupIP, columnize, the clock, sockets, crypto/rand, base64, encoding/gob and
-- encoding/json, fmt.Errorf and `%f`. A Go map is a list of its entries, and a range over it meets
-- them in the list's order. float64 values are NaN, the infinities, and finite values as whole
-- multiples of a unit that is left open, with exact sums: rounding, overflow and the sign of zero
-- are not modelled. Their eight bytes and their decimal form are a parameter (FloatRep in Wire),
-- with the round trips that encoding/binary and strconv document. Revisions are uint32 and wrap. A
-- goroutine is a function that goes from one place where it waits to the next, and a run is any
-- sequence of such turns and of handlers. Network lets a queued message or a sent state come at
-- any time, again or never; its clients increment and read, and do not set, join or load. The
-- queue of changes is the list of the QueueBroadcast calls; what memberlist does with it is not
-- modelled. The fuel of handle counts commands, and more than the stream's bytes is enough; that
-- of decimal_from counts digits, and the number itself is enough.
-- Not modelled: the log output of the server, how long sleeps and sockets take, the metrics and the
-- wait for a signal in server.go, main.go (it hands the arguments to a vendored package), and the
-- vendored code in Godeps.
pub mod Base
pub mod Float
pub mod Counter
pub mod Wire
pub mod Errors
pub mod Server
pub mod Proto
pub mod Api
pub mod Pool
pub mod Network
pub mod Cli
pub mod Testproxy
pub mod Tests
