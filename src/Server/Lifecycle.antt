-- ===== src/Server/Lifecycle.antt =====
-- New, Start, Join, Stop, Kill, Load, Save and the reconnect loop of server/server.go. What
-- memberlist, the listener and the files answer are arguments; `now` is `time.Now().UTC().Unix()`.
use dcounter.Base.{
  ℕ, ◌+◌, ◌*◌, ◌/◌, true, false, Option, none, some, List, [], ◌∷◌, ◌++◌, map, Text, ◌==◌,
  if◌then◌else◌,
}
use dcounter.Base.Int.{ℤ}
use dcounter.Base.Dict.{insert}
use dcounter.Base.Result.{Error, Result}
use dcounter.Wire.{newline}
use dcounter.Server.{Server, Counters, ensure_member}
use dcounter.Server.Gossip.{active_since}

-- The `Server` that New makes. Its addresses go to memberlist's Config and the listener only.
unfoldable pub new_server : Text → Server
new_server name = record {
  name = name;
  leaving = 0;
  stopped = false;
  consistent = true;
  replicas = [];
  changes = [];
  members = [];
  reconnects = [];
  checks = 0;
}

-- `Start`, with the errors of memberlist.Create and of net.Listen.
unfoldable pub start : Option Error → Option Error → ℤ → Server → Server × Option Error
unfolding insert
start created listening now s =
    let s' = record s {
      replicas = insert s.name [] s.replicas;
      members = insert s.name (active_since now) s.members;
    } in
    elim created [ some e ↦ (s', some e) | none ↦ (record s' { changes = [] }, listening) ]

-- What `Join` does under the lock: all data is dropped, and the server counts as inconsistent.
unfoldable pub reset_for_join : ℤ → Server → Server
reset_for_join now s = record s {
  consistent = false;
  replicas = (s.name, []) ∷ [];
  changes = [];
  members = (s.name, active_since now) ∷ [];
  reconnects = [];
}

-- `Join`, with the error of memberlist's Join.
unfoldable pub join : Option Error → ℤ → Server → Server × Option Error
unfolding reset_for_join
join joined now s = (reset_for_join now s, joined)

-- `Stop`, with the errors of memberlist's Leave and Shutdown. To close the closed channel again
-- panics, `none`.
unfoldable pub stop : Option Error → Option Error → Server → Option (Server × Option Error)
stop left down s =
    if s.stopped
    then none
    else some
        (record s { stopped = true; leaving = 1 }, elim left [ some e ↦ some e | none ↦ down ])

-- `Kill`
unfoldable pub kill : Option Error → Server → Option (Server × Option Error)
kill down s = if s.stopped then none else some (record s { stopped = true }, down)

-- encoding/json writes the members of a decoded object into the map that is there.
unfoldable pub write_all : Counters → Counters → Counters
unfolding insert
write_all [] replicas = replicas
write_all ((member, counters) ∷ doc) replicas = write_all doc (insert member counters replicas)

-- `Load`: `opened` is what os.Open says, `doc` and `decoded` what the decoder had read and said.
unfoldable pub load : Option Error → Counters → Option Error → Server → Server × Option Error
unfolding write_all ensure_member
load (some e) doc decoded s = (s, some e)
load none doc decoded s =
    (record s { replicas = ensure_member s.name (write_all doc s.replicas) }, decoded)

-- `save` of server/api.go, with `encode` for encoding/json.
unfoldable pub save : (Counters → Result Text) → Server → Result Text
save encode s = encode s.replicas

-- `encoder.Encode`: the JSON with a line end, in one write.
unfoldable pub write_json : Result Text → (Text → Text × Option Error) → Text × Option Error
write_json (Result.err e) write = ([], some e)
write_json (Result.ok json) write = write (json ++ newline ∷ [])

-- `Save`, with the errors of os.Create, of the writing of a text and of the file's Close: what gets
-- into the file, and the error. The deferred function takes Close's error only where there is one
-- already.
unfoldable pub save_file :
    Option Error
    → (Counters → Result Text)
    → (Text → Text × Option Error)
    → Option Error
    → Server
    → Text × Option Error
unfolding write_json
save_file (some e) encode write closed s = ([], some e)
save_file none encode write closed s =
    let (written, encoded) = write_json (encode s.replicas) write in
    (
      written,
      elim closed [
        | none ↦ encoded
        | some nerr ↦ elim encoded [ none ↦ none | some _ ↦ some nerr ]
      ],
    )

-- The hosts that a round of `reconnect` joins.
unfoldable pub reconnect_hosts : Server → List Text
reconnect_hosts s = map (λ e. e.0) s.reconnects

-- How long a round of `reconnect` sleeps, in nanoseconds, for a number of hosts.
unfoldable pub reconnect_delay : ℕ → ℕ
reconnect_delay hosts =
    if hosts == 0 then 1_000_000_000 else 2 * 1_000_000_000 + 1_000_000_000 * 10 / hosts
