-- ===== src/Server/Gossip.antt =====
-- What memberlist calls back: NotifyJoin, NotifyLeave, NotifyUpdate, NodeMeta, LocalState and
-- MergeRemoteState of server/memberlist.go, with `meta` and `buffer` (server/meta.go,
-- server/buffer.go), and updateConsistent of server/server.go. `now` is `time.Now().UTC().Unix()`.
use dcounter.Base.{
  ℕ, ◌+◌, Bool, true, false, not, ◌&&◌, Option, none, some, List, [], ◌∷◌, ◌++◌, Text, codes,
  text_eq, length, ltb, leb, ◌==◌, if◌then◌else◌,
}
use dcounter.Base.Int.{ℤ, ltb_ℤ}
use dcounter.Base.Dict.{Dict, lookup, insert, delete, contains}
use dcounter.Base.Result.{Result, ok, err, eof}
use dcounter.Counter.{Counter}
use dcounter.Server.{Server, State, States, Counters, Node, start_check, ensure_member}
use dcounter.Server.Messages.{merge_at}

-- `min` of server/util.go.
unfoldable pub min : ℕ → ℕ → ℕ
min a b = if leb a b then a else b

-- `buffer.Write` of server/buffer.go: a write that does not fit the capacity fails whole.
unfoldable pub buffer_write : ℕ → Text → Text → Result Text
buffer_write cap buffer bytes =
    if ltb cap (length buffer + length bytes) then err eof else ok (buffer ++ bytes)

-- `meta.Encode` at Leaving: `err` is the panic.
unfoldable pub encode_meta : ℕ → ℕ → Result Text
unfolding min buffer_write
encode_meta leaving limit = buffer_write (min 1024 limit) [] (leaving ∷ [])

-- `meta.Decode`: the Leaving byte.
unfoldable pub decode_meta : Text → Result ℕ
decode_meta [] = err eof
decode_meta (leaving ∷ _) = ok leaving

-- `NodeMeta`
unfoldable pub node_meta : ℕ → Server → Result Text
unfolding encode_meta
node_meta limit s = encode_meta s.leaving limit

-- `node.Addr.String() + ":" + port`
unfoldable pub node_addr : Node → Text
node_addr node = node.addr ++ codes ":" ++ node.port

abbrev pub active_since : ℤ → State
active_since now = record { active = 1; when = now }

-- `NotifyJoin`
unfoldable pub notify_join : ℤ → Node → Server → Server
unfolding node_addr insert delete
notify_join now node s = record s {
  members = insert node.name (active_since now) s.members;
  reconnects = delete (node_addr node) s.reconnects;
}

-- `NotifyLeave`: a node that did not say that it leaves is missing, and is reconnected with.
unfoldable pub notify_leave : ℤ → Node → Server → Server
unfolding node_addr insert delete decode_meta start_check
notify_leave now node s = elim (decode_meta node.meta) [
  | err _ ↦ s
  | ok leaving ↦ start_check (
      if leaving == 0
      then record s { reconnects = insert (node_addr node) tt s.reconnects }
      else record s {
        members = insert node.name (record { active = 0; when = now }) s.members;
        reconnects = delete (node_addr node) s.reconnects;
      })
]

-- `NotifyUpdate`
unfoldable pub notify_update : Node → Server → Server
unfolding start_check
notify_update node s = start_check s

-- The map of names that updateConsistent makes of memberlist's Members.
unfoldable pub is_node : Text → List Node → Bool
unfolding text_eq
is_node name [] = false
is_node name (node ∷ nodes) = if text_eq node.name name then true else is_node name nodes

-- The loop of updateConsistent: no active member is missing.
unfoldable pub all_present : List Node → States → Bool
unfolding is_node
all_present nodes [] = true
all_present nodes ((name, state) ∷ members) =
    if (state.active == 1) && not (is_node name nodes) then false else all_present nodes members

-- One run of a started updateConsistent.
unfoldable pub update_consistent : List Node → Server → Server
unfolding all_present
update_consistent nodes s = record s { consistent = all_present nodes s.members }

-- The first loop of MergeRemoteState: the later state of a member wins.
unfoldable pub newer_state : Option State → State → Bool
newer_state none state = true
newer_state (some x) state = ltb_ℤ x.when state.when

unfoldable pub merge_members : States → States → States
unfolding newer_state lookup insert
merge_members [] members = members
merge_members ((name, state) ∷ remote) members =
    merge_members remote
      (if newer_state (lookup name members) state then insert name state members else members)

-- The inner loop over one member's counters.
unfoldable pub merge_counters : Text → Dict Counter → Counters → Counters
unfolding merge_at
merge_counters member [] replicas = replicas
merge_counters member ((name, c) ∷ counters) replicas =
    merge_counters member counters (merge_at member name c replicas)

-- The second loop: members that are not known are passed over.
unfoldable pub merge_replicas : States → Counters → Counters → Counters
unfolding merge_counters ensure_member lookup
merge_replicas members [] replicas = replicas
merge_replicas members ((member, counters) ∷ remote) replicas = merge_replicas members remote (
    if contains member members
    then merge_counters member counters (ensure_member member replicas)
    else replicas)

-- `LocalState`, before it is encoded by encoding/gob.
unfoldable pub local_state : Server → States × Counters
local_state s = (s.members, s.replicas)

-- `MergeRemoteState`, at what encoding/gob decodes: `none` is a failed decode, which is logged.
unfoldable pub merge_remote_state : ℤ → Option (States × Counters) → Server → Server
unfolding merge_members merge_replicas start_check insert
merge_remote_state now none s = s
merge_remote_state now (some (members, replicas)) s =
    let members' = insert s.name (active_since now) (merge_members members s.members) in
    start_check
      (record s { members = members'; replicas = merge_replicas members' replicas s.replicas })
