-- ===== src/Server/Messages.antt =====
-- The messages between servers: readChange and readReset of server/server.go, NotifyMsg and
-- GetBroadcasts of server/memberlist.go. A failed read changes nothing and is only logged.
use dcounter.Base.{ℕ, none, some, [], ◌∷◌, ◌++◌, Text, codes, ◌==◌, if◌then◌else◌}
use dcounter.Base.Dict.{lookup, contains}
use dcounter.Base.Result.{Result, ok, err, message, ◌>>=◌, ◌>>◌, guard}
use dcounter.Counter.{Counter, merge, reset_counter}
use dcounter.Wire.{FloatRep, read_string, read_counter, reset_message, change_message}
use dcounter.Server.{
  Server, Counters, lookup_counter, store_counter, ensure_member, broadcast_change,
}

-- The write of readChange, and of MergeRemoteState, at one counter of one member.
unfoldable pub merge_at : Text → Text → Counter → Counters → Counters
unfolding lookup_counter store_counter ensure_member
merge_at member name c replicas =
    let there = ensure_member member replicas in
    elim (store_counter member name (merge (lookup_counter member name there) c) there) [
      | none ↦ there
      | some replicas' ↦ replicas'
    ]

module _ ⦃rep : FloatRep⦄ where
  -- `readChange`: a change for a member that is not known is refused.
  unfoldable pub read_change : Text → Server → Result Server
  unfolding read_string read_counter merge_at lookup
  read_change reader s = do
    (member_name, reader) ← read_string reader
    guard (contains member_name s.members)
        (message (codes "change for unknown member " ++ member_name))
    (name, reader) ← read_string reader
    (c, _) ← read_counter reader
    ok (record s { replicas = merge_at member_name name c s.replicas })

  -- The `if` of readReset: what the sender has seen is taken off, unless the revision has moved on.
  unfoldable pub apply_reset : Text → Counter → Server → Server
  unfolding lookup_counter store_counter broadcast_change reset_counter
  apply_reset name c s = elim (lookup_counter s.name name s.replicas) [
    | none ↦ s
    | some oc ↦
        if c.revision == oc.revision
        then elim (store_counter s.name name (reset_counter c oc) s.replicas) [
          | none ↦ s
          | some replicas ↦
              broadcast_change name (reset_counter c oc) (record s { replicas = replicas })
        ]
        else s
  ]

  -- `readReset`
  unfoldable pub read_reset : Text → Server → Result Server
  unfolding read_string read_counter apply_reset
  read_reset reader s = do
    (name, reader) ← read_string reader
    (c, _) ← read_counter reader
    ok (apply_reset name c s)

  -- The dispatch of NotifyMsg by the first byte.
  unfoldable pub read_message : ℕ → Text → Server → Result Server
  unfolding read_reset read_change
  read_message t reader s =
      if t == reset_message
      then read_reset reader s
      else if t == change_message
      then read_change reader s
      else err (message (codes "unknown message type"))

  -- `NotifyMsg`
  unfoldable pub notify_msg : Text → Server → Server
  unfolding read_message
  notify_msg [] s = s
  notify_msg (t ∷ reader) s = elim (read_message t reader s) [ ok s' ↦ s' | err _ ↦ s ]
