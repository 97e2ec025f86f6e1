-- ===== src/Server.antt =====
-- The `Server` of server/server.go: its state, and the small pieces that its handlers share. The
-- handlers stand in the child modules.
pub mod Local
pub mod Messages
pub mod Maps
pub mod Totals
pub mod Order
pub mod Reads
pub mod Lists
pub mod Sets
pub mod Cluster
pub mod Presence
pub mod MergeState
pub mod Exchange
pub mod Invariant
pub mod Persist
pub mod Saving
pub mod Run
pub mod Handle
pub mod Delivery
pub mod Queue
pub mod Convergence
pub mod Gossip
pub mod Lifecycle
pub mod Routines
pub mod Setting
pub mod Address
use dcounter.Base.{
  ℕ, ◌+◌, Bool, true, false, Option, none, some, List, [], ◌∷◌, ◌++◌, Text, text_eq,
}
use dcounter.Base.Int.{ℤ}
use dcounter.Base.Dict.{Dict, lookup, insert}
use dcounter.Counter.{Counter}
use dcounter.Wire.{FloatRep, change_bytes}

-- `state` of server/state.go: whether a member is active, and since when (Unix seconds).
pub record State : Type 0 where
  pub active : ℕ
  pub when : ℤ

abbrev pub States : Type 0
States = Dict State

-- For each member the counters that it owns.
abbrev pub Counters : Type 0
Counters = Dict (Dict Counter)

-- `Change` of server/change/change.go, an entry of the broadcast queue.
pub record Change : Type 0 where
  pub name : Text
  pub payload : Text

-- `New` of server/change/change.go.
unfoldable pub new_change : Text → Text → Change
new_change name payload = record { name = name; payload = payload }

-- `Change.Invalidates`: a newer change of the same counter replaces an older one.
unfoldable pub invalidates : Change → Change → Bool
unfolding text_eq
invalidates c o = text_eq c.name o.name

-- `Change.Message`
unfoldable pub change_payload : Change → Text
change_payload c = c.payload

-- What memberlist says of a node, as far as the server reads it.
pub record Node : Type 0 where
  pub name : Text
  pub addr : Text
  pub port : Text
  pub meta : Text

-- `changes` lists the calls of QueueBroadcast on the queue that is in use, the oldest first.
-- `checks` counts the goroutines of updateConsistent that were started and have not run.
pub record Server : Type 0 where
  pub name : Text
  pub leaving : ℕ
  pub stopped : Bool
  pub consistent : Bool
  pub replicas : Counters
  pub changes : List Change
  pub members : States
  pub reconnects : Dict (Unit {0})
  pub checks : ℕ

-- `go s.updateConsistent()`
unfoldable pub start_check : Server → Server
start_check s = record s { checks = s.checks + 1 }

-- `s.replicas[member][name]`, which is not there if the member has no map.
unfoldable pub lookup_counter : Text → Text → Counters → Option Counter
unfolding lookup
lookup_counter member name replicas = elim (lookup member replicas) [
  | none ↦ none
  | some counters ↦ lookup name counters
]

-- `s.replicas[member][name] = c`: a write to a map that is not there panics.
unfoldable pub store_counter : Text → Text → Counter → Counters → Option Counters
unfolding lookup insert
store_counter member name c replicas = elim (lookup member replicas) [
  | none ↦ none
  | some counters ↦ some (insert member (insert name c counters) replicas)
]

-- `if _, ok := s.replicas[member]; !ok { s.replicas[member] = make(...) }`
unfoldable pub ensure_member : Text → Counters → Counters
unfolding lookup insert
ensure_member member replicas = elim (lookup member replicas) [
  | none ↦ insert member [] replicas
  | some _ ↦ replicas
]

module _ ⦃rep : FloatRep⦄ where
  -- `broadcastChange`. Its writers go to memory and do not fail, so that it returns no error.
  unfoldable pub broadcast_change : Text → Counter → Server → Server
  unfolding new_change
  broadcast_change name c s = record s {
    changes = s.changes ++ new_change name (change_bytes s.name name c) ∷ [];
  }
