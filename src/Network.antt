-- ===== src/Network.antt =====
-- A cluster whose clients increment: the servers of server/server.go under all names, what is in
-- flight between them by memberlist, and the steps that they make in any order. A message of a
-- queue can get to a server at any time, any number of times or never, as can a full state that was
-- sent.
pub mod Below
pub mod Absorb
pub mod Moves
pub mod Bounds
pub mod Increment
pub mod Reached
pub mod Sync
pub mod Converge
pub mod Counts
pub mod Owners
pub mod Exact
pub mod Stable
pub mod Grows
pub mod Clients
use mathlib.Core.List.{Memᴰ}
use dcounter.Base.{
  has_byte, ℕ, suc, ◌≡◌, false, none, some, List, [], ◌∷◌, Text, text_eq, if◌then◌else◌,
}
use dcounter.Base.Int.{ℤ}
use dcounter.Float.{Float}
use dcounter.Float.Laws.{IsFinite}
use dcounter.Wire.{FloatRep, newline}
use dcounter.Wire.RoundTrip.{IsWireable}
use dcounter.Server.{Server, States, Counters, Change, Node, change_payload}
use dcounter.Server.Local.{inc}
use dcounter.Server.Messages.{notify_msg}
use dcounter.Server.Gossip.{
  local_state, notify_join, notify_leave, update_consistent, merge_remote_state,
}
use dcounter.Server.Lifecycle.{new_server, start}
use dcounter.Server.Reads.{own_counter}

-- The servers, and the full states that LocalState has made.
pub record Network : Type 0 where
  pub servers : Text → Server
  pub sent : List (States × Counters)

abbrev pub update : Text → Server → (Text → Server) → Text → Server
update k s servers j = if text_eq k j then s else servers j

abbrev pub with_server : Text → Server → Network → Network
with_server k s net = record net { servers = update k s net.servers }

module _ ⦃rep : FloatRep⦄ where
  -- One step of one server. Names hold no newline, amounts are finite, and a counter that is
  -- sent out has float64 values.
  pub data Step (net : Network) : Network → Type 0 where
    incremented :
        (k name : Text) (diff v : Float) (s : Server)
        → has_byte newline k ≡ false
        → has_byte newline name ≡ false
        → IsFinite diff
        → inc name diff (net.servers k) ≡ some (v, s)
        → IsWireable (own_counter name s)
        → Step net (with_server k s net)
    delivered :
        (k j : Text) (c : Change)
        → Memᴰ c (net.servers k).changes
        → Step net (with_server j (notify_msg (change_payload c) (net.servers j)) net)
    state_sent :
        (k : Text) → Step net (record net { sent = local_state (net.servers k) ∷ net.sent })
    state_merged :
        (j : Text) (now : ℤ) (state : States × Counters)
        → Memᴰ state net.sent
        → Step net (with_server j (merge_remote_state now (some state) (net.servers j)) net)
    node_joined :
        (j : Text) (now : ℤ) (node : Node)
        → Step net (with_server j (notify_join now node (net.servers j)) net)
    node_left :
        (j : Text) (now : ℤ) (node : Node)
        → Step net (with_server j (notify_leave now node (net.servers j)) net)
    checked :
        (j : Text) (nodes : List Node) (k : ℕ)
        → (net.servers j).checks ≡ suc k
        → Step net
            (with_server j (record (update_consistent nodes (net.servers j)) { checks = k }) net)

  -- Servers that were started without an error, each at its own time.
  abbrev pub fresh : (Text → ℤ) → Network
  fresh now = record { servers = λ k. (start none none (now k) (new_server k)).0; sent = [] }

  pub data Reach (net : Network) : Network → Type 0 where
    unmoved : Reach net net
    next : {a b : Network} → Reach net a → Step a b → Reach net b
