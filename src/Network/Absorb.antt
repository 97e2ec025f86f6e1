-- ===== src/Network/Absorb.antt =====
-- What a server does with what it gets: it merges copies that are below their owners' counters, and
-- so do messages and full states alike (server/memberlist.go, server/server.go).
use dcounter.Base.{
  has_byte, ◌≡◌, false, Option, none, some, Text, text_eq, eq_of_text_eq, arith, Bool-cases, inl,
  inr,
}
use dcounter.Base.Dict.{IsMap}
use dcounter.Counter.{Counter}
use dcounter.Counter.Growth.{All, IsFiniteCounter}
use dcounter.Wire.{FloatRep, newline, change_bytes}
use dcounter.Wire.RoundTrip.{IsWireable}
use dcounter.Server.{Server, States, Counters, Change, lookup_counter, change_payload}
use dcounter.Server.Lists.{AreMaps}
use dcounter.Server.Invariant.{IsWellFormed}
use dcounter.Server.MergeState.{merge_opt}
use dcounter.Network.{Network, with_server}
use dcounter.Network.Below.{IsCopy, merge_opt-stays}

-- The counters of a member, as the member itself has them.
abbrev pub owned : Network → Text → Text → Option Counter
owned net m n = lookup_counter m n (net.servers m).replicas

-- What server `k` holds of a member's counter.
abbrev pub copy : Network → Text → Text → Text → Option Counter
copy net k m n = lookup_counter m n (net.servers k).replicas

abbrev pub IsFiniteOpt : Option Counter → Type 0
IsFiniteOpt none = Unit
IsFiniteOpt (some c) = IsFiniteCounter c

module _ ⦃rep : FloatRep⦄ where
  -- A queued change is the message of a counter of the server that is below what the server has
  -- now.
  pub record IsChange (net : Network) (k : Text) (ch : Change) : Type 0 where
    pub name : Text
    pub counter : Counter
    pub member_line : has_byte newline k ≡ false
    pub name_line : has_byte newline name ≡ false
    pub wireable : IsWireable counter
    pub below : IsCopy (some counter) (owned net k name)
    pub payload_is : change_payload ch ≡ change_bytes k name counter

  -- A full state that was sent: maps, with copies below the owners' counters.
  pub record IsSent (net : Network) (state : States × Counters) : Type 0 where
    pub members_map : IsMap state.0
    pub replicas_map : IsMap state.1
    pub counters_maps : AreMaps state.1
    pub below : (m n : Text) → IsCopy (lookup_counter m n state.1) (owned net m n)

  pub record IsBounded (net : Network) : Type 0 where
    pub named : (k : Text) → (net.servers k).name ≡ k
    pub well_formed : (k : Text) → IsWellFormed (net.servers k)
    pub finite : (m n : Text) → IsFiniteOpt (owned net m n)
    pub copies : (k m n : Text) → IsCopy (copy net k m n) (owned net m n)
    pub queues : (k : Text) → All (IsChange net k) (net.servers k).changes
    pub states : All (IsSent net) net.sent

-- Server `j`, after it has merged what `came` gives for each counter.
pub record Absorbs (net : Network) (j : Text) (s : Server) : Type 0 where
  pub came : Text → Text → Option Counter
  pub name_is : s.name ≡ j
  pub changes_are : s.changes ≡ (net.servers j).changes
  pub well_formed : IsWellFormed s
  pub came_below : (m n : Text) → IsCopy (came m n) (owned net m n)
  pub merged : (m n : Text) → lookup_counter m n s.replicas ≡ merge_opt (copy net j m n) (came m n)

-- No owner's counter changes.
pub owned-Absorbs :
    (net : Network) (j : Text) (s : Server)
    → Absorbs net j s
    → (m n : Text) → owned (with_server j s net) m n ≡ owned net m n
owned-Absorbs net j s a m n = elim (Bool-cases (text_eq j m)) [
  | inl here ↦ ground (
    arith,
    here,
    eq_of_text_eq j m here,
    a.merged m n,
    merge_opt-stays (owned net m n) (a.came m n) (a.came_below m n),
  )
  | inr there ↦ ground (arith, there)
]
