-- ===== src/Server/Routines/Rejoins.antt =====
-- Which hosts `reconnect` joins again, after what NotifyLeave and NotifyJoin have said of a node
-- (server/memberlist.go, server/server.go).
use mathlib.Core.List.{Memᴰ}
use mathlib.Core.Path.{subst}
use dcounter.Base.{
  ◌≡◌, sym, true, false, List, [], ◌∷◌, map, Text, text_eq, text_eq_refl, eq_of_text_eq, length,
  ◌==◌, if◌then◌else◌, arith, Bool-cases, inl, inr,
}
use dcounter.Base.Int.{ℤ}
use dcounter.Base.Dict.{
  Dict, lookup, insert, delete, contains, IsMap, lookup-insert_self, insert-IsMap, lookup-delete,
}
use dcounter.Base.Result.{ok}
use dcounter.Server.{Node, start_check}
use dcounter.Server.Gossip.{node_addr, notify_join, notify_leave, decode_meta}
use dcounter.Server.Lifecycle.{reconnect_hosts}
use dcounter.Server.Routines.{Routines, at_select, reconnect_turn}

contains_cons :
    {V : Type 0} (k j : Text) (v : V) (m : Dict V)
    → contains k ((j, v) ∷ m) ≡ (if text_eq j k then true else contains k m)
unfolding lookup
contains_cons k j v m = ground arith

-- The keys of a map.
contains-Memᴰ :
    {V : Type 0} (k : Text) (m : Dict V) → contains k m ≡ true → Memᴰ k (map (λ e. e.0) m)
contains-Memᴰ k [] h = unfold lookup in ground arith
contains-Memᴰ k ((j, v) ∷ m) h = elim (Bool-cases (text_eq j k)) [
  | inl here ↦ Memᴰ.head (sym (eq_of_text_eq j k here))
  | inr there ↦ Memᴰ.tail (contains-Memᴰ k m (ground (arith, contains_cons k j v m, there, h)))
]

Memᴰ-contains :
    {V : Type 0} (k : Text) (m : Dict V) → Memᴰ k (map (λ e. e.0) m) → contains k m ≡ true
Memᴰ-contains k [] h = elim h [ ]
Memᴰ-contains k ((j, v) ∷ m) (Memᴰ.head e) =
    ground (arith, contains_cons k j v m, e, text_eq_refl k)
Memᴰ-contains k ((j, v) ∷ m) (Memᴰ.tail h) =
    ground (arith, contains_cons k j v m, Memᴰ-contains k m h)

some-length : (x : Text) (xs : List Text) → Memᴰ x xs → (length xs == 0) ≡ false
some-length x [] h = elim h [ ]
some-length x (y ∷ ys) h = ground arith

-- A node that goes without having said that it leaves is among the hosts that the next round of
-- `reconnect` hands to memberlist's Join, while `stop` is open. Once NotifyJoin has reported it
-- again, it is none of the hosts of a round.
pub crashed_node_rejoins :
    (now now' : ℤ) (node : Node) (r : Routines)
    → IsMap r.server.reconnects
    → r.reconnecting ≡ at_select
    → r.server.stopped ≡ false
    → decode_meta node.meta ≡ ok 0
    → let s = notify_leave now node r.server in
      (hosts : List Text) × ((reconnect_turn (record r { server = s })).joins ≡ hosts ∷ r.joins)
      × Memᴰ (node_addr node) hosts
      × (¬ Memᴰ (node_addr node) (reconnect_hosts (notify_join now' node s)))
unfolding reconnect_turn reconnect_hosts notify_join
crashed_node_rejoins now now' node r once selects runs crashed =
    let s = notify_leave now node r.server in
    let addr = node_addr node in
    let missing : s.reconnects ≡ insert addr tt r.server.reconnects =
      unfold notify_leave start_check in ground (arith, crashed) in
    let still : s.stopped ≡ false =
      unfold notify_leave start_check in ground (arith, crashed, runs) in
    let present : Memᴰ addr (reconnect_hosts s) =
      contains-Memᴰ addr s.reconnects
        (ground (arith, missing, lookup-insert_self addr tt r.server.reconnects)) in
    (
      reconnect_hosts s,
      ground (arith, selects, still, some-length addr (reconnect_hosts s) present),
      present,
      λ again.
          let there = Memᴰ-contains addr (delete addr s.reconnects) again in
          let once' : IsMap s.reconnects =
            subst IsMap (sym missing) (insert-IsMap addr tt r.server.reconnects once) in
          ground (arith, there, lookup-delete addr addr s.reconnects once', text_eq_refl addr),
    )
