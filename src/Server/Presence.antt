-- ===== src/Server/Presence.antt =====
-- Which members count as missing: updateConsistent, NotifyJoin and NotifyLeave (server/server.go,
-- server/memberlist.go).
use dcounter.Base.{
  ℕ, ◌+◌, ◌≡◌, ◌↔◌, ◌⊎◌, ◌∙◌, refl, true, false, not, ◌&&◌, none, some, List, [], ◌∷◌, Text,
  text_eq, text_eq_iff, eq_of_text_eq, text_eq_refl, if◌then◌else◌, ◌==◌, arith, Bool-cases, inl,
  inr,
}
use dcounter.Base.Int.{ℤ}
use dcounter.Base.Dict.{Dict, lookup, insert, delete, contains, IsMap, lookup-insert, lookup-delete}
use dcounter.Base.Result.{ok}
use dcounter.Server.{Server, State, States, Node}
use dcounter.Server.Gossip.{
  active_since, node_addr, notify_join, notify_leave, decode_meta, is_node, all_present,
  update_consistent,
}

-- Some node of memberlist has the name.
abbrev pub HasNode : Text → List Node → Type 0
HasNode name [] = ⊥
HasNode name (node ∷ nodes) = (node.name ≡ name) ⊎ HasNode name nodes

is_node_sound : (name : Text) (nodes : List Node) → is_node name nodes ≡ true → HasNode name nodes
unfolding is_node
is_node_sound name [] h = cc
is_node_sound name (node ∷ nodes) h = elim (Bool-cases (text_eq node.name name)) [
  | inl same ↦ inl (eq_of_text_eq node.name name same)
  | inr other ↦ inr (is_node_sound name nodes (ground (arith, other, h)))
]

is_node_complete :
    (name : Text) (nodes : List Node) → HasNode name nodes → is_node name nodes ≡ true
unfolding is_node
is_node_complete name [] h = absurd h
is_node_complete name (node ∷ nodes) (inl same) = ground (arith, text_eq_iff node.name name, same)
is_node_complete name (node ∷ nodes) (inr later) = ground (arith, is_node_complete name nodes later)

lookup-head :
    (name k : Text) (state : State) (members : States)
    → lookup name ((k, state) ∷ members)
      ≡ (if text_eq k name then some state else lookup name members)
unfolding lookup
lookup-head name k state members = refl

all_present_sound :
    (nodes : List Node) (members : States) (name : Text) (state : State)
    → all_present nodes members ≡ true
    → lookup name members ≡ some state
    → state.active ≡ 1
    → is_node name nodes ≡ true
unfolding all_present
all_present_sound nodes [] name state h found active = unfold lookup in ground arith
all_present_sound nodes ((k, st) ∷ members) name state h found active = ground (
  arith,
  lookup-head name k st members,
  all_present_sound nodes members name state,
  text_eq_iff k name,
  h,
  found,
  active,
)

-- Each active member has a node of its name.
abbrev AllPresent : List Node → States → Type 0
AllPresent nodes members =
    (name : Text) (state : State)
    → lookup name members ≡ some state
    → state.active ≡ 1
    → HasNode name nodes

tail-AllPresent :
    (nodes : List Node) (k : Text) (st : State) (members : States)
    → lookup k members ≡ none
    → AllPresent nodes ((k, st) ∷ members)
    → AllPresent nodes members
tail-AllPresent nodes k st members fresh all name state found active =
    all name state
      (lookup-head name k st members ∙ elim (Bool-cases (text_eq k name)) [
        | inl same ↦ ground (arith, fresh, found, eq_of_text_eq k name same)
        | inr other ↦ rw other found
      ])
      active

all_present_complete :
    (nodes : List Node) (members : States)
    → IsMap members
    → AllPresent nodes members
    → all_present nodes members ≡ true
unfolding all_present
all_present_complete nodes [] h all = refl
all_present_complete nodes ((k, st) ∷ members) h all =
    let rest =
      all_present_complete nodes members h.1 (tail-AllPresent nodes k st members h.0 all) in
    let first = λ (active : st.active ≡ 1).
      is_node_complete k nodes
        (all k st (lookup-head k k st members ∙ rw (text_eq_refl k)) active) in
    ground (arith, rest, first)

-- A run of `updateConsistent` finds the server consistent exactly if each active member has a node.
update_consistent_iff :
    (nodes : List Node) (s : Server)
    → IsMap s.members
    → ((update_consistent nodes s).consistent ≡ true) ↔ AllPresent nodes s.members
unfolding update_consistent
update_consistent_iff nodes s h = (
  λ e name state found active.
      is_node_sound name nodes (all_present_sound nodes s.members name state e found active),
  all_present_complete nodes s.members h,
)

contains-delete :
    (j k : Text) (m : Dict (Unit {0}))
    → IsMap m
    → contains j (delete k m) ≡ (if text_eq k j then false else contains j m)
contains-delete j k m h = ground (arith, lookup-delete j k m h)

contains-insert :
    (j k : Text) (m : Dict (Unit {0}))
    → contains j (insert k tt m) ≡ (if text_eq k j then true else contains j m)
contains-insert j k m = ground (arith, lookup-insert j k tt m)

-- When memberlist drops a node whose meta can be read, a check is started. If the node did not say
-- that it leaves, its address is to be reconnected with and the members are as before, so that an
-- active one counts as missing; if it did, the member is inactive from now on and its address is
-- not to be reconnected with. All other addresses and members are as before.
pub notify_leave_lem :
    (now : ℤ) (node : Node) (s : Server) (leaving : ℕ)
    → IsMap s.reconnects
    → decode_meta node.meta ≡ ok leaving
    → let s' = notify_leave now node s in
      (s'.checks ≡ s.checks + 1)
      × ((addr : Text)
          → contains addr s'.reconnects
            ≡ (if text_eq (node_addr node) addr then leaving == 0 else contains addr s.reconnects))
      × ((member : Text)
          → lookup member s'.members ≡ (
              if text_eq node.name member && not (leaving == 0)
              then some (record { active = 0; when = now })
              else lookup member s.members))
unfolding notify_leave
notify_leave_lem now node s leaving h read =
    let gone : State = record { active = 0; when = now } in
    (
      ground (arith, read),
      λ addr. ground (
        arith,
        read,
        contains-insert addr (node_addr node) s.reconnects,
        contains-delete addr (node_addr node) s.reconnects h,
      ),
      λ member. ground (arith, read, lookup-insert member node.name gone s.members),
    )

-- When a node joins, the member is active from now on, its address is not to be reconnected with,
-- and all other addresses and members are as before.
pub notify_join_lem :
    (now : ℤ) (node : Node) (s : Server)
    → IsMap s.reconnects
    → let s' = notify_join now node s in
      ((addr : Text)
        → contains addr s'.reconnects
          ≡ (if text_eq (node_addr node) addr then false else contains addr s.reconnects))
      × ((member : Text)
          → lookup member s'.members ≡ (
              if text_eq node.name member
              then some (active_since now)
              else lookup member s.members))
unfolding notify_join
notify_join_lem now node s h = (
  λ addr. contains-delete addr (node_addr node) s.reconnects h,
  λ member. lookup-insert member node.name (active_since now) s.members,
)
