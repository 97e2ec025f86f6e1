-- ===== src/Server/Exchange.antt =====
-- Full states sent both ways, and twice: LocalState and MergeRemoteState (server/memberlist.go).
use dcounter.Base.{
  ◌≡◌, ◌∙◌, refl, sym, ap, true, Option, none, some, Text, text_eq, if◌then◌else◌, arith,
  Bool-cases, inl, inr,
}
use dcounter.Base.Int.{ℤ}
use dcounter.Base.Dict.{lookup, contains, IsMap}
use dcounter.Counter.{Counter, merge}
use dcounter.Counter.Merge.{AreNumbers, merge_comm, merge_idem}
use dcounter.Server.{Server, State, States, Counters, lookup_counter}
use dcounter.Server.Gossip.{active_since, local_state, newer_state, merge_remote_state}
use dcounter.Server.Lists.{AreMaps}
use dcounter.Server.MergeState.{merge_opt, later_state, merge_remote_state_lem}

-- What Go's maps guarantee of a server's state.
pub record HoldsMaps (s : Server) : Type 0 where
  pub members_map : IsMap s.members
  pub replicas_map : IsMap s.replicas
  pub counters_maps : AreMaps s.replicas

-- Two servers' copies of a counter: of one revision and with no NaN, if both have it.
abbrev pub AreComparable : Option Counter → Option Counter → Type 0
AreComparable none o = Unit
AreComparable (some c) none = Unit
AreComparable (some c) (some d) = (c.revision ≡ d.revision) × AreNumbers c × AreNumbers d

merge_opt_comm : (o p : Option Counter) → AreComparable o p → merge_opt o p ≡ merge_opt p o
merge_opt_comm none none h = refl
merge_opt_comm none (some d) h = unfold merge in refl
merge_opt_comm (some c) none h = unfold merge in refl
merge_opt_comm (some c) (some d) h = ap some (merge_comm c d c h.1 h.2 h.0)

-- After two servers have sent each other their full states, they agree on each counter of a member
-- that both then know, if their copies were of one revision and without NaN.
pub push_pull_agree :
    (now now' : ℤ) (a b : Server) (m n : Text)
    → HoldsMaps a
    → HoldsMaps b
    → AreComparable (lookup_counter m n a.replicas) (lookup_counter m n b.replicas)
    → contains m (merge_remote_state now (some (local_state b)) a).members ≡ true
    → contains m (merge_remote_state now' (some (local_state a)) b).members ≡ true
    → lookup_counter m n (merge_remote_state now (some (local_state b)) a).replicas
      ≡ lookup_counter m n (merge_remote_state now' (some (local_state a)) b).replicas
unfolding local_state
push_pull_agree now now' a b m n ha hb comparable known_a known_b =
    let at_a =
      merge_remote_state_lem now b.members b.replicas a hb.members_map hb.replicas_map
        hb.counters_maps in
    let at_b =
      merge_remote_state_lem now' a.members a.replicas b ha.members_map ha.replicas_map
        ha.counters_maps in
    at_a.1 m n
    ∙ rw known_a (
        merge_opt_comm (lookup_counter m n a.replicas) (lookup_counter m n b.replicas) comparable
        ∙ sym (at_b.1 m n ∙ rw known_b))

merge_opt_idem : (o p : Option Counter) → merge_opt (merge_opt o p) p ≡ merge_opt o p
merge_opt_idem o none = refl
merge_opt_idem o (some d) = ap some (merge_idem o d)

-- A member that is known after the second merge was known after the first.
known_before :
    (m : Text) (members : States) (s s' s'' : Server) (x y : State)
    → lookup m s'.members
      ≡ (if text_eq s.name m then some x else later_state (lookup m s.members) (lookup m members))
    → lookup m s''.members
      ≡ (if text_eq s'.name m then some y else later_state (lookup m s'.members) (lookup m members))
    → s'.name ≡ s.name
    → contains m s''.members ≡ true
    → contains m s'.members ≡ true
unfolding newer_state
known_before m members s s' s'' x y e e' same known = ground (arith, e, e', same, known)

-- The same full state, when it comes again, changes no counter.
pub merge_remote_state_again :
    (now now' : ℤ) (members : States) (replicas : Counters) (s : Server) (m n : Text)
    → IsMap members
    → IsMap replicas
    → AreMaps replicas
    → let s' = merge_remote_state now (some (members, replicas)) s in
      lookup_counter m n (merge_remote_state now' (some (members, replicas)) s').replicas
      ≡ lookup_counter m n s'.replicas
merge_remote_state_again now now' members replicas s m n hm hr maps =
    let s' = merge_remote_state now (some (members, replicas)) s in
    let once = merge_remote_state_lem now members replicas s hm hr maps in
    let twice = merge_remote_state_lem now' members replicas s' hm hr maps in
    elim (Bool-cases (contains m (merge_remote_state now' (some (members, replicas)) s').members)) [
      | inl known ↦ ground (
        arith,
        once.1 m n,
        twice.1 m n,
        known,
        known_before m members s s' (merge_remote_state now' (some (members, replicas)) s')
            (active_since now) (active_since now') (once.0 m) (twice.0 m)
            (unfold merge_remote_state in refl) known,
        merge_opt_idem (lookup_counter m n s.replicas) (lookup_counter m n replicas),
      )
      | inr unknown ↦ ground (arith, twice.1 m n, unknown)
    ]
