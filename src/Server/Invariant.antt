-- ===== src/Server/Invariant.antt =====
-- What holds of a running server's state: it has its own map, it is a member itself, and its
-- dictionaries hold each key once.
use mathlib.Core.Path.{subst}
use dcounter.Base.{
  ◌≡◌, Bool, true, false, some, [], ◌∷◌, Text, text_eq, text_eq_refl, if◌then◌else◌, arith,
  Option-cases, Bool-cases, inl, inr,
}
use dcounter.Base.Dict.{Dict, lookup, insert, contains, IsMap, lookup-insert, insert-IsMap}
use dcounter.Counter.{Counter, merge}
use dcounter.Server.{Server, States, Counters, lookup_counter, store_counter, ensure_member}
use dcounter.Server.Messages.{merge_at}
use dcounter.Server.Gossip.{merge_members, merge_counters, merge_replicas, newer_state}
use dcounter.Server.Lists.{AreMaps}
use dcounter.Server.Lifecycle.{write_all}

-- The maps of all members, each key once, with one for the server's own name.
pub record HasReplicas (name : Text) (replicas : Counters) : Type 0 where
  pub own : contains name replicas ≡ true
  pub replicas_map : IsMap replicas
  pub counters_maps : AreMaps replicas

pub record IsWellFormed (s : Server) : Type 0 where
  pub replicas_ok : HasReplicas s.name s.replicas
  pub self_member : contains s.name s.members ≡ true
  pub members_map : IsMap s.members
  pub reconnects_map : IsMap s.reconnects

AreMaps-insert :
    (k : Text) (counters : Dict Counter) (r : Counters)
    → AreMaps r
    → IsMap counters
    → AreMaps (insert k counters r)
unfolding insert
AreMaps-insert k counters [] h m = (m, tt)
AreMaps-insert k counters ((j, w) ∷ r) h m = ground (arith, AreMaps-insert k counters r h.1 m)

IsMap-lookup :
    (k : Text) (r : Counters) {counters : Dict Counter}
    → AreMaps r
    → lookup k r ≡ some counters
    → IsMap counters
unfolding lookup
IsMap-lookup k [] h e = cc
IsMap-lookup k ((j, w) ∷ r) {counters} h e = elim (Bool-cases (text_eq j k)) [
  | inl here ↦ subst IsMap (ground (arith, here, e)) h.0
  | inr there ↦ IsMap-lookup k r h.1 (ground (arith, there, e))
]

pub contains-insert :
    {V : Type 0} (j k : Text) (v : V) (m : Dict V)
    → contains j m ≡ true
    → contains j (insert k v m) ≡ true
contains-insert j k v m h = ground (arith, lookup-insert j k v m)

pub contains-insert_self :
    {V : Type 0} (k : Text) (v : V) (m : Dict V) → contains k (insert k v m) ≡ true
contains-insert_self k v m = ground (arith, lookup-insert k k v m, text_eq_refl k)

module _ (name : Text) where
  pub insert-HasReplicas :
      (k : Text) (counters : Dict Counter) (r : Counters)
      → HasReplicas name r
      → IsMap counters
      → HasReplicas name (insert k counters r)
  insert-HasReplicas k counters r h m = record {
    own = contains-insert name k counters r h.own;
    replicas_map = insert-IsMap k counters r h.replicas_map;
    counters_maps = AreMaps-insert k counters r h.counters_maps m;
  }

  pub store_counter-HasReplicas :
      (m n : Text) (c : Counter) (r r' : Counters)
      → HasReplicas name r
      → store_counter m n c r ≡ some r'
      → HasReplicas name r'
  unfolding store_counter
  store_counter-HasReplicas m n c r r' h e = elim (Option-cases (lookup m r)) [
    | inl missing ↦ ground (arith, missing)
    | inr (counters, found) ↦ subst (HasReplicas name) (ground (arith, found, e)) (
        insert-HasReplicas m (insert n c counters) r h
          (insert-IsMap n c counters (IsMap-lookup m r h.counters_maps found)))
  ]

  pub ensure_member-HasReplicas :
      (m : Text) (r : Counters) → HasReplicas name r → HasReplicas name (ensure_member m r)
  unfolding ensure_member
  ensure_member-HasReplicas m r h = elim (Option-cases (lookup m r)) [
    | inl missing ↦ rw (ensure_member, missing) (insert-HasReplicas m [] r h tt)
    | inr (counters, found) ↦ rw (ensure_member, found) h
  ]

  pub merge_at-HasReplicas :
      (m n : Text) (c : Counter) (r : Counters)
      → HasReplicas name r
      → HasReplicas name (merge_at m n c r)
  unfolding merge_at
  merge_at-HasReplicas m n c r h =
      let there = ensure_member m r in
      let kept = ensure_member-HasReplicas m r h in
      elim (Option-cases (store_counter m n (merge (lookup_counter m n there) c) there)) [
        | inl missing ↦ rw (merge_at, missing) kept
        | inr (r', stored) ↦
            rw (merge_at, stored)
              (store_counter-HasReplicas m n (merge (lookup_counter m n there) c) there r' kept
                stored)
      ]

  merge_counters-HasReplicas :
      (m : Text) (counters : Dict Counter) (r : Counters)
      → HasReplicas name r
      → HasReplicas name (merge_counters m counters r)
  unfolding merge_counters
  merge_counters-HasReplicas m [] r h = h
  merge_counters-HasReplicas m ((n, c) ∷ counters) r h =
      merge_counters-HasReplicas m counters (merge_at m n c r) (merge_at-HasReplicas m n c r h)

  pub merge_replicas-HasReplicas :
      (members : States) (remote r : Counters)
      → HasReplicas name r
      → HasReplicas name (merge_replicas members remote r)
  unfolding merge_replicas
  merge_replicas-HasReplicas members [] r h = h
  merge_replicas-HasReplicas members ((m, counters) ∷ remote) r h =
      merge_replicas-HasReplicas members remote
        (if contains m members then merge_counters m counters (ensure_member m r) else r)
        (one (contains m members) m counters r h)
    where
      one :
          (known : Bool) (m : Text) (counters : Dict Counter) (r : Counters)
          → HasReplicas name r
          → HasReplicas name (if known then merge_counters m counters (ensure_member m r) else r)
      one true m counters r h =
          merge_counters-HasReplicas m counters (ensure_member m r)
            (ensure_member-HasReplicas m r h)
      one false m counters r h = h

  pub write_all-HasReplicas :
      (doc r : Counters) → AreMaps doc → HasReplicas name r → HasReplicas name (write_all doc r)
  unfolding write_all
  write_all-HasReplicas [] r maps h = h
  write_all-HasReplicas ((m, counters) ∷ doc) r maps h =
      write_all-HasReplicas doc (insert m counters r) maps.1
        (insert-HasReplicas m counters r h maps.0)

pub merge_members-IsMap :
    (remote members : States) → IsMap members → IsMap (merge_members remote members)
unfolding merge_members
merge_members-IsMap [] members h = h
merge_members-IsMap ((k, st) ∷ remote) members h =
    merge_members-IsMap remote
      (if newer_state (lookup k members) st then insert k st members else members)
      (ground (arith, insert-IsMap k st members h, h))
