-- ===== src/Server/MergeState.antt =====
-- What a full state from another server does: MergeRemoteState (server/memberlist.go).
use mathlib.Core.Path.{subst}
use dcounter.Base.{
  ◌+◌, ◌≡◌, ◌∙◌, refl, sym, ap, false, Option, none, some, [], ◌∷◌, Text, text_eq, text_eq_iff,
  eq_of_text_eq, text_eq_refl, if◌then◌else◌, arith, Bool-cases, inl, inr,
}
use dcounter.Base.Int.{ℤ}
use dcounter.Base.Dict.{Dict, lookup, insert, contains, IsMap, lookup-insert}
use dcounter.Counter.{Counter, merge}
use dcounter.Server.{Server, State, States, Counters, lookup_counter, ensure_member}
use dcounter.Server.Messages.{merge_at}
use dcounter.Server.Gossip.{
  active_since, newer_state, merge_members, merge_counters, merge_replicas, merge_remote_state,
}
use dcounter.Server.Maps.{lookup_counter-ensure_member, lookup_counter-merge_at}
use dcounter.Server.Lists.{AreMaps}

-- A counter that may be there, after the merge of one that may have come.
abbrev pub merge_opt : Option Counter → Option Counter → Option Counter
merge_opt o none = o
merge_opt o (some c) = some (merge o c)

-- The later of two states of a member; the one at hand, if they are of one time.
abbrev pub later_state : Option State → Option State → Option State
later_state o none = o
later_state o (some st) = if newer_state o st then some st else o

lookup-head :
    {V : Type 0} (n k : Text) (v : V) (m : Dict V)
    → lookup n ((k, v) ∷ m) ≡ (if text_eq k n then some v else lookup n m)
unfolding lookup
lookup-head n k v m = refl

pub lookup_counter-head :
    (m n k : Text) (v : Dict Counter) (r : Counters)
    → lookup_counter m n ((k, v) ∷ r) ≡ (if text_eq k m then lookup n v else lookup_counter m n r)
unfolding lookup_counter
lookup_counter-head m n k v r = ground arith

pub lookup_counter-missing :
    (m n : Text) (r : Counters) → lookup m r ≡ none → lookup_counter m n r ≡ none
unfolding lookup_counter
lookup_counter-missing m n r e = ground arith

merge_counters-ne :
    (m n member : Text) (counters : Dict Counter) (r : Counters)
    → text_eq member m ≡ false
    → lookup_counter m n (merge_counters member counters r) ≡ lookup_counter m n r
unfolding merge_counters
merge_counters-ne m n member [] r ne = refl
merge_counters-ne m n member ((name, c) ∷ counters) r ne =
    merge_counters-ne m n member counters (merge_at member name c r) ne
    ∙ lookup_counter-merge_at m n member name c r
    ∙ rw ne

merge_counters_self :
    (n member : Text) (counters : Dict Counter) (r : Counters)
    → IsMap counters
    → lookup_counter member n (merge_counters member counters r)
      ≡ merge_opt (lookup_counter member n r) (lookup n counters)
unfolding merge_counters
merge_counters_self n member [] r h = unfold lookup in refl
merge_counters_self n member ((name, c) ∷ counters) r h =
    merge_counters_self n member counters (merge_at member name c r) h.1
    ∙ elim (Bool-cases (text_eq name n)) [
      | inl same ↦
          let gone : lookup n counters ≡ none =
            ap (λ k. lookup k counters) (sym (eq_of_text_eq name n same)) ∙ h.0 in
          ground (
            arith,
            gone,
            same,
            eq_of_text_eq name n same,
            lookup-head n name c counters,
            text_eq_refl member,
            lookup_counter-merge_at member n member name c r,
          )
      | inr other ↦ ground (
        arith,
        other,
        lookup-head n name c counters,
        lookup_counter-merge_at member n member name c r,
      )
    ]

-- One member's part of the loop, if the member is known.
merge_member :
    (m n member : Text) (counters : Dict Counter) (r : Counters)
    → IsMap counters
    → lookup_counter m n (merge_counters member counters (ensure_member member r)) ≡ (
        if text_eq member m
        then merge_opt (lookup_counter m n r) (lookup n counters)
        else lookup_counter m n r)
merge_member m n member counters r h = elim (Bool-cases (text_eq member m)) [
  | inl same ↦
      let e : member ≡ m = eq_of_text_eq member m same in
      rw same (
        subst
          (λ k.
            lookup_counter k n (merge_counters member counters (ensure_member member r))
            ≡ merge_opt (lookup_counter k n r) (lookup n counters))
          e
          (merge_counters_self n member counters (ensure_member member r) h
            ∙ ap (λ o. merge_opt o (lookup n counters))
                (lookup_counter-ensure_member member n member r)))
  | inr other ↦ rw other (
      merge_counters-ne m n member counters (ensure_member member r) other
      ∙ lookup_counter-ensure_member m n member r)
]

pub lookup_counter-merge_replicas :
    (m n : Text) (members : States) (remote r : Counters)
    → IsMap remote
    → AreMaps remote
    → lookup_counter m n (merge_replicas members remote r) ≡ (
        if contains m members
        then merge_opt (lookup_counter m n r) (lookup_counter m n remote)
        else lookup_counter m n r)
unfolding merge_replicas
lookup_counter-merge_replicas m n members [] r h maps = unfold lookup_counter in ground arith
lookup_counter-merge_replicas m n members ((member, counters) ∷ remote) r h maps =
    elim (Bool-cases (contains member members)) [
      | inl known ↦ ground (
        arith,
        known,
        lookup_counter-head m n member counters remote,
        merge_member m n member counters r maps.0,
        lookup_counter-merge_replicas m n members remote
            (merge_counters member counters (ensure_member member r)) h.1 maps.1,
        lookup_counter-missing member n remote h.0,
        text_eq_iff member m,
      )
      | inr unknown ↦ ground (
        arith,
        unknown,
        lookup_counter-head m n member counters remote,
        lookup_counter-merge_replicas m n members remote r h.1 maps.1,
        text_eq_iff member m,
      )
    ]

lookup-merge_members :
    (m : Text) (remote members : States)
    → IsMap remote
    → lookup m (merge_members remote members) ≡ later_state (lookup m members) (lookup m remote)
unfolding merge_members
lookup-merge_members m [] members h = unfold lookup in refl
lookup-merge_members m ((k, st) ∷ remote) members h =
    let members' = if newer_state (lookup k members) st then insert k st members else members in
    let after : lookup m members'
        ≡ (if text_eq k m then later_state (lookup m members) (some st) else lookup m members) =
      ground (arith, lookup-insert m k st members, text_eq_iff k m) in
    ground (
      arith,
      lookup-merge_members m remote members' h.1,
      after,
      lookup-head m k st remote,
      h.0,
      text_eq_iff k m,
    )

-- A full state from another server, which holds maps as Go has them: of each member the later state
-- is kept, but the server itself is active from now on; each counter of a member that is then known
-- is the merge of the two servers' counters, and the other counters are as before. A check is
-- started.
pub merge_remote_state_lem :
    (now : ℤ) (members : States) (replicas : Counters) (s : Server)
    → IsMap members
    → IsMap replicas
    → AreMaps replicas
    → let s' = merge_remote_state now (some (members, replicas)) s in
      ((m : Text)
        → lookup m s'.members ≡ (
            if text_eq s.name m
            then some (active_since now)
            else later_state (lookup m s.members) (lookup m members)))
      × ((m n : Text)
          → lookup_counter m n s'.replicas ≡ (
              if contains m s'.members
              then merge_opt (lookup_counter m n s.replicas) (lookup_counter m n replicas)
              else lookup_counter m n s.replicas))
      × (s'.checks ≡ s.checks + 1)
unfolding merge_remote_state
merge_remote_state_lem now members replicas s hm hr maps =
    let members' = insert s.name (active_since now) (merge_members members s.members) in
    (
      λ m.
          lookup-insert m s.name (active_since now) (merge_members members s.members)
          ∙ ap (λ o. if text_eq s.name m then some (active_since now) else o)
              (lookup-merge_members m members s.members hm),
      λ m n. lookup_counter-merge_replicas m n members' replicas s.replicas hr maps,
      refl,
    )
