-- ===== src/Tests/Exchanges.antt =====
-- Servers that exchange messages and states, at concrete states.
use mathlib.Core.List.Perm
use dcounter.Base.{
  ◌+◌, ◌≡◌, refl, if◌then◌else◌, none, some, [], ◌∷◌, Text, text_eq, has_byte, arith,
}
use dcounter.Base.Int.{pos}
use dcounter.Base.Dict.{lookup, contains}
use dcounter.Float.{gt, zero_float, eqb}
use dcounter.Server.{lookup_counter}
use dcounter.Server.Local.{get, list}
use dcounter.Server.Gossip.{active_since, local_state, merge_remote_state}
use dcounter.Server.Convergence.{deliver, gossip_converges}
use dcounter.Server.MergeState.{merge_opt, later_state, merge_remote_state_lem}
use dcounter.Server.Exchange.{push_pull_agree}
use dcounter.Server.Lists.{list-get}
use dcounter.Tests.Rep.{test_rep}
use dcounter.Tests.Counters.{below, counter, counter-numbers, wireable}
use dcounter.Tests.Servers.{a, b, n, server_a, server_b, a_maps, b_maps}

merge_remote_state_lem_example :
    let s' = merge_remote_state (pos 7) (some (server_b.members, server_b.replicas)) server_a in
    ((m : Text)
      → lookup m s'.members ≡ (
          if text_eq a m
          then some (active_since (pos 7))
          else later_state (lookup m server_a.members) (lookup m server_b.members)))
    × ((m k : Text)
        → lookup_counter m k s'.replicas ≡ (
            if contains m s'.members
            then merge_opt
                (lookup_counter m k server_a.replicas)
                (lookup_counter m k server_b.replicas)
            else lookup_counter m k server_a.replicas))
    × (s'.checks ≡ 0 + 1)
merge_remote_state_lem_example =
    merge_remote_state_lem (pos 7) server_b.members server_b.replicas server_a b_maps.members_map
      b_maps.replicas_map b_maps.counters_maps

push_pull_agree_example :
    lookup_counter b n (merge_remote_state (pos 7) (some (local_state server_b)) server_a).replicas
    ≡ lookup_counter b n
        (merge_remote_state (pos 8) (some (local_state server_a)) server_b).replicas
push_pull_agree_example =
    push_pull_agree (pos 7) (pos 8) server_a server_b b n a_maps b_maps
      (unfold lookup_counter text_eq in (refl, counter-numbers 3 0 0, counter-numbers 4 0 0))
      (unfold merge_remote_state local_state text_eq in refl)
      (unfold merge_remote_state local_state text_eq in refl)

list-get_example :
    lookup n (list server_a)
    ≡ (if eqb (get n server_a).0 zero_float then none else some (get n server_a).0)
list-get_example = list-get n server_a a_maps.counters_maps

gossip_converges_example :
    lookup_counter b n
      (deliver b n (counter 4 0 0 ∷ counter 9 2 0 ∷ counter 3 1 0 ∷ []) server_a).replicas
    ≡ some (counter 9 2 0)
gossip_converges_example =
    gossip_converges b n (counter 9 2 0) (counter 4 0 0 ∷ []) (counter 3 1 0 ∷ []) server_a
      (unfold has_byte in refl) (unfold has_byte in refl) (unfold lookup text_eq in refl)
      (
        wireable 4 0 0 refl refl (omega arith),
        (wireable 9 2 0 refl refl (omega arith), (wireable 3 1 0 refl refl (omega arith), tt)),
      )
      (counter-numbers 9 2 0)
      (unfold lookup_counter lookup text_eq in
        below 3 0 9 2 0 (unfold gt in refl) (unfold gt in refl))
      (below 4 0 9 2 0 (unfold gt in refl) (unfold gt in refl), tt)
      (below 3 1 9 2 0 (unfold gt in refl) (unfold gt in refl), tt)
