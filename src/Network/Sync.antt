-- ===== src/Network/Sync.antt =====
-- A server that gets a full state from each member has all of their counters (LocalState and
-- MergeRemoteState of server/memberlist.go): the cluster can always catch up.
use mathlib.Core.List.{Memᴰ}
use mathlib.Core.Path.{subst}
use dcounter.Base.{
  ◌≡◌, ◌∙◌, refl, ap, true, false, Option, none, some, ◌∷◌, Text, text_eq, text_eq_refl, arith,
}
use dcounter.Base.Int.{ℤ}
use dcounter.Base.Dict.{lookup, contains}
use dcounter.Counter.{Counter, merge}
use dcounter.Counter.Merge.{AreNumbers}
use dcounter.Counter.Growth.{IsFiniteCounter, merge-top}
use dcounter.Float.Laws.{IsFinite-IsNumber}
use dcounter.Wire.{FloatRep}
use dcounter.Server.{Server, State, lookup_counter}
use dcounter.Server.Gossip.{local_state, newer_state, merge_remote_state}
use dcounter.Server.MergeState.{merge_opt, later_state, merge_remote_state_lem}
use dcounter.Network.{Network, with_server, state_sent, state_merged, Reach, next}
use dcounter.Network.Below.{IsCopy, merge_opt-stays}
use dcounter.Network.Absorb.{owned, copy, IsFiniteOpt, IsBounded, Absorbs, owned-Absorbs}
use dcounter.Network.Moves.{state_merged-Absorbs}
use dcounter.Network.Reached.{Step-IsBounded}

finite-AreNumbers : (d : Counter) → IsFiniteCounter d → AreNumbers d
finite-AreNumbers d h = record {
  up_number = IsFinite-IsNumber d.up h.up_finite;
  down_number = IsFinite-IsNumber d.down h.down_finite;
}

-- What is above the counter at hand replaces it.
merge_opt-top : (o p : Option Counter) → IsCopy o p → IsFiniteOpt p → merge_opt o p ≡ p
merge_opt-top none none h f = refl
merge_opt-top (some a) none h f = absurd h
merge_opt-top none (some d) h f = unfold merge in refl
merge_opt-top (some a) (some d) h f = ap some (merge-top a d (finite-AreNumbers d f) h)

later_known :
    (o : Option State) (p : Option State)
    → (elim p [ none ↦ false | some v ↦ true ]) ≡ true
    → (elim (later_state o p) [ none ↦ false | some v ↦ true ]) ≡ true
unfolding newer_state
later_known none none h = h
later_known (some x) none h = refl
later_known none (some y) h = refl
later_known (some x) (some y) h = ground arith

-- Member `m` sends its full state to server `j`, which merges it.
abbrev pub pulled : Text → Network → Network
pulled m net = record net { sent = local_state (net.servers m) ∷ net.sent }

abbrev pub pull : ℤ → Text → Text → Network → Network
pull now m j net =
    with_server j (merge_remote_state now (some (local_state (net.servers m))) (net.servers j))
      (pulled m net)

module _ ⦃rep : FloatRep⦄ where
  pub pull-Reach :
      {x : Network} (now : ℤ) (m j : Text) (net : Network)
      → Reach x net
      → Reach x (pull now m j net)
  pull-Reach now m j net r =
      next (next r (state_sent m))
        (state_merged j now (local_state (net.servers m)) (Memᴰ.head refl))

  module _ (now : ℤ) (m j : Text) (net : Network) (h : IsBounded net) where
    sent_now : IsBounded (pulled m net)
    sent_now = Step-IsBounded (state_sent m) h

    absorbs :
        Absorbs
          (pulled m net)
          j
          (merge_remote_state now (some (local_state (net.servers m))) (net.servers j))
    absorbs =
        state_merged-Absorbs (pulled m net) sent_now j now (local_state (net.servers m))
          sent_now.states.0

    pub owned-pull : (k n : Text) → owned (pull now m j net) k n ≡ owned net k n
    owned-pull =
        owned-Absorbs (pulled m net) j
          (merge_remote_state now (some (local_state (net.servers m))) (net.servers j)) absorbs

    abbrev after : Server
    after = merge_remote_state now (some (local_state (net.servers m))) (net.servers j)

    at_j : (k n : Text) → copy (pull now m j net) j k n ≡ lookup_counter k n after.replicas
    at_j k n = rw (text_eq_refl j)

    -- The other servers are as before.
    pub copy-pull_ne :
        (i k n : Text) → text_eq j i ≡ false → copy (pull now m j net) i k n ≡ copy net i k n
    copy-pull_ne i k n e = ground (arith, e)

    -- What is up to date stays so.
    pub copy-pull_synced :
        (k n : Text)
        → copy net j k n ≡ owned net k n
        → copy (pull now m j net) j k n ≡ owned net k n
    copy-pull_synced k n e =
        at_j k n
        ∙ absorbs.merged k n
        ∙ ap (λ o. merge_opt o (absorbs.came k n)) e
        ∙ merge_opt-stays (owned net k n) (absorbs.came k n) (absorbs.came_below k n)

    sender_known : contains m after.members ≡ true
    unfolding local_state
    sender_known =
        let from = net.servers m in
        let merges =
          merge_remote_state_lem now from.members from.replicas (net.servers j)
            (h.well_formed m).members_map (h.well_formed m).replicas_ok.replicas_map
            (h.well_formed m).replicas_ok.counters_maps in
        let self : contains m from.members ≡ true =
          subst (λ k. contains k from.members ≡ true) (h.named m) (h.well_formed m).self_member in
        let later = later_known (lookup m (net.servers j).members) (lookup m from.members) self in
        ground (arith, merges.0 m, later)

    -- The counters of the member that has sent its state are up to date.
    pub copy-pull : (n : Text) → copy (pull now m j net) j m n ≡ owned net m n
    unfolding local_state
    copy-pull n =
        let from = net.servers m in
        let merges =
          merge_remote_state_lem now from.members from.replicas (net.servers j)
            (h.well_formed m).members_map (h.well_formed m).replicas_ok.replicas_map
            (h.well_formed m).replicas_ok.counters_maps in
        at_j m n
        ∙ merges.1 m n
        ∙ rw sender_known
            (merge_opt-top (copy net j m n) (owned net m n) (h.copies j m n) (h.finite m n))
