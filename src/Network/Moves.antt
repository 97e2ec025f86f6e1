-- ===== src/Network/Moves.antt =====
-- The steps of a cluster that merge what comes, one by one.
use mathlib.Core.Path.{subst}
use dcounter.Base.{
  Bool, ◌≡◌, ◌∙◌, refl, ap, true, false, ◌&&◌, Option, none, some, Text, text_eq, text_eq_iff,
  eq_of_text_eq, if◌then◌else◌, arith,
}
use dcounter.Base.Dict.{contains}
use dcounter.Base.Int.{ℤ}
use dcounter.Counter.{Counter}
use dcounter.Wire.{FloatRep}
use dcounter.Server.{Server, States, Counters, Change, lookup_counter, change_payload}
use dcounter.Server.Messages.{merge_at, notify_msg}
use dcounter.Server.Maps.{lookup_counter-merge_at}
use dcounter.Server.Delivery.{notify_msg-change_bytes}
use dcounter.Server.Gossip.{merge_remote_state}
use dcounter.Server.Invariant.{IsWellFormed}
use dcounter.Server.Run.{Step}
use dcounter.Server.Run.Messages.{notify_msg-IsWellFormed}
use dcounter.Server.Run.Invariants.{Step-IsWellFormed}
use dcounter.Server.MergeState.{merge_remote_state_lem}
use dcounter.Network.{Network}
use dcounter.Network.Below.{IsCopy}
use dcounter.Network.Absorb.{owned, IsChange, IsSent, IsBounded, Absorbs}

-- What one message brings for a counter.
abbrev pub brought : Text → Text → Counter → Server → Text → Text → Option Counter
brought k name c s m n =
    if contains k s.members && (text_eq k m && text_eq name n) then some c else none

-- What a full state brings for a counter.
abbrev pub brought_by : Counters → Server → Text → Text → Option Counter
brought_by replicas s m n = if contains m s.members then lookup_counter m n replicas else none

if-IsCopy :
    (b : Bool) (o p : Option Counter) → (b ≡ true → IsCopy o p) → IsCopy (if b then o else none) p
if-IsCopy true o p h = h refl
if-IsCopy false o p h = tt

module _ ⦃rep : FloatRep⦄ (net : Network) (h : IsBounded net) (j : Text) where
  pub delivered-Absorbs :
      (k : Text) (ch : Change)
      → IsChange net k ch
      → Absorbs net j (notify_msg (change_payload ch) (net.servers j))
  delivered-Absorbs k ch q =
      let s = net.servers j in
      let s' = notify_msg (change_payload ch) s in
      let got : s' ≡ (
          if contains k s.members
          then record s { replicas = merge_at k q.name q.counter s.replicas }
          else s) =
        ap (λ p. notify_msg p s) q.payload_is
        ∙ notify_msg-change_bytes k q.name q.counter s q.member_line q.name_line q.wireable in
      record {
        came = brought k q.name q.counter s;
        name_is = ground (arith, got, h.named j);
        changes_are = ground (arith, got);
        well_formed = notify_msg-IsWellFormed (change_payload ch) s (h.well_formed j);
        came_below = λ m n.
            if-IsCopy (contains k s.members && (text_eq k m && text_eq q.name n)) (some q.counter)
              (owned net m n)
              (λ yes.
                subst (λ x. IsCopy (some q.counter) (owned net x n))
                  (eq_of_text_eq k m (ground (arith, yes)))
                  (subst (λ y. IsCopy (some q.counter) (owned net k y))
                    (eq_of_text_eq q.name n (ground (arith, yes))) q.below));
        merged = λ m n. ground (
          arith,
          got,
          lookup_counter-merge_at m n k q.name q.counter s.replicas,
          text_eq_iff k m,
          text_eq_iff q.name n,
        );
      }

  pub state_merged-Absorbs :
      (now : ℤ) (state : States × Counters)
      → IsSent net state
      → Absorbs net j (merge_remote_state now (some state) (net.servers j))
  unfolding merge_remote_state
  state_merged-Absorbs now state q =
      let s = net.servers j in
      let s' = merge_remote_state now (some state) s in
      let merges =
        merge_remote_state_lem now state.0 state.1 s q.members_map q.replicas_map q.counters_maps in
      record {
        came = brought_by state.1 s';
        name_is = h.named j;
        changes_are = refl;
        well_formed = Step-IsWellFormed (Step.got_state now state.0 state.1) (h.well_formed j);
        came_below = λ m n.
            if-IsCopy (contains m s'.members) (lookup_counter m n state.1) (owned net m n)
              (λ known. q.below m n);
        merged = λ m n. ground (arith, merges.1 m n);
      }

  -- A step that neither takes nor sends counters.
  pub idle-Absorbs :
      (s : Server)
      → s.name ≡ (net.servers j).name
      → s.changes ≡ (net.servers j).changes
      → s.replicas ≡ (net.servers j).replicas
      → IsWellFormed s
      → Absorbs net j s
  idle-Absorbs s e f g w = record {
    came = λ m n. none;
    name_is = e ∙ h.named j;
    changes_are = f;
    well_formed = w;
    came_below = λ m n. tt;
    merged = λ m n. ap (lookup_counter m n) g;
  }
