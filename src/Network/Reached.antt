-- ===== src/Network/Reached.antt =====
-- Every cluster that is reached from fresh servers keeps the bounds.
use mathlib.Core.Path.{subst}
use dcounter.Base.{sym, ◌∷◌, ◌≡◌, refl, none, Text, arith, ◌==◌, Bool-cases, inl, inr}
use dcounter.Base.Int.{ℤ}
use dcounter.Base.Dict.{lookup, insert}
use dcounter.Base.Result.{Result-cases}
use dcounter.Wire.{FloatRep}
use dcounter.Server.{Server, Node, lookup_counter}
use dcounter.Server.Gossip.{local_state, notify_join, notify_leave, decode_meta, update_consistent}
use dcounter.Server.Lifecycle.{new_server, start}
use dcounter.Server.Run.Invariants.{Step-IsWellFormed, start-IsWellFormed}
use dcounter.Server.Run
use dcounter.Network.{
  Network, Step, incremented, delivered, state_sent, state_merged, node_joined, node_left, checked,
  Reach, unmoved, next, fresh,
}
use dcounter.Network.Below.{IsCopy}
use dcounter.Network.Absorb.{IsFiniteOpt, owned, copy, IsSent, IsChange, IsBounded}
use dcounter.Network.Bounds.{IsChange-grows, IsSent-grows, All-map, All-Memᴰ, Absorbs-IsBounded}
use dcounter.Network.Moves.{delivered-Absorbs, state_merged-Absorbs, idle-Absorbs}
use dcounter.Network.Increment.{incremented-IsBounded}

pub leave_keeps :
    (now : ℤ) (node : Node) (s : Server)
    → ((notify_leave now node s).name ≡ s.name)
      × ((notify_leave now node s).changes ≡ s.changes)
      × ((notify_leave now node s).replicas ≡ s.replicas)
unfolding notify_leave
leave_keeps now node s = elim (Result-cases (decode_meta node.meta)) [
  | inr (x, bad) ↦ ground (arith, bad)
  | inl (leaving, read) ↦ elim (Bool-cases (leaving == 0)) [
    | inl crashed ↦ ground (arith, read, crashed)
    | inr said ↦ ground (arith, read, said)
  ]
]

-- A server that was started holds no counter.
pub fresh_empty :
    (now : ℤ) (k m n : Text)
    → lookup_counter m n (start none none now (new_server k)).0.replicas ≡ none
unfolding start new_server insert lookup_counter lookup
fresh_empty now k m n = ground arith

module _ ⦃rep : FloatRep⦄ where
  pub Step-IsBounded : {a b : Network} → Step a b → IsBounded a → IsBounded b
  unfolding notify_join update_consistent local_state
  Step-IsBounded {a} (incremented k name diff v s k_line name_line finite incs wireable) h =
      incremented-IsBounded a h k name diff v s k_line name_line finite incs wireable
  Step-IsBounded {a} (delivered k j c m) h =
      Absorbs-IsBounded a j _ (delivered-Absorbs a h j k c (All-Memᴰ (IsChange a k) m (h.queues k)))
        h
  Step-IsBounded {a} (state_sent k) h =
      let b : Network = record a { sent = local_state (a.servers k) ∷ a.sent } in
      let same : (m n : Text) → IsCopy (owned a m n) (owned b m n) = λ m n. h.copies m m n in
      record {
        named = h.named;
        well_formed = h.well_formed;
        finite = h.finite;
        copies = h.copies;
        queues = λ j. All-map (a.servers j).changes (IsChange-grows a b same j) (h.queues j);
        states = (
          record {
            members_map = (h.well_formed k).members_map;
            replicas_map = (h.well_formed k).replicas_ok.replicas_map;
            counters_maps = (h.well_formed k).replicas_ok.counters_maps;
            below = h.copies k;
          },
          All-map a.sent (IsSent-grows a b same) h.states,
        );
      }
  Step-IsBounded {a} (state_merged j now state m) h =
      Absorbs-IsBounded a j _
        (state_merged-Absorbs a h j now state (All-Memᴰ (IsSent a) m h.states)) h
  Step-IsBounded {a} (node_joined j now node) h =
      Absorbs-IsBounded a j _
        (idle-Absorbs a h j (notify_join now node (a.servers j)) refl refl refl
          (Step-IsWellFormed (Run.Step.node_joined now node) (h.well_formed j)))
        h
  Step-IsBounded {a} (node_left j now node) h =
      let keeps = leave_keeps now node (a.servers j) in
      Absorbs-IsBounded a j _
        (idle-Absorbs a h j (notify_leave now node (a.servers j)) keeps.0 keeps.1 keeps.2
          (Step-IsWellFormed (Run.Step.node_left now node) (h.well_formed j)))
        h
  Step-IsBounded {a} (checked j nodes k e) h =
      Absorbs-IsBounded a j _
        (idle-Absorbs a h j _ refl refl refl
          (Step-IsWellFormed (Run.Step.checked nodes k e) (h.well_formed j)))
        h

  fresh-IsBounded : (now : Text → ℤ) → IsBounded (fresh now)
  unfolding start new_server
  fresh-IsBounded now = record {
    named = λ k. refl;
    well_formed = λ k. start-IsWellFormed k (now k);
    finite = λ m n. subst IsFiniteOpt (sym (fresh_empty (now m) m m n)) tt;
    copies =
        λ k m n. subst (λ o. IsCopy o (owned (fresh now) m n)) (sym (fresh_empty (now k) k m n)) tt;
    queues = λ k. tt;
    states = tt;
  }

  pub Reach-IsBounded : (now : Text → ℤ) (net : Network) → Reach (fresh now) net → IsBounded net
  Reach-IsBounded now net unmoved = fresh-IsBounded now
  Reach-IsBounded now net (next {a} r step) = Step-IsBounded step (Reach-IsBounded now a r)

  -- In a cluster of started servers whose clients only increment, by finite amounts, and whose
  -- messages and full states come in any order, late, again or never: what any server holds of a
  -- member's counter is of the revision that the member has and in neither field above it.
  pub copies_below_owners :
      (now : Text → ℤ) (net : Network)
      → Reach (fresh now) net
      → (k m n : Text) → IsCopy (copy net k m n) (owned net m n)
  copies_below_owners now net r = (Reach-IsBounded now net r).copies
