-- ===== src/Network/Owners.antt =====
-- What an owner's counter comes to along a run of a cluster (server/api.go, server/memberlist.go,
-- server/server.go).
use mathlib.Core.Path.{subst}
use dcounter.Base.{
  Bool, ◌≡◌, ◌∙◌, refl, sym, ap, true, false, Option, none, List, Text, text_eq, eq_of_text_eq,
  arith, Bool-cases, inl, inr,
}
use dcounter.Base.Int.{ℤ}
use dcounter.Float.{zero_float, ◌+F◌}
use dcounter.Float.Laws.{+F_zero}
use dcounter.Counter.{Counter}
use dcounter.Wire.{FloatRep}
use dcounter.Server.{Server, lookup_counter}
use dcounter.Server.Gossip.{notify_join, notify_leave, update_consistent}
use dcounter.Server.Run
use dcounter.Server.Run.Invariants.{Step-IsWellFormed}
use dcounter.Server.Totals.{value_or_zero}
use dcounter.Network.{
  update, Network, Step, Reach, incremented, delivered, state_sent, state_merged, node_joined,
  node_left, checked, unmoved, next, fresh,
}
use dcounter.Network.Absorb.{owned, IsChange, IsSent, IsBounded, Absorbs, owned-Absorbs}
use dcounter.Network.Moves.{delivered-Absorbs, state_merged-Absorbs, idle-Absorbs}
use dcounter.Network.Bounds.{All-Memᴰ}
use dcounter.Network.Increment.{owned_after, value-grown}
use dcounter.Network.Reached.{Reach-IsBounded, fresh_empty, leave_keeps}
use dcounter.Network.Counts.{is_in, step_amount, step_by, counted_by, is_by}

module _ ⦃rep : FloatRep⦄ where
  abbrev pub is_increment : {a b : Network} → Step a b → Bool
  is_increment (incremented k name diff v s _ _ _ _ _) = true
  is_increment (delivered k j c _) = false
  is_increment (state_sent k) = false
  is_increment (state_merged j now state _) = false
  is_increment (node_joined j now node) = false
  is_increment (node_left j now node) = false
  is_increment (checked j nodes k _) = false

  -- A step that is no increment merges copies into one server at most.
  pub Step-moves :
      {a b : Network} (step : Step a b)
      → IsBounded a
      → is_increment step ≡ false
      → (j : Text) × (s : Server) × Absorbs a j s
        × ((k : Text) → b.servers k ≡ update j s a.servers k)
  unfolding notify_join update_consistent
  Step-moves (incremented k name diff v s _ _ _ _ _) h e = ground (arith, e)
  Step-moves {a} (delivered k j c mem) h e =
      (j, _, delivered-Absorbs a h j k c (All-Memᴰ (IsChange a k) mem (h.queues k)), λ k. refl)
  Step-moves {a} (state_sent k) h e = (
    k,
    a.servers k,
    idle-Absorbs a h k (a.servers k) refl refl refl (h.well_formed k),
    λ i. elim (Bool-cases (text_eq k i)) [
      | inl here ↦ rw here (ap a.servers (sym (eq_of_text_eq k i here)))
      | inr there ↦ rw there refl
    ],
  )
  Step-moves {a} (state_merged j now state mem) h e =
      (j, _, state_merged-Absorbs a h j now state (All-Memᴰ (IsSent a) mem h.states), λ k. refl)
  Step-moves {a} (node_joined j now node) h e = (
    j,
    _,
    idle-Absorbs a h j (notify_join now node (a.servers j)) refl refl refl
        (Step-IsWellFormed (Run.Step.node_joined now node) (h.well_formed j)),
    λ k. refl,
  )
  Step-moves {a} (node_left j now node) h e =
      let keeps = leave_keeps now node (a.servers j) in
      (
        j,
        _,
        idle-Absorbs a h j (notify_leave now node (a.servers j)) keeps.0 keeps.1 keeps.2
            (Step-IsWellFormed (Run.Step.node_left now node) (h.well_formed j)),
        λ k. refl,
      )
  Step-moves {a} (checked j nodes k c) h e = (
    j,
    _,
    idle-Absorbs a h j _ refl refl refl
        (Step-IsWellFormed (Run.Step.checked nodes k c) (h.well_formed j)),
    λ k. refl,
  )

  -- Only an increment moves what an owner holds.
  pub Step-still :
      {a b : Network} (step : Step a b)
      → IsBounded a
      → is_increment step ≡ false
      → (m n : Text) → owned b m n ≡ owned a m n
  Step-still {a} step h e m n =
      let (j, s, absorbs, moves) = Step-moves step h e in
      ap (λ x. lookup_counter m n x.replicas) (moves m) ∙ owned-Absorbs a j s absorbs m n

  kept : (o o' : Option Counter) → o' ≡ o → value_or_zero o' ≡ value_or_zero o +F zero_float
  kept o o' e = ap value_or_zero e ∙ sym (+F_zero (value_or_zero o))

  Step-value :
      {a b : Network} (step : Step a b)
      → IsBounded a
      → (m n : Text)
      → value_or_zero (owned b m n) ≡ value_or_zero (owned a m n) +F step_amount step m n
  Step-value {a} (incremented k name diff v s k_line name_line finite incs wireable) h m n =
      let after = owned_after a h k name diff v s k_line name_line finite incs m n in
      let grown = value-grown a h k name diff v s k_line name_line finite incs in
      elim (Bool-cases (text_eq k m)) [
        | inl here ↦ elim (Bool-cases (text_eq name n)) [
          | inl this ↦
              ground
                (arith, after, here, this, grown, eq_of_text_eq k m here, eq_of_text_eq name n this)
          | inr other ↦ ground (arith, after, here, other, +F_zero (value_or_zero (owned a m n)))
        ]
        | inr there ↦ ground (arith, after, there, +F_zero (value_or_zero (owned a m n)))
      ]
  Step-value {a} {b} (delivered k j c mem) h m n =
      kept (owned a m n) (owned b m n) (Step-still (delivered k j c mem) h refl m n)
  Step-value {a} (state_sent k) h m n = kept (owned a m n) (owned a m n) refl
  Step-value {a} {b} (state_merged j now state mem) h m n =
      kept (owned a m n) (owned b m n) (Step-still (state_merged j now state mem) h refl m n)
  Step-value {a} {b} (node_joined j now node) h m n =
      kept (owned a m n) (owned b m n) (Step-still (node_joined j now node) h refl m n)
  Step-value {a} {b} (node_left j now node) h m n =
      kept (owned a m n) (owned b m n) (Step-still (node_left j now node) h refl m n)
  Step-value {a} {b} (checked j nodes k c) h m n =
      kept (owned a m n) (owned b m n) (Step-still (checked j nodes k c) h refl m n)

  -- An owner's counter has the value of what its clients counted.
  pub owned-counted_by :
      (at : Text → ℤ) (net : Network) (r : Reach (fresh at) net) (m n : Text)
      → value_or_zero (owned net m n) ≡ counted_by r m n
  owned-counted_by at net unmoved m n = ap value_or_zero (fresh_empty (at m) m m n)
  owned-counted_by at net (next {a} r step) m n =
      Step-value step (Reach-IsBounded at a r) m n
      ∙ ap (λ x. x +F step_amount step m n) (owned-counted_by at a r m n)

  Step-none :
      {a b : Network} (ms : List Text) (step : Step a b)
      → IsBounded a
      → step_by ms step ≡ true
      → (m n : Text) → is_in m ms ≡ false
      → owned a m n ≡ none
      → owned b m n ≡ none
  Step-none {a} ms (incremented k name diff v s k_line name_line finite incs wireable) h by m n out
        e =
      let after = owned_after a h k name diff v s k_line name_line finite incs m n in
      elim (Bool-cases (text_eq k m)) [
        | inl here ↦
            let inside : is_in m ms ≡ true =
              subst (λ x. is_in x ms ≡ true) (eq_of_text_eq k m here) by in
            ground (arith, inside, out)
        | inr there ↦ after ∙ rw there e
      ]
  Step-none ms (delivered k j c mem) h by m n out e =
      Step-still (delivered k j c mem) h refl m n ∙ e
  Step-none ms (state_sent k) h by m n out e = e
  Step-none ms (state_merged j now state mem) h by m n out e =
      Step-still (state_merged j now state mem) h refl m n ∙ e
  Step-none ms (node_joined j now node) h by m n out e =
      Step-still (node_joined j now node) h refl m n ∙ e
  Step-none ms (node_left j now node) h by m n out e =
      Step-still (node_left j now node) h refl m n ∙ e
  Step-none ms (checked j nodes k c) h by m n out e =
      Step-still (checked j nodes k c) h refl m n ∙ e

  -- A member at which no client increments has no counters of its own.
  pub owned-others :
      (at : Text → ℤ) (net : Network) (ms : List Text) (r : Reach (fresh at) net)
      → is_by ms r ≡ true
      → (m n : Text) → is_in m ms ≡ false
      → owned net m n ≡ none
  owned-others at net ms unmoved by m n out = fresh_empty (at m) m m n
  owned-others at net ms (next {a} r step) by m n out =
      Step-none ms step (Reach-IsBounded at a r) (ground (arith, by)) m n out
        (owned-others at a ms r (ground (arith, by)) m n out)
