-- ===== src/Network/Bounds.antt =====
-- In a cluster whose clients increment, no copy of a counter is above what its owner has.
use mathlib.Core.Path.{subst}
use mathlib.Core.List.{Memᴰ}
use dcounter.Base.{
  ◌≡◌, sym, Option, some, List, [], ◌∷◌, Text, text_eq, eq_of_text_eq, arith, Bool-cases, inl, inr,
}
use dcounter.Counter.{Counter}
use dcounter.Counter.Growth.{All}
use dcounter.Wire.{FloatRep}
use dcounter.Server.{Server, States, Counters, Change, lookup_counter}
use dcounter.Network.{Network, with_server}
use dcounter.Network.Below.{IsCopy, IsCopy-trans, merge_opt-IsCopy}
use dcounter.Network.Absorb.{
  owned, copy, IsFiniteOpt, IsChange, IsSent, IsBounded, Absorbs, owned-Absorbs,
}

pub All-map {ℓ} :
    {A : Type ℓ} {P Q : A → Type 0} (xs : List A) → ((a : A) → P a → Q a) → All P xs → All Q xs
All-map [] f h = tt
All-map (x ∷ xs) f h = (f x h.0, All-map xs f h.1)

pub All-Memᴰ {ℓ} : {A : Type ℓ} (P : A → Type 0) {a : A} {xs : List A} → Memᴰ a xs → All P xs → P a
All-Memᴰ P (Memᴰ.head e) h = subst P (sym e) h.0
All-Memᴰ P (Memᴰ.tail m) h = All-Memᴰ P m h.1

module _ ⦃rep : FloatRep⦄ where
  -- What is in flight stays below owners' counters that do not shrink.
  module _ (a b : Network) (grows : (m n : Text) → IsCopy (owned a m n) (owned b m n)) where
    pub IsChange-grows : (k : Text) (ch : Change) → IsChange a k ch → IsChange b k ch
    IsChange-grows k ch h = record {
      name = h.name;
      counter = h.counter;
      member_line = h.member_line;
      name_line = h.name_line;
      wireable = h.wireable;
      below =
          IsCopy-trans (some h.counter) (owned a k h.name) (owned b k h.name) h.below
            (grows k h.name);
      payload_is = h.payload_is;
    }

    pub IsSent-grows : (state : States × Counters) → IsSent a state → IsSent b state
    IsSent-grows state h = record {
      members_map = h.members_map;
      replicas_map = h.replicas_map;
      counters_maps = h.counters_maps;
      below = λ m n.
          IsCopy-trans (lookup_counter m n state.1) (owned a m n) (owned b m n) (h.below m n)
            (grows m n);
    }

  pub same-IsCopy : (o p q : Option Counter) → q ≡ p → IsCopy o p → IsCopy o q
  same-IsCopy o p q e h = subst (λ x. IsCopy o x) (sym e) h

  -- A server that merges what it gets keeps the bounds.
  pub Absorbs-IsBounded :
      (net : Network) (j : Text) (s : Server)
      → Absorbs net j s
      → IsBounded net
      → IsBounded (with_server j s net)
  Absorbs-IsBounded net j s a h =
      let net' = with_server j s net in
      let grows : (m n : Text) → IsCopy (owned net m n) (owned net' m n) = λ m n.
        same-IsCopy (owned net m n) (owned net m n) (owned net' m n) (owned-Absorbs net j s a m n)
          (h.copies m m n) in
      record {
        named = λ k. elim (Bool-cases (text_eq j k)) [
          | inl here ↦ ground (arith, here, a.name_is, eq_of_text_eq j k here)
          | inr there ↦ ground (arith, there, h.named k)
        ];
        well_formed = λ k. elim (Bool-cases (text_eq j k)) [
          | inl here ↦ rw here a.well_formed
          | inr there ↦ rw there (h.well_formed k)
        ];
        finite = λ m n. subst IsFiniteOpt (sym (owned-Absorbs net j s a m n)) (h.finite m n);
        copies = λ k m n.
            same-IsCopy (copy net' k m n) (owned net m n) (owned net' m n)
              (owned-Absorbs net j s a m n)
              (elim (Bool-cases (text_eq j k)) [
                | inl here ↦ rw here (
                    subst (λ o. IsCopy o (owned net m n)) (sym (a.merged m n))
                      (merge_opt-IsCopy (copy net j m n) (a.came m n) (owned net m n)
                        (h.copies j m n) (a.came_below m n)))
                | inr there ↦ rw there (h.copies k m n)
              ]);
        queues = λ k.
            let same : (net'.servers k).changes ≡ (net.servers k).changes =
              elim (Bool-cases (text_eq j k)) [
                | inl here ↦ ground (arith, here, a.changes_are, eq_of_text_eq j k here)
                | inr there ↦ ground (arith, there)
              ] in
            subst (All (IsChange net' k)) (sym same)
              (All-map (net.servers k).changes (IsChange-grows net net' grows k) (h.queues k));
        states = All-map net.sent (IsSent-grows net net' grows) h.states;
      }
