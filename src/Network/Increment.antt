-- ===== src/Network/Increment.antt =====
-- An increment in a cluster: the owner's counter grows, and with it the bound on all copies.
use mathlib.Core.Path.{subst}
use dcounter.Base.{
  has_byte, ◌≡◌, ◌∙◌, refl, sym, ap, true, false, ◌&&◌, Option, none, some, List, [], ◌∷◌, ◌++◌,
  Text, text_eq, text_eq_refl, eq_of_text_eq, if◌then◌else◌, arith, Bool-cases, Option-cases, inl,
  inr,
}
use dcounter.Float.{Float, ◌+F◌}
use dcounter.Float.Laws.{IsFinite}
use dcounter.Counter.{Counter, value, inc_counter}
use dcounter.Server.Totals.{value_or_zero}
use dcounter.Counter.Growth.{All, IsBelow, IsFiniteCounter, inc_counter_grows}
use dcounter.Wire.{FloatRep, newline, change_bytes}
use dcounter.Wire.RoundTrip.{IsWireable}
use dcounter.Server.{
  Server, Counters, new_change, change_payload, lookup_counter, store_counter, broadcast_change,
}
use dcounter.Server.Local.{inc}
use dcounter.Server.Maps.{lookup_counter-store_counter}
use dcounter.Server.Reads.{own_counter, or_empty, value-or_empty}
use dcounter.Server.Run.Client.{inc-IsWellFormed, inc-own_write}
use dcounter.Network.{Network, with_server}
use dcounter.Network.Below.{IsCopy, IsCopy-trans, IsCopy-self, IsBelow-refl}
use dcounter.Network.Absorb.{owned, copy, IsFiniteOpt, IsChange, IsBounded}
use dcounter.Network.Bounds.{All-map, IsChange-grows, IsSent-grows}

All-append {ℓ} :
    {A : Type ℓ} (P : A → Type 0) (xs ys : List A) → All P xs → All P ys → All P (xs ++ ys)
All-append P [] ys hx hy = hy
All-append P (x ∷ xs) ys hx hy = (hx.0, All-append P xs ys hx.1 hy)

or_empty-IsFinite : (o : Option Counter) → IsFiniteOpt o → IsFiniteCounter (or_empty o)
or_empty-IsFinite none h = record { up_finite = tt; down_finite = tt }
or_empty-IsFinite (some c) h = h

below_empty : (o : Option Counter) (d : Counter) → IsBelow (or_empty o) d → IsCopy o (some d)
below_empty none d h = tt
below_empty (some c) d h = h

module _ ⦃rep : FloatRep⦄ (net : Network) (h : IsBounded net) (k name : Text) (diff v : Float)
    (s : Server) (k_line : has_byte newline k ≡ false) (name_line : has_byte newline name ≡ false)
    (finite : IsFinite diff) (incs : inc name diff (net.servers k) ≡ some (v, s)) where
  abbrev pub before : Server
  before = net.servers k

  abbrev pub grown : Counter
  grown = inc_counter diff (own_counter name before)

  grows_by : IsBelow (own_counter name before) grown × IsFiniteCounter grown
  grows_by =
      let own = or_empty-IsFinite (lookup_counter before.name name before.replicas) (
        subst (λ x. IsFiniteOpt (lookup_counter x name before.replicas)) (sym (h.named k))
          (h.finite k name)) in
      let g = inc_counter_grows diff (own_counter name before) finite own in (g.0, g.1)

  -- The server afterwards.
  stored :
      (r : Counters) × (store_counter before.name name grown before.replicas ≡ some r)
      × (s ≡ broadcast_change name grown (record before { replicas = r }))
  stored =
      let wrote = inc-own_write name diff v before s incs in
      elim (Option-cases (store_counter before.name name grown before.replicas)) [
        | inl missing ↦ ground (arith, missing, wrote)
        | inr (r, found) ↦ (r, found, ground (arith, found, wrote))
      ]

  changes_after : s.changes ≡ before.changes ++ new_change name (change_bytes k name grown) ∷ []
  unfolding broadcast_change
  changes_after = ground (arith, stored.2, h.named k)

  name_after : s.name ≡ k
  unfolding broadcast_change
  name_after = ground (arith, stored.2, h.named k)

  lookup_after :
      (m n : Text)
      → lookup_counter m n s.replicas
        ≡ (if text_eq k m && text_eq name n then some grown else lookup_counter m n before.replicas)
  unfolding broadcast_change
  lookup_after m n =
      let (r, found, e) = stored in
      ground (
        arith,
        e,
        h.named k,
        lookup_counter-store_counter m n before.name name grown before.replicas r found,
      )

  pub owned_after :
      (m n : Text)
      → owned (with_server k s net) m n
        ≡ (if text_eq k m && text_eq name n then some grown else owned net m n)
  owned_after m n = elim (Bool-cases (text_eq k m)) [
    | inl here ↦ ground (arith, here, eq_of_text_eq k m here, lookup_after m n)
    | inr there ↦ ground (arith, there)
  ]

  owned_hit :
      (m n : Text)
      → (text_eq k m && text_eq name n) ≡ true
      → owned (with_server k s net) m n ≡ some grown
  owned_hit m n hit = owned_after m n ∙ rw hit

  own_before : lookup_counter before.name name before.replicas ≡ owned net k name
  own_before = ap (λ x. lookup_counter x name before.replicas) (h.named k)

  pub value-grown : value grown ≡ value_or_zero (owned net k name) +F diff
  value-grown =
      let own = or_empty-IsFinite (lookup_counter before.name name before.replicas) (
        subst (λ x. IsFiniteOpt (lookup_counter x name before.replicas)) (sym (h.named k))
          (h.finite k name)) in
      (inc_counter_grows diff (own_counter name before) finite own).2
      ∙ ap (λ x. x +F diff)
          (sym (value-or_empty (lookup_counter before.name name before.replicas))
            ∙ ap value_or_zero own_before)

  -- The bound on each counter grows or stays.
  grows : (m n : Text) → IsCopy (owned net m n) (owned (with_server k s net) m n)
  grows m n = elim (Bool-cases (text_eq k m && text_eq name n)) [
    | inl hit ↦ subst (IsCopy (owned net m n)) (sym (owned_hit m n hit)) (
        subst (λ x. IsCopy (owned net x n) (some grown)) (eq_of_text_eq k m (ground (arith, hit)))
          (subst (λ y. IsCopy (owned net k y) (some grown))
            (eq_of_text_eq name n (ground (arith, hit)))
            (subst (λ o. IsCopy o (some grown)) own_before
              (below_empty (lookup_counter before.name name before.replicas) grown grows_by.0))))
    | inr miss ↦ subst (IsCopy (owned net m n)) (sym (owned_after m n ∙ rw miss)) (h.copies m m n)
  ]

  -- What the other servers hold stays, and what this one holds grows or stays.
  pub copy_grows : (j m n : Text) → IsCopy (copy net j m n) (copy (with_server k s net) j m n)
  copy_grows j m n =
      let self = IsCopy-self (copy net j m n) (owned net m n) (h.copies j m n) in
      elim (Bool-cases (text_eq k j)) [
        | inr there ↦ rw there self
        | inl here ↦ rw here (
            subst (IsCopy (copy net j m n)) (sym (lookup_after m n))
              (elim (Bool-cases (text_eq k m && text_eq name n)) [
                | inl hit ↦ rw hit (
                    subst (IsCopy (copy net j m n)) (owned_hit m n hit) (
                      IsCopy-trans (copy net j m n) (owned net m n)
                        (owned (with_server k s net) m n) (h.copies j m n) (grows m n)))
                | inr miss ↦ rw miss (
                    subst (λ i. IsCopy (copy net j m n) (copy net i m n))
                      (sym (eq_of_text_eq k j here)) self)
              ]))
      ]

  pub incremented-IsBounded : IsWireable (own_counter name s) → IsBounded (with_server k s net)
  incremented-IsBounded wireable =
      let net' = with_server k s net in
      let looked : lookup_counter s.name name s.replicas ≡ some grown =
        ground (arith, lookup_after s.name name, name_after, text_eq_refl k, text_eq_refl name) in
      let sent : IsChange net' k (new_change name (change_bytes k name grown)) = record {
        name = name;
        counter = grown;
        member_line = k_line;
        name_line = name_line;
        wireable = subst IsWireable (ap or_empty looked) wireable;
        below =
            subst (IsCopy (some grown))
              (sym (owned_hit k name (ground (arith, text_eq_refl k, text_eq_refl name))))
              (IsBelow-refl grown grows_by.1);
        payload_is = unfold new_change change_payload in refl;
      } in
      record {
        named = λ j. elim (Bool-cases (text_eq k j)) [
          | inl here ↦ ground (arith, here, name_after, eq_of_text_eq k j here)
          | inr there ↦ ground (arith, there, h.named j)
        ];
        well_formed = λ j. elim (Bool-cases (text_eq k j)) [
          | inl here ↦ rw here (inc-IsWellFormed name diff v before s (h.well_formed k) incs)
          | inr there ↦ rw there (h.well_formed j)
        ];
        finite = λ m n.
            subst IsFiniteOpt (sym (owned_after m n))
              (elim (Bool-cases (text_eq k m && text_eq name n)) [
                | inl hit ↦ rw hit grows_by.1
                | inr miss ↦ rw miss (h.finite m n)
              ]);
        copies = λ j m n. elim (Bool-cases (text_eq k j)) [
          | inr there ↦ rw there (
              IsCopy-trans (copy net j m n) (owned net m n) (owned net' m n) (h.copies j m n)
                (grows m n))
          | inl here ↦ rw here (
              subst (λ o. IsCopy o (owned net' m n)) (sym (lookup_after m n))
                (elim (Bool-cases (text_eq k m && text_eq name n)) [
                  | inl hit ↦ rw hit (
                      subst (IsCopy (some grown)) (sym (owned_hit m n hit))
                        (IsBelow-refl grown grows_by.1))
                  | inr miss ↦ rw miss (
                      IsCopy-trans (copy net k m n) (owned net m n) (owned net' m n)
                        (h.copies k m n) (grows m n))
                ]))
        ];
        queues = λ j. elim (Bool-cases (text_eq k j)) [
          | inr there ↦
              rw there
                (All-map (net.servers j).changes (IsChange-grows net net' grows j) (h.queues j))
          | inl here ↦ rw here (
              subst (λ x. All (IsChange net' x) s.changes) (eq_of_text_eq k j here)
                (subst (All (IsChange net' k)) (sym changes_after) (
                  All-append (IsChange net' k) before.changes
                    (new_change name (change_bytes k name grown) ∷ [])
                    (All-map before.changes (IsChange-grows net net' grows k) (h.queues k))
                    (sent, tt))))
        ];
        states = All-map net.sent (IsSent-grows net net' grows) h.states;
      }
