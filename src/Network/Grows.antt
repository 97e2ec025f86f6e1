-- ===== src/Network/Grows.antt =====
-- No server of a cluster falls back behind what it has held (server/api.go, server/memberlist.go,
-- server/server.go).
use mathlib.Core.Path.{subst}
use dcounter.Base.{◌≡◌, refl, sym, ap, false, Text, text_eq, eq_of_text_eq, Bool-cases, inl, inr}
use dcounter.Base.Int.{ℤ}
use dcounter.Wire.{FloatRep}
use dcounter.Server.{lookup_counter}
use dcounter.Server.MergeState.{merge_opt}
use dcounter.Network.{
  Network, Step, Reach, incremented, delivered, state_sent, state_merged, node_joined, node_left,
  checked, unmoved, next, fresh,
}
use dcounter.Network.Below.{IsCopy, IsCopy-self, IsCopy-trans, merge_opt-grows}
use dcounter.Network.Absorb.{owned, copy, IsBounded}
use dcounter.Network.Increment.{copy_grows}
use dcounter.Network.Reached.{Step-IsBounded, Reach-IsBounded}
use dcounter.Network.Owners.{is_increment, Step-moves}

module _ ⦃rep : FloatRep⦄ where
  moved-grows :
      {a b : Network} (step : Step a b)
      → IsBounded a
      → is_increment step ≡ false
      → (k m n : Text) → IsCopy (copy a k m n) (copy b k m n)
  moved-grows {a} step h e k m n =
      let (j, s, absorbs, moves) = Step-moves step h e in
      subst (IsCopy (copy a k m n)) (sym (ap (λ x. lookup_counter m n x.replicas) (moves k)))
        (elim (Bool-cases (text_eq j k)) [
          | inr there ↦ rw there (IsCopy-self (copy a k m n) (owned a m n) (h.copies k m n))
          | inl here ↦ rw here (
              subst (IsCopy (copy a k m n)) (sym (absorbs.merged m n)) (
                subst (λ i. IsCopy (copy a i m n) (merge_opt (copy a j m n) (absorbs.came m n)))
                  (eq_of_text_eq j k here)
                  (merge_opt-grows (copy a j m n) (absorbs.came m n) (owned a m n) (h.copies j m n)
                    (absorbs.came_below m n))))
        ])

  Step-grows :
      {a b : Network} (step : Step a b)
      → IsBounded a
      → (k m n : Text) → IsCopy (copy a k m n) (copy b k m n)
  Step-grows {a} (incremented k name diff v s k_line name_line finite incs wireable) h =
      copy_grows a h k name diff v s k_line name_line finite incs
  Step-grows (delivered k j c mem) h = moved-grows (delivered k j c mem) h refl
  Step-grows (state_sent k) h = moved-grows (state_sent k) h refl
  Step-grows (state_merged j now state mem) h = moved-grows (state_merged j now state mem) h refl
  Step-grows (node_joined j now node) h = moved-grows (node_joined j now node) h refl
  Step-grows (node_left j now node) h = moved-grows (node_left j now node) h refl
  Step-grows (checked j nodes k c) h = moved-grows (checked j nodes k c) h refl

  Reach-grows :
      {a b : Network} (r : Reach a b)
      → IsBounded a
      → (k m n : Text) → IsBounded b × IsCopy (copy a k m n) (copy b k m n)
  Reach-grows {a} unmoved h k m n = (h, IsCopy-self (copy a k m n) (owned a m n) (h.copies k m n))
  Reach-grows {a} {b} (next {a = c} r step) h k m n =
      let (h', grown) = Reach-grows r h k m n in
      (
        Step-IsBounded step h',
        IsCopy-trans (copy a k m n) (copy c k m n) (copy b k m n) grown (Step-grows step h' k m n),
      )

  -- In a cluster of started servers whose clients only increment, by finite amounts, what a server
  -- holds of a member's counter never falls back: whatever steps follow, with messages and full
  -- states that are old, late or come again, it holds that counter later, too, of the same revision
  -- and in neither field lower.
  pub copies_grow :
      (at : Text → ℤ) (net net' : Network)
      → Reach (fresh at) net
      → Reach net net'
      → (k m n : Text) → IsCopy (copy net k m n) (copy net' k m n)
  copies_grow at net net' r q k m n = (Reach-grows q (Reach-IsBounded at net r) k m n).1
