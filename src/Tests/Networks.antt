-- ===== src/Tests/Networks.antt =====
-- Clusters at concrete states.
use mathlib.Core.List.{Memᴰ}
use mathlib.Core.Path.{subst}
use dcounter.Wire.RoundTrip.{IsWireable}
use dcounter.Server.Reads.{own_counter}
use dcounter.Base.{
  ◌≡◌, ◌∙◌, refl, sym, false, none, some, [], ◌∷◌, Text, text_eq, eq_of_text_eq, has_byte, arith,
  Bool-cases, inl, inr,
}
use dcounter.Base.Int.{ℤ, pos, ◌+ℤ◌, neg_ℤ}
use dcounter.Base.Dict.{lookup, insert}
use dcounter.Float.{◌+F◌, ◌-F◌, neg, gt}
use dcounter.Counter.{empty_counter, value, inc_counter}
use dcounter.Server.{Server, broadcast_change, lookup_counter}
use dcounter.Server.Local.{get, inc}
use dcounter.Server.Gossip.{local_state, merge_remote_state}
use dcounter.Server.Lifecycle.{new_server, start}
use dcounter.Network.{
  Network, Step, Reach, incremented, state_sent, state_merged, unmoved, next, fresh, with_server,
}
use dcounter.Network.Absorb.{owned, copy}
use dcounter.Network.Below.{IsCopy}
use dcounter.Network.Reached.{copies_below_owners, fresh_empty}
use dcounter.Network.Grows.{copies_grow}
use dcounter.Network.Stable.{IsSynced, IsSynced-stays}
use dcounter.Tests.Rep.{test_rep}
use dcounter.Tests.Counters.{whole, counter, wireable}
use dcounter.Tests.Servers.{a, b, n, started_a}

abbrev at_one : Text → ℤ
at_one _ = pos 1

-- Server `a` counts 2.
abbrev pub counted_a : Server
counted_a = broadcast_change n (inc_counter (whole 2) empty_counter) (record started_a {
  replicas = insert a (insert n (inc_counter (whole 2) empty_counter) []) started_a.replicas;
})

pub counts : inc n (whole 2) started_a ≡ some (whole 2, counted_a)
unfolding inc broadcast_change inc_counter value ◌-F◌ ◌+F◌ gt neg neg_ℤ ◌+ℤ◌ lookup insert text_eq
    start new_server
counts = refl

counted_is : own_counter n counted_a ≡ counter 2 0 0
unfolding broadcast_change inc_counter value ◌-F◌ ◌+F◌ gt neg neg_ℤ ◌+ℤ◌ lookup insert text_eq start
    new_server lookup_counter
counted_is = refl

abbrev after_inc : Network
after_inc = with_server a counted_a (fresh at_one)

abbrev step_of_a : Step (fresh at_one) after_inc
step_of_a =
    incremented a n (whole 2) (whole 2) counted_a (unfold has_byte in refl)
      (unfold has_byte in refl) tt counts
      (subst IsWireable (sym counted_is) (wireable 2 0 0 refl refl (omega arith)))

abbrev run_of_a : Reach (fresh at_one) after_inc
run_of_a = next unmoved step_of_a

-- The state of `a` on its way, and then merged at `b`.
abbrev sent_a : Network
sent_a = record after_inc { sent = local_state (after_inc.servers a) ∷ [] }

abbrev merged_b : Network
merged_b =
    with_server b
      (merge_remote_state (pos 2) (some (local_state (after_inc.servers a))) (sent_a.servers b))
      sent_a

copies_below_owners_example : IsCopy (copy merged_b b a n) (owned merged_b a n)
copies_below_owners_example =
    copies_below_owners at_one merged_b
      (next (next run_of_a (state_sent a))
        (state_merged b (pos 2) (local_state (after_inc.servers a)) (Memᴰ.head refl)))
      b a n

copies_grow_example : IsCopy (copy after_inc a a n) (copy merged_b a a n)
copies_grow_example =
    copies_grow at_one after_inc merged_b run_of_a
      (next (next unmoved (state_sent a))
        (state_merged b (pos 2) (local_state (after_inc.servers a)) (Memᴰ.head refl)))
      a a n

-- `a` is up to date, and stays so when its state goes to `b`.
other_copy : (m name : Text) → text_eq a m ≡ false → copy after_inc a m name ≡ none
unfolding lookup_counter broadcast_change insert lookup text_eq start new_server
other_copy m name e = ground (arith, e)

at_a : (m name : Text) → copy after_inc a m name ≡ owned after_inc m name
at_a m name = elim (Bool-cases (text_eq a m)) [
  | inl here ↦
      subst (λ k. copy after_inc a k name ≡ owned after_inc k name) (eq_of_text_eq a m here) refl
  | inr there ↦ other_copy m name there ∙ sym (fresh_empty (pos 1) m m name) ∙ rw there refl
]

IsSynced-stays_example :
    IsSynced merged_b a
    × ((m name : Text) → owned merged_b m name ≡ owned after_inc m name)
    × ((name : Text) → (get name (merged_b.servers a)).0 ≡ (get name (after_inc.servers a)).0)
IsSynced-stays_example =
    IsSynced-stays at_one after_inc merged_b a run_of_a at_a
      (next (next unmoved (state_sent a))
        (state_merged b (pos 2) (local_state (after_inc.servers a)) (Memᴰ.head refl)))
      refl
