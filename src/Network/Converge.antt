-- ===== src/Network/Converge.antt =====
-- From every reached cluster steps lead to one in which two servers answer `get` alike.
use mathlib.Core.List.{Memᴰ}
use mathlib.Core.Path.{subst}
use dcounter.Base.{
  ◌⊎◌, ◌≡◌, ◌∙◌, refl, sym, ap, false, Option, none, some, List, [], ◌∷◌, Text, text_eq,
  text_eq_refl, text_eq_iff, if◌then◌else◌, arith, Bool-cases, inl, inr,
}
use dcounter.Base.Int.{ℤ}
use dcounter.Base.Dict.{Dict, lookup, delete, IsMap, lookup-delete, delete-IsMap}
use dcounter.Float.{Float, zero_float, ◌+F◌}
use dcounter.Float.Laws.{+F_assoc, +F_comm, zero_+F}
use dcounter.Counter.{Counter}
use dcounter.Counter.Growth.{All}
use dcounter.Wire.{FloatRep}
use dcounter.Server.{Counters, lookup_counter}
use dcounter.Server.Local.{sum_of, get}
use dcounter.Server.MergeState.{lookup_counter-head, lookup_counter-missing}
use dcounter.Server.Totals.{value_or_zero, sum_of-head}
use dcounter.Network.{Network, Reach, unmoved, fresh}
use dcounter.Network.Absorb.{owned, copy}
use dcounter.Network.Below.{IsCopy}
use dcounter.Network.Bounds.{All-map, All-Memᴰ}
use dcounter.Network.Reached.{Reach-IsBounded}
use dcounter.Network.Sync.{pull, pull-Reach, owned-pull, copy-pull_ne, copy-pull_synced, copy-pull}

pub lookup_counter-delete :
    (m name k : Text) (r : Counters)
    → IsMap r
    → lookup_counter m name (delete k r) ≡ (if text_eq k m then none else lookup_counter m name r)
unfolding lookup_counter
lookup_counter-delete m name k r h = ground (arith, lookup-delete m k r h)

swap_first : (a b c : Float) → a +F (b +F c) ≡ b +F (a +F c)
swap_first a b c = sym (+F_assoc a b c) ∙ ap (λ x. x +F c) (+F_comm a b) ∙ +F_assoc b a c

-- A total, with one member's part taken out.
pub sum_of-delete :
    (name k : Text) (r : Counters)
    → sum_of name r zero_float
      ≡ value_or_zero (lookup_counter k name r) +F sum_of name (delete k r) zero_float
unfolding delete
sum_of-delete name k [] = unfold lookup_counter lookup in sym (zero_+F (sum_of name [] zero_float))
sum_of-delete name k ((j, w) ∷ r) = elim (Bool-cases (text_eq j k)) [
  | inl here ↦ rw here (
      sum_of-head name j w r
      ∙ ap (λ o. value_or_zero o +F sum_of name r zero_float)
          (sym (lookup_counter-head k name j w r ∙ rw here)))
  | inr there ↦ rw there (
      sum_of-head name j w r
      ∙ ap (λ x. value_or_zero (lookup name w) +F x) (sum_of-delete name k r)
      ∙ swap_first (value_or_zero (lookup name w)) (value_or_zero (lookup_counter k name r))
          (sum_of name (delete k r) zero_float)
      ∙ ap (λ x. value_or_zero (lookup_counter k name r) +F x)
          (sym (sum_of-head name j w (delete k r)))
      ∙ ap (λ o. value_or_zero o +F sum_of name ((j, w) ∷ delete k r) zero_float)
          (sym (lookup_counter-head k name j w r ∙ rw there)))
]

lookup_counter-tail :
    (m name k : Text) (v : Dict Counter) (r : Counters)
    → IsMap ((k, v) ∷ r)
    → lookup_counter m name r ≡ (if text_eq k m then none else lookup_counter m name ((k, v) ∷ r))
lookup_counter-tail m name k v r h =
    ground (
      arith,
      lookup_counter-head m name k v r,
      lookup_counter-missing m name r,
      h.0,
      text_eq_iff k m,
    )

pub no_counter : (m name : Text) → lookup_counter m name [] ≡ none
unfolding lookup
no_counter m name = lookup_counter-missing m name [] refl

-- The total depends on the counters only, not on how the maps hold them.
pub sum_of_by_counters :
    (name : Text) (r r' : Counters)
    → IsMap r
    → IsMap r'
    → ((m : Text) → lookup_counter m name r ≡ lookup_counter m name r')
    → sum_of name r zero_float ≡ sum_of name r' zero_float
sum_of_by_counters name [] [] h h' same = refl
sum_of_by_counters name [] ((k, v) ∷ r') h h' same =
    let gone : lookup name v ≡ none =
      ground
        (arith, same k, no_counter k name, lookup_counter-head k name k v r', text_eq_refl k) in
    sum_of_by_counters name [] r' tt h'.1
      (λ m. ground (arith, same m, no_counter m name, lookup_counter-tail m name k v r' h'))
    ∙ sym (
        sum_of-head name k v r'
        ∙ ap (λ o. value_or_zero o +F sum_of name r' zero_float) gone
        ∙ zero_+F (sum_of name r' zero_float))
sum_of_by_counters name ((k, v) ∷ r) r' h h' same =
    let part : lookup name v ≡ lookup_counter k name r' =
      ground (arith, same k, lookup_counter-head k name k v r, text_eq_refl k) in
    sum_of-head name k v r
    ∙ ap (λ o. value_or_zero o +F sum_of name r zero_float) part
    ∙ ap (◌+F◌ (value_or_zero (lookup_counter k name r'))) (
        sum_of_by_counters name r (delete k r') h.1 (delete-IsMap k r' h') (λ m. ground (
          arith,
          same m,
          lookup_counter-tail m name k v r h,
          lookup_counter-delete m name k r' h',
        )))
    ∙ sym (sum_of-delete name k r')

copy_of_none : (o : Option Counter) → IsCopy o none → o ≡ none
copy_of_none none h = refl
copy_of_none (some c) h = absurd h

module _ ⦃rep : FloatRep⦄ (now : ℤ) where
  -- Server `j` gets a full state from each of the members.
  abbrev pub pull_all : List Text → Text → Network → Network
  pull_all [] j net = net
  pull_all (m ∷ ms) j net = pull_all ms j (pull now m j net)

  pub pull_all-Reach :
      {x : Network} (ms : List Text) (j : Text) (net : Network)
      → Reach x net
      → Reach x (pull_all ms j net)
  pull_all-Reach [] j net r = r
  pull_all-Reach (m ∷ ms) j net r =
      pull_all-Reach ms j (pull now m j net) (pull-Reach now m j net r)

  module _ (at : Text → ℤ) where
    owned-pull_all :
        (ms : List Text) (j : Text) (net : Network)
        → Reach (fresh at) net
        → (k n : Text) → owned (pull_all ms j net) k n ≡ owned net k n
    owned-pull_all [] j net r k n = refl
    owned-pull_all (m ∷ ms) j net r k n =
        owned-pull_all ms j (pull now m j net) (pull-Reach now m j net r) k n
        ∙ owned-pull now m j net (Reach-IsBounded at net r) k n

    copy-pull_all_ne :
        (ms : List Text) (j : Text) (net : Network) (i k n : Text)
        → text_eq j i ≡ false
        → Reach (fresh at) net
        → copy (pull_all ms j net) i k n ≡ copy net i k n
    copy-pull_all_ne [] j net i k n e r = refl
    copy-pull_all_ne (m ∷ ms) j net i k n e r =
        copy-pull_all_ne ms j (pull now m j net) i k n e (pull-Reach now m j net r)
        ∙ copy-pull_ne now m j net (Reach-IsBounded at net r) i k n e

    copy-pull_all_synced :
        (ms : List Text) (j : Text) (net : Network) (k n : Text)
        → Reach (fresh at) net
        → copy net j k n ≡ owned net k n
        → copy (pull_all ms j net) j k n ≡ owned net k n
    copy-pull_all_synced [] j net k n r e = e
    copy-pull_all_synced (m ∷ ms) j net k n r e =
        let h = Reach-IsBounded at net r in
        copy-pull_all_synced ms j (pull now m j net) k n (pull-Reach now m j net r)
          (copy-pull_synced now m j net h k n e ∙ sym (owned-pull now m j net h k n))
        ∙ owned-pull now m j net h k n

    copy-pull_all :
        (ms : List Text) (j : Text) (net : Network)
        → Reach (fresh at) net
        → All (λ k. (n : Text) → copy (pull_all ms j net) j k n ≡ owned net k n) ms
    copy-pull_all [] j net r = tt
    copy-pull_all (m ∷ ms) j net r =
        let h = Reach-IsBounded at net r in
        let r' = pull-Reach now m j net r in
        (
          λ n.
              copy-pull_all_synced ms j (pull now m j net) m n r'
                (copy-pull now m j net h n ∙ sym (owned-pull now m j net h m n))
              ∙ owned-pull now m j net h m n,
          All-map ms (λ k f n. f n ∙ owned-pull now m j net h k n)
              (copy-pull_all ms j (pull now m j net) r'),
        )

    -- With the states of all owners, a server has all counters as their owners have them.
    copy-pull_all_owners :
        (ms : List Text) (j : Text) (net : Network)
        → Reach (fresh at) net
        → ((m : Text) → Memᴰ m ms ⊎ ((n : Text) → owned net m n ≡ none))
        → (m n : Text) → copy (pull_all ms j net) j m n ≡ owned net m n
    copy-pull_all_owners ms j net r owners m n = elim (owners m) [
      | inl one ↦
          All-Memᴰ (λ k. (n : Text) → copy (pull_all ms j net) j k n ≡ owned net k n) one
            (copy-pull_all ms j net r) n
      | inr nothing ↦
          let all = Reach-IsBounded at (pull_all ms j net) (pull_all-Reach ms j net r) in
          let none_owned = owned-pull_all ms j net r m n ∙ nothing n in
          copy_of_none (copy (pull_all ms j net) j m n)
            (subst (IsCopy (copy (pull_all ms j net) j m n)) none_owned (all.copies j m n))
          ∙ sym (nothing n)
    ]

    -- From every cluster that is reached, steps lead to one in which no owner's counter has
    -- changed, two different servers hold every counter as its owner does, and `get` answers the
    -- same value of every counter at both. The owners of all counters are among `ms`.
    pub cluster_converges :
        (net : Network) (ms : List Text) (i j : Text)
        → Reach (fresh at) net
        → text_eq j i ≡ false
        → ((m : Text) → Memᴰ m ms ⊎ ((n : Text) → owned net m n ≡ none))
        → (net' : Network) × Reach net net'
          × ((m n : Text)
              → (owned net' m n ≡ owned net m n)
                × (copy net' i m n ≡ owned net m n)
                × (copy net' j m n ≡ owned net m n))
          × ((name : Text) → (get name (net'.servers i)).0 ≡ (get name (net'.servers j)).0)
    unfolding get
    cluster_converges net ms i j r e owners =
        let a = pull_all ms i net in
        let b = pull_all ms j a in
        let ra = pull_all-Reach ms i net r in
        let rb = pull_all-Reach ms j a ra in
        let same_a = owned-pull_all ms i net r in
        let same_b : (m n : Text) → owned b m n ≡ owned net m n =
          λ m n. owned-pull_all ms j a ra m n ∙ same_a m n in
        let at_i : (m n : Text) → copy b i m n ≡ owned net m n =
          λ m n. copy-pull_all_ne ms j a i m n e ra ∙ copy-pull_all_owners ms i net r owners m n in
        let owners_a : (m : Text) → Memᴰ m ms ⊎ ((n : Text) → owned a m n ≡ none) = λ m.
          elim (owners m) [ inl one ↦ inl one | inr nothing ↦ inr (λ n. same_a m n ∙ nothing n) ] in
        let at_j : (m n : Text) → copy b j m n ≡ owned net m n =
          λ m n. copy-pull_all_owners ms j a ra owners_a m n ∙ same_a m n in
        let h = Reach-IsBounded at b rb in
        (
          b,
          pull_all-Reach ms j a (pull_all-Reach ms i net unmoved),
          λ m n. (same_b m n, at_i m n, at_j m n),
          λ name.
              sum_of_by_counters name (b.servers i).replicas (b.servers j).replicas
                (h.well_formed i).replicas_ok.replicas_map
                (h.well_formed j).replicas_ok.replicas_map (λ m. at_i m name ∙ sym (at_j m name)),
        )
