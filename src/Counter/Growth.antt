-- ===== src/Counter/Growth.antt =====
-- The counters of an owner grow within a revision, so that a replica catches up by any delivery
-- that has the newest one; and what a reset takes off.
use dcounter.Base.{
  ◌≡◌, ◌∙◌, refl, sym, ap, true, false, Option, none, some, List, [], ◌∷◌, ◌++◌, arith, Bool-cases,
  inl, inr,
}
use dcounter.Base.Int.{ℤ, ◌+ℤ◌, neg_ℤ, int_laws}
use dcounter.Float.{Float, fin, nan, inf, neg_inf, zero_float, gt, ◌+F◌, ◌-F◌, neg}
use dcounter.Float.Laws.{
  IsNumber, IsFinite, IsFinite-IsNumber, +F_assoc, +F_comm, gt_total, gt_irrefl,
}
use dcounter.Counter.Merge.{AreNumbers, raise_to-IsNumber, merge-same_revision}
use dcounter.Counter.{Counter, raise_to, merge, value, inc_counter, reset_counter}

-- Both fields are finite.
pub record IsFiniteCounter (c : Counter) : Type 0 where
  pub up_finite : IsFinite c.up
  pub down_finite : IsFinite c.down

-- `c` is an earlier counter of the revision of `d`: nothing in it exceeds `d`.
pub record IsBelow (c d : Counter) : Type 0 where
  pub same_revision : c.revision ≡ d.revision
  pub up_below : gt c.up d.up ≡ false
  pub down_below : gt c.down d.down ≡ false
  pub up_number : IsNumber c.up
  pub down_number : IsNumber c.down

abbrev pub All {ℓ κ} : {A : Type ℓ} → (A → Type κ) → List A → Type κ
All P [] = Unit
All P (x ∷ xs) = P x × All P xs

-- The merges of one counter's changes, in the order of their arrival.
unfoldable pub merge_all : Option Counter → List Counter → Option Counter
merge_all o [] = o
merge_all o (c ∷ cs) = merge_all (some (merge o c)) cs

pub raise_to_top : (a d : Float) → IsNumber a → IsNumber d → gt a d ≡ false → raise_to a d ≡ d
unfolding raise_to
raise_to_top a d ha hd h = ground (arith, gt_total a d ha hd)

raise_to_below : (a b d : Float) → gt a d ≡ false → gt b d ≡ false → gt (raise_to a b) d ≡ false
unfolding raise_to
raise_to_below a b d h k = ground arith

raise_to_stays : (a d : Float) → gt a d ≡ false → raise_to d a ≡ d
unfolding raise_to
raise_to_stays a d h = ground arith

pub merge-IsBelow : (a b d : Counter) → IsBelow a d → IsBelow b d → IsBelow (merge (some a) b) d
merge-IsBelow a b d ha hb =
    rw (merge-same_revision a b (ha.same_revision ∙ sym hb.same_revision)) (record {
      same_revision = ha.same_revision;
      up_below = raise_to_below a.up b.up d.up ha.up_below hb.up_below;
      down_below = raise_to_below a.down b.down d.down ha.down_below hb.down_below;
      up_number = raise_to-IsNumber a.up b.up ha.up_number hb.up_number;
      down_number = raise_to-IsNumber a.down b.down ha.down_number hb.down_number;
    })

pub merge-stays : (a d : Counter) → IsBelow a d → merge (some d) a ≡ d
unfolding merge
merge-stays a d h = ground (
  arith,
  h.same_revision,
  raise_to_stays a.up d.up h.up_below,
  raise_to_stays a.down d.down h.down_below,
)

pub merge-top : (a d : Counter) → AreNumbers d → IsBelow a d → merge (some a) d ≡ d
unfolding merge
merge-top a d n h = ground (
  arith,
  h.same_revision,
  raise_to_top a.up d.up h.up_number n.up_number h.up_below,
  raise_to_top a.down d.down h.down_number n.down_number h.down_below,
)

merge_all-stays :
    (d : Counter) (ys : List Counter) → All (λ c. IsBelow c d) ys → merge_all (some d) ys ≡ some d
unfolding merge_all
merge_all-stays d [] h = refl
merge_all-stays d (y ∷ ys) h = rw (merge-stays y d h.0) (merge_all-stays d ys h.1)

pub merge_all-from :
    (a d : Counter) (xs ys : List Counter)
    → AreNumbers d
    → IsBelow a d
    → All (λ c. IsBelow c d) xs
    → All (λ c. IsBelow c d) ys
    → merge_all (some a) (xs ++ d ∷ ys) ≡ some d
unfolding merge_all
merge_all-from a d [] ys n ha hx hy =
    ap (λ c. merge_all (some c) ys) (merge-top a d n ha) ∙ merge_all-stays d ys hy
merge_all-from a d (x ∷ xs) ys n ha hx hy =
    merge_all-from (merge (some a) x) d xs ys n (merge-IsBelow a x d ha hx.0) hx.1 hy

-- A replica that gets the owner's newest counter and any earlier ones of the same revision, before
-- or after it, in any order and any number of times, ends with the newest. The replica may start
-- out empty; there is no NaN among them.
pub replica_catches_up :
    (d : Counter) (xs ys : List Counter)
    → AreNumbers d
    → All (λ c. IsBelow c d) xs
    → All (λ c. IsBelow c d) ys
    → merge_all none (xs ++ d ∷ ys) ≡ some d
unfolding merge_all merge
replica_catches_up d [] ys n hx hy = merge_all-stays d ys hy
replica_catches_up d (x ∷ xs) ys n hx hy = merge_all-from x d xs ys n hx.0 hx.1 hy

+F_grows : (a d : Float) → IsFinite a → IsFinite d → gt d zero_float ≡ true → gt a (a +F d) ≡ false
unfolding gt ◌+F◌ ◌+ℤ◌
+F_grows (fin x) (fin y) ha hd h = ground arith
+F_grows nan d ha hd h = absurd ha
+F_grows inf d ha hd h = absurd ha
+F_grows neg_inf d ha hd h = absurd ha
+F_grows (fin x) d ha hd h = ground arith

-F_grows : (a d : Float) → IsFinite a → IsFinite d → gt d zero_float ≡ false → gt a (a -F d) ≡ false
unfolding gt ◌-F◌ ◌+ℤ◌ neg_ℤ
-F_grows (fin x) (fin y) ha hd h = ground arith
-F_grows nan d ha hd h = absurd ha
-F_grows inf d ha hd h = absurd ha
-F_grows neg_inf d ha hd h = absurd ha
-F_grows (fin x) d ha hd h = ground arith

+F-IsFinite : (a b : Float) → IsFinite a → IsFinite b → IsFinite (a +F b)
unfolding ◌+F◌
+F-IsFinite (fin x) (fin y) ha hb = tt
+F-IsFinite nan b ha hb = absurd ha
+F-IsFinite inf b ha hb = absurd ha
+F-IsFinite neg_inf b ha hb = absurd ha
+F-IsFinite (fin x) nan ha hb = absurd hb
+F-IsFinite (fin x) inf ha hb = absurd hb
+F-IsFinite (fin x) neg_inf ha hb = absurd hb

neg-IsFinite : (a : Float) → IsFinite a → IsFinite (neg a)
unfolding neg
neg-IsFinite (fin x) h = tt
neg-IsFinite nan h = h
neg-IsFinite inf h = h
neg-IsFinite neg_inf h = h

pub -F-IsFinite : (a b : Float) → IsFinite a → IsFinite b → IsFinite (a -F b)
unfolding ◌-F◌
-F-IsFinite a b ha hb = +F-IsFinite a (neg b) ha (neg-IsFinite b hb)

add_to_up : (a b d : Float) → a +F d -F b ≡ a -F b +F d
unfolding ◌-F◌
add_to_up a b d =
    +F_assoc a d (neg b) ∙ ap (◌+F◌ a) (+F_comm d (neg b)) ∙ sym (+F_assoc a (neg b) d)

neg-add : (a b : Float) → neg (a +F b) ≡ neg a +F neg b
unfolding neg ◌+F◌
neg-add (fin x) (fin y) = ap fin (omega int_laws)
neg-add a b = ground arith

neg-neg : (a : Float) → neg (neg a) ≡ a
unfolding neg
neg-neg (fin x) = ap fin (omega int_laws)
neg-neg a = ground arith

take_from_down : (a b d : Float) → a -F (b -F d) ≡ a -F b +F d
unfolding ◌-F◌
take_from_down a b d =
    ap (◌+F◌ a) (neg-add b (neg d) ∙ ap (◌+F◌ (neg b)) (neg-neg d)) ∙ sym (+F_assoc a (neg b) d)

-- An increment by a finite amount keeps the revision and lets neither field shrink, leaves both
-- finite, and changes the value by the amount.
pub inc_counter_grows :
    (diff : Float) (c : Counter)
    → IsFinite diff
    → IsFiniteCounter c
    → IsBelow c (inc_counter diff c)
      × IsFiniteCounter (inc_counter diff c)
      × (value (inc_counter diff c) ≡ value c +F diff)
unfolding inc_counter value
inc_counter_grows diff c hd hc = elim (Bool-cases (gt diff zero_float)) [
  | inl up ↦ rw up (
    record {
      same_revision = refl;
      up_below = +F_grows c.up diff hc.up_finite hd up;
      down_below = gt_irrefl c.down;
      up_number = IsFinite-IsNumber c.up hc.up_finite;
      down_number = IsFinite-IsNumber c.down hc.down_finite;
    },
    record { up_finite = +F-IsFinite c.up diff hc.up_finite hd; down_finite = hc.down_finite },
    add_to_up c.up c.down diff,
  )
  | inr down ↦ rw down (
    record {
      same_revision = refl;
      up_below = gt_irrefl c.up;
      down_below = -F_grows c.down diff hc.down_finite hd down;
      up_number = IsFinite-IsNumber c.up hc.up_finite;
      down_number = IsFinite-IsNumber c.down hc.down_finite;
    },
    record { up_finite = hc.up_finite; down_finite = -F-IsFinite c.down diff hc.down_finite hd },
    take_from_down c.up c.down diff,
  )
]

as_fin : (a : Float) → IsFinite a → (x : ℤ) × (a ≡ fin x)
as_fin (fin x) h = (x, refl)
as_fin nan h = absurd h
as_fin inf h = absurd h
as_fin neg_inf h = absurd h

regroup_reset :
    (u d s t : Float)
    → IsFinite u
    → IsFinite d
    → IsFinite s
    → IsFinite t
    → u -F s -F (d -F t) +F (s -F t) ≡ u -F d
unfolding ◌-F◌ ◌+F◌ neg
regroup_reset u d s t hu hd hs ht =
    let (u', eu) = as_fin u hu in
    let (d', ed) = as_fin d hd in
    let (s', es) = as_fin s hs in
    let (t', et) = as_fin t ht in rw (eu, ed, es, et) (ap fin (omega int_laws))

-- A reset takes off the value that the sender had seen and no more: what the owner has counted
-- since then stays in the counter. All fields are finite.
pub reset_counter_keeps_rest :
    (seen own : Counter)
    → IsFiniteCounter seen
    → IsFiniteCounter own
    → value (reset_counter seen own) +F value seen ≡ value own
unfolding reset_counter value
reset_counter_keeps_rest seen own hs ho =
    regroup_reset own.up own.down seen.up seen.down ho.up_finite ho.down_finite hs.up_finite
      hs.down_finite
