-- ===== src/Counter/Merge.antt =====
-- The merge of one member's counter: a join for counters of one revision, and not for others.
use dcounter.Base.{◌≡◌, ◌≢◌, ◌<◌, sym, true, Option, none, some, arith, Bool-cases, inl, inr}
use dcounter.Float.{Float, gt}
use dcounter.Float.Laws.{IsNumber, gt_total, gt_irrefl, gt_asymm, gt_trans}
use dcounter.Counter.{Counter, raise_to, merge}

-- Neither field is NaN.
pub record AreNumbers (c : Counter) : Type 0 where
  pub up_number : IsNumber c.up
  pub down_number : IsNumber c.down

pub raise_to-IsNumber : (a b : Float) → IsNumber a → IsNumber b → IsNumber (raise_to a b)
unfolding raise_to
raise_to-IsNumber a b ha hb = elim (Bool-cases (gt b a)) [ inl e ↦ rw e hb | inr e ↦ rw e ha ]

pub raise_to_comm : (a b : Float) → IsNumber a → IsNumber b → raise_to a b ≡ raise_to b a
unfolding raise_to
raise_to_comm a b ha hb = ground (arith, gt_total a b ha hb, gt_asymm a b, gt_asymm b a)

pub raise_to_idem : (a b : Float) → raise_to (raise_to a b) b ≡ raise_to a b
unfolding raise_to
raise_to_idem a b = ground (arith, gt_irrefl b)

pub raise_to_assoc :
    (a b c : Float)
    → IsNumber a
    → IsNumber b
    → IsNumber c
    → raise_to (raise_to a b) c ≡ raise_to a (raise_to b c)
unfolding raise_to
raise_to_assoc a b c ha hb hc = ground (
  arith,
  gt_trans c b a,
  gt_trans b a c,
  gt_trans b c a,
  gt_trans a b c,
  gt_total a b ha hb,
  gt_total b c hb hc,
  gt_total a c ha hc,
)

-- Within one revision the code raises both fields.
pub merge-same_revision :
    (a b : Counter)
    → a.revision ≡ b.revision
    → merge (some a) b ≡ record a { up = raise_to a.up b.up; down = raise_to a.down b.down }
unfolding merge
merge-same_revision a b e = ground arith

module _ (a b c : Counter) (a_numbers : AreNumbers a) (b_numbers : AreNumbers b) where
  pub merge_comm : a.revision ≡ b.revision → merge (some a) b ≡ merge (some b) a
  merge_comm e = ground (
    arith,
    merge-same_revision a b e,
    merge-same_revision b a (sym e),
    raise_to_comm a.up b.up a_numbers.up_number b_numbers.up_number,
    raise_to_comm a.down b.down a_numbers.down_number b_numbers.down_number,
  )

  merge_assoc :
      AreNumbers c
      → a.revision ≡ b.revision
      → b.revision ≡ c.revision
      → merge (some (merge (some a) b)) c ≡ merge (some a) (merge (some b) c)
  unfolding merge
  merge_assoc c_numbers e e' = ground (
    arith,
    raise_to_assoc a.up b.up c.up a_numbers.up_number b_numbers.up_number c_numbers.up_number,
    raise_to_assoc a.down b.down c.down a_numbers.down_number b_numbers.down_number
        c_numbers.down_number,
  )

-- A second delivery changes nothing, whatever the revisions are.
pub merge_idem : (o : Option Counter) (b : Counter) → merge (some (merge o b)) b ≡ merge o b
unfolding merge raise_to
merge_idem none b = ground (arith, gt_irrefl b.up, gt_irrefl b.down)
merge_idem (some a) b = ground (arith, gt_irrefl b.up, gt_irrefl b.down)

-- For three counters of one revision with no NaN, the merge does not depend on the order or the
-- grouping in which they come, and a second delivery changes nothing.
pub merge_join :
    (a b c : Counter)
    → AreNumbers a
    → AreNumbers b
    → AreNumbers c
    → a.revision ≡ b.revision
    → b.revision ≡ c.revision
    → (merge (some a) b ≡ merge (some b) a)
      × (merge (some (merge (some a) b)) c ≡ merge (some a) (merge (some b) c))
      × (merge (some (merge (some a) b)) b ≡ merge (some a) b)
merge_join a b c ha hb hc e e' =
    (merge_comm a b c ha hb e, merge_assoc a b c ha hb hc e e', merge_idem (some a) b)

-- A counter of an older revision whose `Up` is greater is not dropped: its `Up` overwrites that of
-- the newer revision. In the other order the newer counter wins, so that the two orders of delivery
-- end in different counters.
pub merge_stale :
    (a b : Counter)
    → b.revision < a.revision
    → gt b.up a.up ≡ true
    → ((merge (some a) b).up ≡ b.up)
      × ((merge (some a) b).revision ≡ a.revision)
      × (merge (some b) a ≡ a)
      × (merge (some a) b ≢ merge (some b) a)
unfolding merge raise_to
merge_stale a b older greater =
    (ground arith, ground arith, ground arith, λ same. ground (arith, gt_irrefl b.up))
