-- ===== src/Network/Below.antt =====
-- Copies of a counter that are earlier than another, and what merges them.
use dcounter.Base.{◌≡◌, ◌∙◌, refl, sym, ap, false, Option, none, some, arith}
use dcounter.Float.{Float, gt}
use dcounter.Float.Laws.{IsNumber, IsFinite-IsNumber, gt_total, gt_irrefl, gt_asymm, gt_trans}
use dcounter.Counter.{Counter, merge, raise_to}
use dcounter.Counter.Merge.{merge-same_revision}
use dcounter.Counter.Growth.{IsBelow, IsFiniteCounter, merge-IsBelow, merge-stays}
use dcounter.Server.MergeState.{merge_opt}

-- Nothing, or a counter that is below another.
abbrev pub IsCopy : Option Counter → Option Counter → Type 0
IsCopy none o = Unit
IsCopy (some c) none = ⊥
IsCopy (some c) (some d) = IsBelow c d

not_above :
    (a b d : Float) → IsNumber a → IsNumber b → gt a b ≡ false → gt b d ≡ false → gt a d ≡ false
not_above a b d ha hb h k = ground (arith, gt_trans b a d, gt_total a b ha hb, h, k)

pub IsBelow-trans : (a b d : Counter) → IsBelow a b → IsBelow b d → IsBelow a d
IsBelow-trans a b d h k = record {
  same_revision = h.same_revision ∙ k.same_revision;
  up_below = not_above a.up b.up d.up h.up_number k.up_number h.up_below k.up_below;
  down_below = not_above a.down b.down d.down h.down_number k.down_number h.down_below k.down_below;
  up_number = h.up_number;
  down_number = h.down_number;
}

pub IsBelow-refl : (c : Counter) → IsFiniteCounter c → IsBelow c c
IsBelow-refl c h = record {
  same_revision = refl;
  up_below = gt_irrefl c.up;
  down_below = gt_irrefl c.down;
  up_number = IsFinite-IsNumber c.up h.up_finite;
  down_number = IsFinite-IsNumber c.down h.down_finite;
}

pub IsCopy-trans : (o p q : Option Counter) → IsCopy o p → IsCopy p q → IsCopy o q
IsCopy-trans none p q h k = tt
IsCopy-trans (some a) none q h k = absurd h
IsCopy-trans (some a) (some b) none h k = absurd k
IsCopy-trans (some a) (some b) (some d) h k = IsBelow-trans a b d h k

pub merge_opt-IsCopy : (o p q : Option Counter) → IsCopy o q → IsCopy p q → IsCopy (merge_opt o p) q
merge_opt-IsCopy o none q h k = h
merge_opt-IsCopy o (some b) none h k = absurd k
merge_opt-IsCopy none (some b) (some d) h k = unfold merge in k
merge_opt-IsCopy (some a) (some b) (some d) h k = merge-IsBelow a b d h k

-- What is below the counter at hand changes nothing.
pub merge_opt-stays : (o p : Option Counter) → IsCopy p o → merge_opt o p ≡ o
merge_opt-stays o none h = refl
merge_opt-stays none (some b) h = absurd h
merge_opt-stays (some a) (some b) h = ap some (merge-stays b a h)

-- A merge leaves nothing below what was there.
raise_grows : (a b : Float) → gt a (raise_to a b) ≡ false
unfolding raise_to
raise_grows a b = ground (arith, gt_irrefl a, gt_asymm b a)

IsBelow-self : (a d : Counter) → IsBelow a d → IsBelow a a
IsBelow-self a d h = record {
  same_revision = refl;
  up_below = gt_irrefl a.up;
  down_below = gt_irrefl a.down;
  up_number = h.up_number;
  down_number = h.down_number;
}

pub IsCopy-self : (o p : Option Counter) → IsCopy o p → IsCopy o o
IsCopy-self none p h = tt
IsCopy-self (some a) none h = absurd h
IsCopy-self (some a) (some d) h = IsBelow-self a d h

merge-grows : (a b d : Counter) → IsBelow a d → IsBelow b d → IsBelow a (merge (some a) b)
merge-grows a b d ha hb =
    rw (merge-same_revision a b (ha.same_revision ∙ sym hb.same_revision)) (record {
      same_revision = refl;
      up_below = raise_grows a.up b.up;
      down_below = raise_grows a.down b.down;
      up_number = ha.up_number;
      down_number = ha.down_number;
    })

pub merge_opt-grows : (o p q : Option Counter) → IsCopy o q → IsCopy p q → IsCopy o (merge_opt o p)
merge_opt-grows none p q h k = tt
merge_opt-grows (some a) none q h k = IsCopy-self (some a) q h
merge_opt-grows (some a) (some b) none h k = absurd h
merge_opt-grows (some a) (some b) (some d) h k = merge-grows a b d h k
