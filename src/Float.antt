-- ===== src/Float.antt =====
-- float64, as the program uses it: the special values, and the finite ones as whole multiples of
-- a fixed unit with exact sums. Rounding and the sign of zero are left out.
pub mod Laws
use dcounter.Base.{Bool, true, false, not, ◌&&◌}
use dcounter.Base.Int.{ℤ, pos, ◌+ℤ◌, neg_ℤ, ltb_ℤ}

pub data Float : Type 0 where
  nan inf neg_inf : Float
  fin : ℤ → Float

abbrev pub zero_float : Float
zero_float = fin (pos 0)

-- `a + b`
infixl 65 ◌+F◌ ◌-F◌
unfoldable pub ◌+F◌ : Float → Float → Float
nan +F b = nan
inf +F nan = nan
inf +F neg_inf = nan
inf +F inf = inf
inf +F fin y = inf
neg_inf +F nan = nan
neg_inf +F inf = nan
neg_inf +F neg_inf = neg_inf
neg_inf +F fin y = neg_inf
fin x +F nan = nan
fin x +F inf = inf
fin x +F neg_inf = neg_inf
fin x +F fin y = fin (x +ℤ y)

-- `-a`
unfoldable pub neg : Float → Float
neg nan = nan
neg inf = neg_inf
neg neg_inf = inf
neg (fin x) = fin (neg_ℤ x)

-- `a - b`
unfoldable pub ◌-F◌ : Float → Float → Float
unfolding ◌+F◌ neg
a -F b = a +F neg b

-- `a > b`, false if either is NaN
unfoldable pub gt : Float → Float → Bool
gt nan b = false
gt inf nan = false
gt inf inf = false
gt inf neg_inf = true
gt inf (fin y) = true
gt neg_inf b = false
gt (fin x) nan = false
gt (fin x) inf = false
gt (fin x) neg_inf = true
gt (fin x) (fin y) = ltb_ℤ y x

-- `a == b`, false if either is NaN
unfoldable pub eqb : Float → Float → Bool
eqb inf inf = true
eqb neg_inf neg_inf = true
eqb (fin x) (fin y) = not (ltb_ℤ x y) && not (ltb_ℤ y x)
eqb a b = false
