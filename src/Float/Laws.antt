-- ===== src/Float/Laws.antt =====
-- The order and the sums of float64 values.
use dcounter.Base.{true, false, ◌≡◌, ◌∙◌, refl, sym, arith, ap}
use dcounter.Base.Int.{ℤ, pos, ◌+ℤ◌, pos_part, neg_part, int_laws, +ℤ_comm, +ℤ_assoc}
use dcounter.Float.{Float, nan, inf, neg_inf, fin, zero_float, ◌+F◌, gt}

-- The value is not NaN.
abbrev pub IsNumber : Float → Type 0
IsNumber nan = ⊥
IsNumber inf = Unit
IsNumber neg_inf = Unit
IsNumber (fin x) = Unit

-- The value is neither NaN nor infinite.
abbrev pub IsFinite : Float → Type 0
IsFinite nan = ⊥
IsFinite inf = ⊥
IsFinite neg_inf = ⊥
IsFinite (fin x) = Unit

pub IsFinite-IsNumber : (a : Float) → IsFinite a → IsNumber a
IsFinite-IsNumber (fin x) h = tt
IsFinite-IsNumber nan h = h
IsFinite-IsNumber inf h = absurd h
IsFinite-IsNumber neg_inf h = absurd h

pub +F_comm : (a b : Float) → a +F b ≡ b +F a
unfolding ◌+F◌
+F_comm (fin x) (fin y) = ap fin (+ℤ_comm x y)
+F_comm nan nan = refl
+F_comm inf nan = refl
+F_comm neg_inf nan = refl
+F_comm a inf = ground arith
+F_comm a neg_inf = ground arith
+F_comm a b = ground arith

pub +F_assoc : (a b c : Float) → a +F b +F c ≡ a +F (b +F c)
unfolding ◌+F◌
+F_assoc (fin x) (fin y) (fin z) = ap fin (+ℤ_assoc x y z)
+F_assoc a b c = ground arith

pub +F_zero : (a : Float) → a +F zero_float ≡ a
unfolding ◌+F◌
+F_zero (fin x) = ap fin (omega int_laws)
+F_zero a = ground arith

pub zero_+F : (a : Float) → zero_float +F a ≡ a
unfolding ◌+F◌
zero_+F (fin x) = ap fin (omega int_laws)
zero_+F a = ground arith

-- Equality is all that numbers leave where neither is greater.
pub gt_total : (a b : Float) → IsNumber a → IsNumber b → gt a b ≡ false → gt b a ≡ false → a ≡ b
unfolding gt
gt_total (fin x) (fin y) ha hb h k = ground arith
gt_total nan b ha hb h k = absurd ha
gt_total a b ha hb h k = ground arith

pub gt_irrefl : (a : Float) → gt a a ≡ false
unfolding gt
gt_irrefl (fin x) = ground arith
gt_irrefl a = refl

pub gt_asymm : (a b : Float) → gt a b ≡ true → gt b a ≡ false
unfolding gt
gt_asymm (fin x) (fin y) h = ground arith
gt_asymm a b h = ground arith

pub gt_trans : (a b c : Float) → gt a b ≡ true → gt b c ≡ true → gt a c ≡ true
unfolding gt
gt_trans (fin x) (fin y) (fin z) h k = ground arith
gt_trans a b c h k = ground arith

un_fin : Float → ℤ
un_fin (fin x) = x
un_fin _ = pos 0

cancel_fin : (x y z : ℤ) → ◌≡◌ {A = Float} (fin (x +ℤ z)) (fin (y +ℤ z)) → x ≡ y
unfolding un_fin
cancel_fin x y z e =
    let s : x +ℤ z ≡ y +ℤ z = ap un_fin e in omega (int_laws, ap pos_part s, ap neg_part s)

-- A finite term can be taken off both sides, whatever they are.
pub +F_cancel : (a b c : Float) → IsFinite c → a +F c ≡ b +F c → a ≡ b
unfolding ◌+F◌
+F_cancel (fin x) (fin y) (fin z) h e = ap fin (cancel_fin x y z e)
+F_cancel a b nan h e = absurd h
+F_cancel a b inf h e = absurd h
+F_cancel a b neg_inf h e = absurd h
+F_cancel a b c h e = ground arith

pub swap_last : (a b c : Float) → a +F b +F c ≡ a +F c +F b
swap_last a b c = +F_assoc a b c ∙ ap (◌+F◌ a) (+F_comm b c) ∙ sym (+F_assoc a c b)
