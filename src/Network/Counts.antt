-- ===== src/Network/Counts.antt =====
-- What the clients of a cluster have counted along a run, and what the owners hold of it.
use mathlib.Core.Path.{subst}
use dcounter.Base.{
  Bool, ◌≡◌, ◌∙◌, refl, sym, ap, true, false, ◌&&◌, List, [], ◌∷◌, Text, text_eq, text_eq_refl,
  text_eq_sym, eq_of_text_eq, if◌then◌else◌, arith, Bool-cases, inl, inr,
}
use dcounter.Float.{Float, zero_float, ◌+F◌}
use dcounter.Float.Laws.{+F_assoc, +F_comm, zero_+F, +F_zero}
use dcounter.Wire.{FloatRep}
use dcounter.Network.{
  Network, Step, Reach, incremented, delivered, state_sent, state_merged, node_joined, node_left,
  checked, unmoved, next,
}

-- Lists of members, and sums over them.
abbrev pub is_in : Text → List Text → Bool
is_in k [] = false
is_in k (m ∷ ms) = if text_eq m k then true else is_in k ms

abbrev pub AreDistinct : List Text → Type 0
AreDistinct [] = Unit
AreDistinct (m ∷ ms) = (is_in m ms ≡ false) × AreDistinct ms

abbrev pub total : List Text → (Text → Float) → Float
total [] f = zero_float
total (m ∷ ms) f = f m +F total ms f

total-zero : (ms : List Text) → total ms (λ _. zero_float) ≡ zero_float
total-zero [] = refl
total-zero (m ∷ ms) = zero_+F (total ms (λ _. zero_float)) ∙ total-zero ms

regroup : (a b c d : Float) → a +F b +F (c +F d) ≡ a +F c +F (b +F d)
regroup a b c d =
    +F_assoc a b (c +F d)
    ∙ ap (◌+F◌ a) (sym (+F_assoc b c d) ∙ ap (λ x. x +F d) (+F_comm b c) ∙ +F_assoc c b d)
    ∙ sym (+F_assoc a c (b +F d))

total-add :
    (ms : List Text) (f g : Text → Float) → total ms (λ m. f m +F g m) ≡ total ms f +F total ms g
total-add [] f g = sym (zero_+F zero_float)
total-add (m ∷ ms) f g =
    ap (◌+F◌ (f m +F g m)) (total-add ms f g) ∙ regroup (f m) (g m) (total ms f) (total ms g)

-- Functions that agree on the members have one sum.
pub total_cong :
    (ms : List Text) (f g : Text → Float)
    → ((m : Text) → is_in m ms ≡ true → f m ≡ g m)
    → total ms f ≡ total ms g
total_cong [] f g h = refl
total_cong (m ∷ ms) f g h =
    ap (λ x. x +F total ms f) (h m (ground (arith, text_eq_refl m)))
    ∙ ap (◌+F◌ (g m)) (total_cong ms f g (λ k e. h k (ground (arith, e))))

abbrev at_member : Text → Float → Text → Float
at_member k d m = if text_eq k m then d else zero_float

-- What stands at one of the members counts once.
total-at_member :
    (ms : List Text) (k : Text) (d : Float)
    → AreDistinct ms
    → total ms (at_member k d) ≡ (if is_in k ms then d else zero_float)
total-at_member [] k d h = refl
total-at_member (m ∷ ms) k d h = elim (Bool-cases (text_eq m k)) [
  | inl here ↦
      let once : is_in k ms ≡ false =
        subst (λ x. is_in x ms ≡ false) (eq_of_text_eq m k here) h.0 in
      ground (arith, total-at_member ms k d h.1, here, text_eq_sym m k, once, +F_zero d)
  | inr there ↦ ground (
    arith,
    total-at_member ms k d h.1,
    there,
    text_eq_sym m k,
    zero_+F (total ms (at_member k d)),
  )
]

module _ ⦃rep : FloatRep⦄ where
  -- By how much a step moves a member's counter, and the counter as a whole.
  abbrev pub step_amount : {a b : Network} → Step a b → Text → Text → Float
  step_amount (incremented k name diff v s _ _ _ _ _) m n =
      at_member k (if text_eq name n then diff else zero_float) m
  step_amount (delivered k j c _) m n = zero_float
  step_amount (state_sent k) m n = zero_float
  step_amount (state_merged j now state _) m n = zero_float
  step_amount (node_joined j now node) m n = zero_float
  step_amount (node_left j now node) m n = zero_float
  step_amount (checked j nodes k _) m n = zero_float

  abbrev pub step_total : {a b : Network} → Step a b → Text → Float
  step_total (incremented k name diff v s _ _ _ _ _) n = if text_eq name n then diff else zero_float
  step_total (delivered k j c _) n = zero_float
  step_total (state_sent k) n = zero_float
  step_total (state_merged j now state _) n = zero_float
  step_total (node_joined j now node) n = zero_float
  step_total (node_left j now node) n = zero_float
  step_total (checked j nodes k _) n = zero_float

  -- Whether a step's client is at one of the members.
  abbrev pub step_by : {a b : Network} → List Text → Step a b → Bool
  step_by ms (incremented k name diff v s _ _ _ _ _) = is_in k ms
  step_by ms (delivered k j c _) = true
  step_by ms (state_sent k) = true
  step_by ms (state_merged j now state _) = true
  step_by ms (node_joined j now node) = true
  step_by ms (node_left j now node) = true
  step_by ms (checked j nodes k _) = true

  -- The sum of a run's increments of a member's counter, and of a counter by all members.
  abbrev pub counted_by : {a b : Network} → Reach a b → Text → Text → Float
  counted_by unmoved m n = zero_float
  counted_by (next r step) m n = counted_by r m n +F step_amount step m n

  abbrev pub counted : {a b : Network} → Reach a b → Text → Float
  counted unmoved n = zero_float
  counted (next r step) n = counted r n +F step_total step n

  -- All clients of a run are at these members.
  abbrev pub is_by : {a b : Network} → List Text → Reach a b → Bool
  is_by ms unmoved = true
  is_by ms (next r step) = is_by ms r && step_by ms step

  step_total-members :
      {a b : Network} (ms : List Text) (step : Step a b) (n : Text)
      → AreDistinct ms
      → step_by ms step ≡ true
      → total ms (λ m. step_amount step m n) ≡ step_total step n
  step_total-members ms (incremented k name diff v s _ _ _ _ _) n h by =
      total-at_member ms k (if text_eq name n then diff else zero_float) h ∙ rw by refl
  step_total-members ms (delivered k j c _) n h by = total-zero ms
  step_total-members ms (state_sent k) n h by = total-zero ms
  step_total-members ms (state_merged j now state _) n h by = total-zero ms
  step_total-members ms (node_joined j now node) n h by = total-zero ms
  step_total-members ms (node_left j now node) n h by = total-zero ms
  step_total-members ms (checked j nodes k _) n h by = total-zero ms

  -- What the members count adds up to what is counted.
  pub counted-members :
      {a b : Network} (ms : List Text) (r : Reach a b) (n : Text)
      → AreDistinct ms
      → is_by ms r ≡ true
      → total ms (λ m. counted_by r m n) ≡ counted r n
  counted-members ms unmoved n h by = total-zero ms
  counted-members ms (next r step) n h by =
      let by_r : is_by ms r ≡ true = ground (arith, by) in
      let by_step : step_by ms step ≡ true = ground (arith, by) in
      total-add ms (λ m. counted_by r m n) (λ m. step_amount step m n)
      ∙ ap (λ x. x +F total ms (λ m. step_amount step m n)) (counted-members ms r n h by_r)
      ∙ ap (◌+F◌ (counted r n)) (step_total-members ms step n h by_step)
